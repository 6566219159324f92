-- ===== src/Registry/Trees.antt =====
-- deleteTree and copyTree of windows/PlatformUtils/src/utils.cpp. `levels` are the levels of keys
-- below the root that are left: the registry has 512, and no key opens behind them.
use akvirtualcamera.Base.{
  ℕ, zero, suc, ◌+◌, Bool, true, false, ◌∷◌, ◌++◌, none, some, Bytes, if◌then◌else◌,
}
use akvirtualcamera.Registry.{Registry}

-- The path of a key in a key.
abbrev pub below : Bytes → Bytes → Bytes
below key name = key ++ 92 ∷ name

module _ {R : Type 0} (reg : Registry R) where
  -- The loop over the keys; `i` is the index, and `left` the rounds that are left.
  unfoldable pub delete_keys : (Bytes → R → R × Bool) → Bool → Bytes → ℕ → ℕ → R → R
  delete_keys delete_sub g key i zero s = s
  delete_keys delete_sub g key i (suc left) s = elim (reg.enum_key g key i s) [
    | none ↦ delete_keys delete_sub g key (i + 1) left s
    | some name ↦ delete_keys delete_sub g key (i + 1) left (delete_sub (below key name) s).0
  ]

  unfoldable pub delete_values : Bool → Bytes → ℕ → ℕ → R → R
  delete_values g key i zero s = s
  delete_values g key i (suc left) s = elim (reg.enum_value g key i s) [
    | none ↦ delete_values g key (i + 1) left s
    | some (name, v) ↦ delete_values g key (i + 1) left (reg.delete_value g key name s).0
  ]

  unfoldable pub delete_tree : ℕ → Bool → Bytes → R → R × Bool
  unfolding delete_keys delete_values
  delete_tree zero g key s = (s, false)
  delete_tree (suc levels) g key s =
      if reg.has_key g key s
      then (elim (reg.query_info g key s) [
        | none ↦ (s, false)
        | some (keys, values) ↦
            reg.delete_key g key
              (delete_values g key 0 values (delete_keys (delete_tree levels g) g key 0 keys s))
      ])
      else (s, false)

  -- The loop over the keys of copyTree, with the result so far.
  unfoldable pub copy_keys :
      (Bytes → Bytes → R → R × Bool) → Bool → Bytes → Bytes → ℕ → ℕ → Bool → R → R × Bool
  copy_keys copy_sub g src dst i zero result s = (s, result)
  copy_keys copy_sub g src dst i (suc left) result s = elim (reg.enum_key g src i s) [
    | none ↦ copy_keys copy_sub g src dst (i + 1) left false s
    | some name ↦
        let (t, created) = reg.create_key g (below dst name) s in
        copy_keys copy_sub g src dst (i + 1) left created
          (if created then (copy_sub (below src name) (below dst name) t).0 else t)
  ]

  unfoldable pub copy_values : Bool → Bytes → Bytes → ℕ → ℕ → Bool → R → R × Bool
  copy_values g src dst i zero result s = (s, result)
  copy_values g src dst i (suc left) result s = elim (reg.enum_value g src i s) [
    | none ↦ copy_values g src dst (i + 1) left false s
    | some (name, v) ↦ copy_values g src dst (i + 1) left true (reg.set_value g dst name v s).0
  ]

  -- Behind the keys' being opened.
  unfoldable pub copy_opened : (Bytes → Bytes → R → R × Bool) → Bool → Bytes → Bytes → R → R × Bool
  unfolding copy_keys copy_values
  copy_opened copy_sub g src dst s = elim (reg.query_info g src s) [
    | none ↦ (s, false)
    | some (keys, values) ↦
        let (t, result) = copy_keys copy_sub g src dst 0 keys true s in
        copy_values g src dst 0 values result t
  ]

  -- copyTree with a name: `src` is the key of that name.
  unfoldable pub copy_tree : ℕ → Bool → Bytes → Bytes → R → R × Bool
  unfolding copy_opened
  copy_tree zero g src dst s = (s, false)
  copy_tree (suc levels) g src dst s =
      if reg.has_key g src s then copy_opened (copy_tree levels g) g src dst s else (s, false)
