-- ===== src/Registry/Frame.antt =====
-- What deleteTree and copyTree of windows/PlatformUtils/src/utils.cpp leave as it is.
use akvirtualcamera.Base.{
  ℕ, zero, suc, ◌+◌, ◌<◌, ◌≡◌, ◌≢◌, refl, sym, ap, ◌∙◌, Bool, true, false, [], ◌∷◌, none, Bytes,
  length, arith, inl, inr, length-append, Bool-cases, Option-cases,
}
use akvirtualcamera.Registry.{Registry, folded}
use akvirtualcamera.Registry.Trees.{
  below, delete_keys, delete_values, delete_tree, copy_keys, copy_values, copy_opened, copy_tree,
}

pub length-folded : (k : Bytes) → length (folded k) ≡ length k
length-folded [] = refl
length-folded (b ∷ k) = ap suc (length-folded k)

-- Keys whose paths differ in length are apart.
pub lengths_apart : (k l : Bytes) → length k ≢ length l → folded k ≢ folded l
lengths_apart k l differ e = differ (sym (length-folded k) ∙ ap length e ∙ length-folded l)

module _ {R : Type 0} (reg : Registry R) (key name : Bytes) where
  -- There is no such value of the machine.
  abbrev pub Absent : R → Type 0
  Absent s = reg.get_value true key name s ≡ none

  -- A step that leaves it so.
  abbrev pub StaysAbsent : (R → R) → Type 0
  StaysAbsent f = (s : R) → Absent s → Absent (f s)

  delete_keys-StaysAbsent :
      (delete_sub : Bytes → R → R × Bool) (g : Bool) (k : Bytes) (i left : ℕ)
      → ((sub : Bytes) → StaysAbsent (λ s. (delete_sub sub s).0))
      → StaysAbsent (delete_keys reg delete_sub g k i left)
  unfolding delete_keys
  delete_keys-StaysAbsent delete_sub g k i zero h s e = e
  delete_keys-StaysAbsent delete_sub g k i (suc left) h s e =
      elim (Option-cases (reg.enum_key g k i s)) [
        | inl e' ↦ rw (delete_keys, e') (delete_keys-StaysAbsent delete_sub g k (i + 1) left h s e)
        | inr (sub, e') ↦
            rw (delete_keys, e')
              (delete_keys-StaysAbsent delete_sub g k (i + 1) left h _ (h (below k sub) s e))
      ]

  delete_values-StaysAbsent :
      (g : Bool) (k : Bytes) (i left : ℕ) → StaysAbsent (delete_values reg g k i left)
  unfolding delete_values
  delete_values-StaysAbsent g k i zero s e = e
  delete_values-StaysAbsent g k i (suc left) s e = elim (Option-cases (reg.enum_value g k i s)) [
    | inl e' ↦ rw (delete_values, e') (delete_values-StaysAbsent g k (i + 1) left s e)
    | inr ((n, v), e') ↦
        rw (delete_values, e')
          (delete_values-StaysAbsent g k (i + 1) left _
            (reg.delete_value_adds_none true key name g k n s e))
  ]

  pub delete_tree-StaysAbsent :
      (levels : ℕ) (g : Bool) (k : Bytes) → StaysAbsent (λ s. (delete_tree reg levels g k s).0)
  unfolding delete_tree
  delete_tree-StaysAbsent zero g k s e = e
  delete_tree-StaysAbsent (suc levels) g k s e = elim (Bool-cases (reg.has_key g k s)) [
    | inl e' ↦ elim (Option-cases (reg.query_info g k s)) [
      | inl e'' ↦ rw (e', e'') e
      | inr ((keys, values), e'') ↦
          rw (e', e'')
            (reg.delete_key_adds_none true key name g k _ (
              delete_values-StaysAbsent g k 0 values _ (
                delete_keys-StaysAbsent (delete_tree reg levels g) g k 0 keys
                  (delete_tree-StaysAbsent levels g) s e)))
    ]
    | inr e' ↦ rw e' e
  ]

  copy_keys-StaysAbsent :
      (copy_sub : Bytes → Bytes → R → R × Bool) (g : Bool) (src dst : Bytes) (i left : ℕ)
      (result : Bool)
      → length key < length dst
      → ((from to : Bytes) → length key < length to → StaysAbsent (λ s. (copy_sub from to s).0))
      → StaysAbsent (λ s. (copy_keys reg copy_sub g src dst i left result s).0)
  unfolding copy_keys
  copy_keys-StaysAbsent copy_sub g src dst i zero result long h s e = e
  copy_keys-StaysAbsent copy_sub g src dst i (suc left) result long h s e =
      elim (Option-cases (reg.enum_key g src i s)) [
        | inl e' ↦
            rw (copy_keys, e')
              (copy_keys-StaysAbsent copy_sub g src dst (i + 1) left false long h s e)
        | inr (sub, e') ↦
            let t = (reg.create_key g (below dst sub) s).0 in
            let absent : Absent t = reg.create_keeps true g key (below dst sub) name s ∙ e in
            let longer : length key < length (below dst sub) =
              omega (arith, length-append dst (92 ∷ sub)) in
            elim (Bool-cases (reg.create_key g (below dst sub) s).1) [
              | inl made ↦
                  rw (copy_keys, e', made)
                    (copy_keys-StaysAbsent copy_sub g src dst (i + 1) left true long h _
                      (h (below src sub) (below dst sub) longer t absent))
              | inr made ↦
                  rw (copy_keys, e', made)
                    (copy_keys-StaysAbsent copy_sub g src dst (i + 1) left false long h t absent)
            ]
      ]

  copy_values-StaysAbsent :
      (g : Bool) (src dst : Bytes) (i left : ℕ) (result : Bool)
      → length key < length dst
      → StaysAbsent (λ s. (copy_values reg g src dst i left result s).0)
  unfolding copy_values
  copy_values-StaysAbsent g src dst i zero result long s e = e
  copy_values-StaysAbsent g src dst i (suc left) result long s e =
      elim (Option-cases (reg.enum_value g src i s)) [
        | inl e' ↦
            rw (copy_values, e') (copy_values-StaysAbsent g src dst (i + 1) left false long s e)
        | inr ((n, v), e') ↦
            rw (copy_values, e')
              (copy_values-StaysAbsent g src dst (i + 1) left true long _ (
                reg.set_keeps true key name g dst n v s
                  (inr (inl (lengths_apart key dst (omega arith))))
                ∙ e))
      ]

  pub copy_opened-StaysAbsent :
      (copy_sub : Bytes → Bytes → R → R × Bool) (g : Bool) (src dst : Bytes)
      → length key < length dst
      → ((from to : Bytes) → length key < length to → StaysAbsent (λ s. (copy_sub from to s).0))
      → StaysAbsent (λ s. (copy_opened reg copy_sub g src dst s).0)
  unfolding copy_opened
  copy_opened-StaysAbsent copy_sub g src dst long h s e =
      elim (Option-cases (reg.query_info g src s)) [
        | inl e' ↦ rw (copy_opened, e') e
        | inr ((keys, values), e') ↦
            rw (copy_opened, e')
              (copy_values-StaysAbsent g src dst 0 values _ long _
                (copy_keys-StaysAbsent copy_sub g src dst 0 keys true long h s e))
      ]

  pub copy_tree-StaysAbsent :
      (levels : ℕ) (g : Bool) (src dst : Bytes)
      → length key < length dst
      → StaysAbsent (λ s. (copy_tree reg levels g src dst s).0)
  unfolding copy_tree
  copy_tree-StaysAbsent zero g src dst long s e = e
  copy_tree-StaysAbsent (suc levels) g src dst long s e = elim (Bool-cases (reg.has_key g src s)) [
    | inl e' ↦ rw e' (
        copy_opened-StaysAbsent (copy_tree reg levels g) g src dst long
          (copy_tree-StaysAbsent levels g) s e)
    | inr e' ↦ rw e' e
  ]

-- A tree that was deleted is gone, and is not deleted again.
module _ {R : Type 0} (reg : Registry R) where
  pub delete_tree-gone :
      (levels : ℕ) (g : Bool) (k : Bytes) (s : R)
      → (delete_tree reg levels g k s).1 ≡ true
      → reg.has_key g k (delete_tree reg levels g k s).0 ≡ false
  unfolding delete_tree
  delete_tree-gone zero g k s ok = absurd (ground (arith, ok))
  delete_tree-gone (suc levels) g k s ok = elim (Bool-cases (reg.has_key g k s)) [
    | inl e ↦ elim (Option-cases (reg.query_info g k s)) [
      | inl e' ↦ absurd (ground (arith, rw (e, e') at ok))
      | inr ((keys, values), e') ↦ rw (e, e') (reg.deleted_key_gone g k _ (rw (e, e') at ok))
    ]
    | inr e ↦ absurd (ground (arith, rw e at ok))
  ]

  pub delete_tree-missing :
      (levels : ℕ) (g : Bool) (k : Bytes) (s : R)
      → reg.has_key g k s ≡ false
      → (delete_tree reg levels g k s).1 ≡ false
  unfolding delete_tree
  delete_tree-missing zero g k s e = refl
  delete_tree-missing (suc levels) g k s e = rw e refl
