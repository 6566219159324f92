-- ===== src/Preferences/Removal.antt =====
-- removeCamera of windows/PlatformUtils/src/preferences.cpp.
use akvirtualcamera.Base.{
  ℕ, zero, suc, ◌+◌, ◌-◌, ◌<◌, ◌≡◌, ◌⊎◌, refl, sym, ap, ◌∙◌, Bool, true, false, ◌&&◌, [], ◌∷◌, ◌++◌,
  none, some, Bytes, ltb, if◌then◌else◌, length, arith, All, inl, inr, codes, Bool-cases,
  Option-cases, str_eq, length-append,
}
use akvirtualcamera.Registry.{Registry}
use akvirtualcamera.Registry.Trees.{delete_tree, copy_opened, copy_tree}
use akvirtualcamera.Registry.Frame.{
  Absent, delete_tree-StaysAbsent, copy_opened-StaysAbsent, copy_tree-StaysAbsent, delete_tree-gone,
  delete_tree-missing,
}
use akvirtualcamera.Preferences.{
  at_last, split_sub_key, delete_named, delete_key, move, max_levels, reg_prefix,
}
use akvirtualcamera.Preferences.Cameras.{
  cameras_prefix, camera_tree, cameras_count, camera_id, camera_from, camera_from_id, move_down,
  remove_at, remove_camera,
}
use akvirtualcamera.Preferences.Values.{split_sub_key-append}
use akvirtualcamera.Preferences.Keys.{cameras_path, camera_path, split_sub_key-camera_key}
use akvirtualcamera.Text.Decimal.{to_string, IsDigit, to_string-IsDigit, to_string-nonempty}

at_last-digits : (k : Bytes) → All IsDigit k → at_last k ≡ none
unfolding at_last
at_last-digits [] h = refl
at_last-digits (b ∷ k) h = ground (arith, h.0.0, h.0.1, at_last-digits k h.1)

-- The number of a camera without a backslash behind it is the name of a value.
split_number : (n : ℕ) → split_sub_key (cameras_prefix ++ to_string n) ≡ (cameras_path, to_string n)
split_number n =
    split_sub_key-append (codes "Cameras") (to_string n)
      (at_last-digits (to_string n) (to_string-IsDigit n))

split_tree : (n : ℕ) → split_sub_key (camera_tree n) ≡ (camera_path (to_string n), [])
unfolding at_last
split_tree n = split_sub_key-camera_key (to_string n) [] refl

module _ {R : Type 0} (reg : Registry R) where
  -- No value in the key of the cameras has a number for its name.
  abbrev pub NoNumber : R → Type 0
  NoNumber s = (n : ℕ) → Absent reg cameras_path (to_string n) s

  delete_key-tree :
      (n : ℕ) (s : R)
      → delete_key reg (camera_tree n) true s
        ≡ delete_tree reg max_levels true (camera_path (to_string n)) s
  unfolding delete_key delete_named
  delete_key-tree n s = ap (λ p. delete_named reg true p s) (split_tree n)

  delete_key-number :
      (n : ℕ) (s : R)
      → Absent reg cameras_path (to_string n) s
      → (delete_key reg (cameras_prefix ++ to_string n) true s).1 ≡ false
  unfolding delete_key delete_named
  delete_key-number n s e =
      ap (λ p. (delete_named reg true p s).1) (split_number n)
      ∙ rw (to_string-nonempty n) (elim (Bool-cases (reg.has_key true cameras_path s)) [
        | inl e' ↦ rw e' (reg.missing_value_stays true cameras_path (to_string n) s e)
        | inr e' ↦ rw e' refl
      ])

  behind_the_copy :
      (found created copied : Bool) (s t u : R) (deleted : R × Bool)
      → deleted.1 ≡ false
      → (if found
          then (if created then (if copied then deleted else (u, false)) else (t, false))
          else (s, false)).1
        ≡ false
  behind_the_copy false created copied s t u deleted e = refl
  behind_the_copy true false copied s t u deleted e = refl
  behind_the_copy true true false s t u deleted e = refl
  behind_the_copy true true true s t u deleted e = e

  move-fails :
      (i : ℕ) (s : R)
      → NoNumber s
      → (move reg (cameras_prefix ++ to_string (i + 1)) (cameras_prefix ++ to_string i) true s).1
        ≡ false
  unfolding move
  move-fails i s absent =
      let from = reg_prefix ++ 92 ∷ (cameras_prefix ++ to_string (i + 1)) in
      let to = reg_prefix ++ 92 ∷ (cameras_prefix ++ to_string i) in
      let longer : length cameras_path < length to =
        omega (arith, length-append (reg_prefix ++ 92 ∷ cameras_prefix) (to_string i)) in
      let t = (reg.create_key true to s).0 in
      let absent_t : Absent reg cameras_path (to_string (i + 1)) t =
        reg.create_keeps true true cameras_path to (to_string (i + 1)) s ∙ absent (i + 1) in
      let u = copy_opened reg (copy_tree reg max_levels true) true from to t in
      let absent_u : Absent reg cameras_path (to_string (i + 1)) u.0 =
        copy_opened-StaysAbsent reg cameras_path (to_string (i + 1)) (copy_tree reg max_levels true)
          true from to longer
          (copy_tree-StaysAbsent reg cameras_path (to_string (i + 1)) max_levels true) t absent_t in
      behind_the_copy (reg.has_key true from s) (reg.create_key true to s).1 u.1 s t u.0
        (delete_key reg (cameras_prefix ++ to_string (i + 1)) true u.0)
        (delete_key-number (i + 1) u.0 absent_u)

  move_down-false : (i left : ℕ) (s : R) → (move_down reg i left false s).1 ≡ false
  unfolding move_down
  move_down-false i zero s = refl
  move_down-false i (suc left) s = move_down-false (i + 1) left _

  move_down-fails :
      (i left : ℕ) (ok : Bool) (s : R)
      → 0 < left
      → NoNumber s
      → (move_down reg i left ok s).1 ≡ false
  unfolding move_down
  move_down-fails i zero ok s some_left absent = absurd (omega arith)
  move_down-fails i (suc left) true s some_left absent =
      rw (move_down, move-fails i s absent) (move_down-false (i + 1) left _)
  move_down-fails i (suc left) false s some_left absent = move_down-false (i + 1) left _

  camera_from-below :
      (id : Bytes) (s : R) (i left j : ℕ) → camera_from reg id s i left ≡ some j → j < i + left
  unfolding camera_from
  camera_from-below id s i zero j e = absurd (ground (arith, e))
  camera_from-below id s i (suc left) j e = elim (Bool-cases (str_eq (camera_id reg i s) id)) [
    | inl h ↦ (let same : i ≡ j = ground (arith, rw h at e) in omega arith)
    | inr h ↦ omega (arith, camera_from-below id s (i + 1) left j (rw h at e))
  ]

  NoNumber-delete_key :
      (n : ℕ) (s : R) → NoNumber s → NoNumber (delete_key reg (camera_tree n) true s).0
  NoNumber-delete_key n s absent m = rw (delete_key-tree n s) (
      delete_tree-StaysAbsent reg cameras_path (to_string m) max_levels true
        (camera_path (to_string n)) s (absent m))

  -- A tree is not deleted twice.
  delete_key-twice :
      (n : ℕ) (s : R)
      → (delete_key reg (camera_tree n) true s).1 ≡ true
      → (delete_key reg (camera_tree n) true (delete_key reg (camera_tree n) true s).0).1 ≡ false
  delete_key-twice n s ok =
      let path = camera_path (to_string n) in
      rw (delete_key-tree n s, delete_key-tree n (delete_tree reg max_levels true path s).0)
        (delete_tree-missing reg max_levels true path _
          (delete_tree-gone reg max_levels true path s (rw (delete_key-tree n s) at ok)))

  -- Without a camera behind the one that is removed.
  last_fails :
      (number count left : ℕ) (s : R)
      → number ≡ count
      → left ≡ 0
      → let first = delete_key reg (camera_tree number) true s in
        let moved = move_down reg number left first.1 first.0 in
        (moved.1 ≡ false) ⊎ ((delete_key reg (camera_tree count) true moved.0).1 ≡ false)
  unfolding move_down
  last_fails number count left s e none_left =
      rw (none_left, sym e)
        (elim (Bool-cases (delete_key reg (camera_tree number) true s).1) [
          | inl ok ↦ inr (delete_key-twice number s ok)
          | inr failed ↦ inl failed
        ])

  one_fails :
      (moved last size : Bool) → (moved ≡ false) ⊎ (last ≡ false) → (moved && last && size) ≡ false
  one_fails moved last size h = ground arith

  remove_at-fails :
      (index : ℕ) (s : R)
      → index < cameras_count reg s
      → NoNumber s
      → (remove_at reg index s).1 ≡ false
  unfolding remove_at
  remove_at-fails index s less absent =
      let count = cameras_count reg s in
      let first = delete_key reg (camera_tree (index + 1)) true s in
      let moved = move_down reg (index + 1) (count - (index + 1)) first.1 first.0 in
      one_fails _ (delete_key reg (camera_tree count) true moved.0).1 _
        (elim (Bool-cases (ltb (index + 1) count)) [
          | inl e ↦ inl (
              move_down-fails (index + 1) (count - (index + 1)) first.1 first.0 (ground (arith, e))
                (NoNumber-delete_key (index + 1) s absent))
          | inr e ↦
              let last : count ≡ index + 1 = ground (arith, e) in
              last_fails (index + 1) count (count - (index + 1)) s (sym last) (omega (arith, last))
        ])

  -- In a registry where no value in the key of the cameras has a number for its name, removeCamera is
  -- never a success, whether a camera has the id or not.
  pub remove_camera-fails : (id : Bytes) (s : R) → NoNumber s → (remove_camera reg id s).1 ≡ false
  unfolding remove_camera camera_from_id
  remove_camera-fails id s absent = elim (Option-cases (camera_from_id reg id s)) [
    | inl e ↦ rw (remove_camera, e) refl
    | inr (index, e) ↦
        rw (remove_camera, e)
          (remove_at-fails index s
            (omega (arith, camera_from-below id s 0 (cameras_count reg s) index e)) absent)
  ]
