-- ===== src/Preferences/Numbers.antt =====
-- The names of the values in the key of the cameras, in windows/PlatformUtils/src/preferences.cpp.
use akvirtualcamera.Base.{
  ℕ, ◌≡◌, sym, ◌∙◌, subst, true, List, [], ◌∷◌, none, Bytes, codes, arith, All, inl, inr,
  Bool-cases, is_empty,
}
use akvirtualcamera.Registry.{Registry, Value, folded, lower, Apart}
use akvirtualcamera.Registry.Frame.{Absent}
use akvirtualcamera.Preferences.{at_last, split_sub_key, write, read_int}
use akvirtualcamera.Preferences.Cameras.{
  cameras_size, camera_key, write_all, new_camera, add_device, next_int,
}
use akvirtualcamera.Preferences.Keys.{
  cameras_path, cameras_path_apart, split_sub_key-camera_key, split_size, folded-digits,
}
use akvirtualcamera.Preferences.Removal.{NoNumber}
use akvirtualcamera.Preferences.View.{no_backslash_id, no_backslash_description}
use akvirtualcamera.Text.Decimal.{to_string, int_to_string, IsDigit, to_string-IsDigit}

-- The value of a number is not that of a key.
abbrev ApartFrom : ℕ → Bytes → Type 0
ApartFrom n key =
    Apart true cameras_path (to_string n) true (split_sub_key key).0 (split_sub_key key).1

no_digit : All IsDigit (folded (codes "size")) → ⊥
unfolding lower
no_digit h = absurd (omega (arith, h.0.1))

size_no_number : (n : ℕ) → ApartFrom n cameras_size
size_no_number n = rw split_size (
    inr (
      inr (λ e.
        let digits : All IsDigit (folded (codes "size")) =
          subst (All IsDigit) (sym (folded-digits (to_string n) (to_string-IsDigit n)) ∙ e)
            (to_string-IsDigit n) in
        no_digit digits)))

camera_no_number :
    (n : ℕ) (number name : Bytes) → at_last name ≡ none → ApartFrom n (camera_key number name)
camera_no_number n number name e =
    rw (split_sub_key-camera_key number name e) (inr (inl (λ h. cameras_path_apart number (sym h))))

module _ {R : Type 0} (reg : Registry R) where
  write_all-Absent :
      (n : ℕ) (writes : List (Bytes × Value)) (s : R)
      → All (λ w. ApartFrom n w.0) writes
      → Absent reg cameras_path (to_string n) s
      → Absent reg cameras_path (to_string n) (write_all reg writes s).0
  unfolding write_all write
  write_all-Absent n [] s h e = e
  write_all-Absent n ((key, v) ∷ writes) s h e =
      let (k, m) = split_sub_key key in
      let t = (reg.create_key true k s).0 in
      let absent : Absent reg cameras_path (to_string n) t =
        reg.create_keeps true true cameras_path k (to_string n) s ∙ e in
      write_all-Absent n writes (write reg key v true s).0 h.1
        (elim (Bool-cases (reg.create_key true k s).1) [
          | inl made ↦
              rw (write, made)
                (reg.set_keeps true cameras_path (to_string n) true k m v t h.0 ∙ absent)
          | inr made ↦ rw (write, made) absent
        ])

  -- addDevice writes no value with a number for its name to the key of the cameras.
  pub NoNumber-add_device :
      (description id : Bytes) (s : R)
      → NoNumber reg s
      → NoNumber reg (add_device reg description id s).0
  unfolding add_device new_camera
  NoNumber-add_device description id s absent n =
      let index = next_int (read_int reg cameras_size 0 true s) in
      let written =
        write_all-Absent n (new_camera index description id) s
          (
            size_no_number n,
            (
              camera_no_number n (int_to_string index) (codes "description")
                  no_backslash_description,
              (camera_no_number n (int_to_string index) (codes "id") no_backslash_id, tt),
            ),
          )
          (absent n) in
      elim (Bool-cases (is_empty id)) [
        | inl e ↦ rw (add_device, e) (absent n)
        | inr e ↦ rw (add_device, e) written
      ]
