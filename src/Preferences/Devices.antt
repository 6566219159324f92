-- ===== src/Preferences/Devices.antt =====
-- addDevice of windows/PlatformUtils/src/preferences.cpp adds a camera behind the others.
use akvirtualcamera.Base.{
  ℕ, suc, ◌+◌, ◌-◌, ◌^◌, ◌<◌, ◌≡◌, refl, sym, ap, ◌∙◌, Bool, true, false, List, [], ◌∷◌, ◌++◌, none,
  some, Bytes, ltb, if◌then◌else◌, is_empty, arith, inl, inr, codes, Bool-cases,
}
use akvirtualcamera.Registry.{Registry, Value, reg_sz, reg_dword}
use akvirtualcamera.Preferences.{at_last, read_value, read_int, int_from, write}
use akvirtualcamera.Preferences.Cameras.{
  cameras_size, camera_key, cameras_count, write_all, new_camera, add_device, next_int,
}
use akvirtualcamera.Preferences.Values.{IsText, text_of-IsText}
use akvirtualcamera.Preferences.Keys.{cameras_Away, camera_size_Away, size_camera_Away, names_Away}
use akvirtualcamera.Preferences.Writes.{write_all-Away, write_all-first, write_all-others}
use akvirtualcamera.Preferences.View.{
  camera_at, cameras_from, cameras, cameras_from-snoc, cameras_from-same, no_backslash_id,
  no_backslash_description, id_description, id_key, description_key, id_from, description_from,
  count_from, size_of_small,
}
use akvirtualcamera.Text.Decimal.{to_string, int_to_string}
use akvirtualcamera.Video.Format.{size_of_int}

module _ {R : Type 0} (reg : Registry R) where
  module _ (description id : Bytes) (w : ℕ) (s : R)
      (stored : read_int reg cameras_size 0 true s ≡ w) (small : w < 2 ^ 31 - 1)
      (d : IsText description) (t : IsText id) where
    abbrev number : Bytes
    number = to_string (w + 1)

    abbrev added : List (Bytes × Value)
    added =
        (camera_key number (codes "description"), reg_sz description)
        ∷ (camera_key number (codes "id"), reg_sz id)
        ∷ []

    abbrev all_writes : List (Bytes × Value)
    all_writes = (cameras_size, reg_dword (w + 1)) ∷ added

    new_camera_lem : new_camera (next_int w) description id ≡ all_writes
    unfolding new_camera int_to_string
    new_camera_lem =
        let same : next_int w ≡ w + 1 = omega arith in
        let positive : ltb (w + 1) (2 ^ 31) ≡ true = ground arith in rw (same, positive) refl

    size_before : cameras_count reg s ≡ w
    unfolding cameras_count
    size_before = ap size_of_int stored ∙ size_of_small w (omega arith)

    abbrev result : R × Bool → R × Bytes
    result r = (r.0, if r.1 then id else [])

    pub add_device_lem : add_device reg description id s ≡ result (write_all reg all_writes s)
    unfolding add_device
    add_device_lem =
        let some_id : is_empty id ≡ false = t.not_empty in
        ap
          (λ b.
            if b
            then (s, [])
            else result (
                write_all reg
                  (new_camera (next_int (read_int reg cameras_size 0 true s)) description id) s))
          some_id
        ∙ ap (λ v. result (write_all reg (new_camera (next_int v) description id) s)) stored
        ∙ ap (λ ws. result (write_all reg ws s)) new_camera_lem

    all_ok : (add_device reg description id s).1 ≡ id → (write_all reg all_writes s).1 ≡ true
    all_ok done = elim (Bool-cases (write_all reg all_writes s).1) [
      | inl e ↦ e
      | inr e ↦
          let nothing : [] ≡ id =
            sym (ap (λ b. if b then id else []) e) ∙ sym (ap (λ r. r.1) add_device_lem) ∙ done in
          absurd (ground (arith, ap is_empty nothing, t.not_empty))
    ]

    -- Behind the writes.
    module _ (ok : (write_all reg all_writes s).1 ≡ true) where
      abbrev after : R
      after = (write_all reg all_writes s).0

      abbrev between : R
      between = (write reg cameras_size (reg_dword (w + 1)) true s).0

      size_after : cameras_count reg after ≡ w + 1
      unfolding int_from
      size_after =
          let found : read_value reg cameras_size true after ≡ some (reg_dword (w + 1)) =
            write_all-first reg cameras_size (reg_dword (w + 1)) added s ok (
              size_camera_Away number (codes "description") no_backslash_description,
              (size_camera_Away number (codes "id") no_backslash_id, tt),
            ) in
          count_from reg after (some (reg_dword (w + 1))) found
          ∙ size_of_small (w + 1) (omega arith)

      old_value :
          (i : ℕ) (name : Bytes)
          → i < w
          → at_last name ≡ none
          → read_value reg (camera_key (to_string (i + 1)) name) true after
            ≡ read_value reg (camera_key (to_string (i + 1)) name) true s
      old_value i name less e =
          write_all-Away reg all_writes (camera_key (to_string (i + 1)) name) s (
            camera_size_Away (to_string (i + 1)) name e,
            (
              cameras_Away (i + 1) (w + 1) name (codes "description") (omega arith) (omega arith)
                  (omega arith) e no_backslash_description,
              (
                cameras_Away (i + 1) (w + 1) name (codes "id") (omega arith) (omega arith)
                    (omega arith) e no_backslash_id,
                tt,
              ),
            ),
          )

      old_camera : (i : ℕ) → i < w → camera_at reg after i ≡ camera_at reg s i
      old_camera i less =
          let id_same =
            id_from reg i after _ (old_value i (codes "id") less no_backslash_id)
            ∙ sym (id_from reg i s _ refl) in
          let description_same =
            description_from reg i after _ (omega (arith, size_after))
              (old_value i (codes "description") less no_backslash_description)
            ∙ sym (description_from reg i s _ (omega (arith, size_before)) refl) in
          rw (id_same, description_same) refl

      described_ok : (write_all reg added between).1 ≡ true
      described_ok = write_all-others reg cameras_size (reg_dword (w + 1)) added s ok

      abbrev id_write : List (Bytes × Value)
      id_write = (camera_key number (codes "id"), reg_sz id) ∷ []

      abbrev described : R
      described =
          (write reg (camera_key number (codes "description")) (reg_sz description) true between).0

      id_ok : (write_all reg id_write described).1 ≡ true
      id_ok =
          write_all-others reg (camera_key number (codes "description")) (reg_sz description)
            id_write between described_ok

      id_after : read_value reg (id_key w) true after ≡ some (reg_sz id)
      unfolding write_all
      id_after =
          write_all-first reg (camera_key number (codes "id")) (reg_sz id) [] described id_ok tt

      description_after : read_value reg (description_key w) true after ≡ some (reg_sz description)
      unfolding write_all
      description_after =
          write_all-first reg (camera_key number (codes "description")) (reg_sz description)
            id_write between described_ok
            (
              names_Away number (codes "description") (codes "id") no_backslash_description
                  no_backslash_id id_description,
              tt,
            )

      new_camera_at : camera_at reg after w ≡ record { id = id; description = description }
      new_camera_at =
          let id_new = id_from reg w after _ id_after ∙ text_of-IsText id [] t in
          let description_new =
            description_from reg w after _ (omega (arith, size_after)) description_after
            ∙ text_of-IsText description [] d in
          rw (id_new, description_new) refl

      all_cameras :
          cameras reg after ≡ cameras reg s ++ record { id = id; description = description } ∷ []
      all_cameras =
          let one_more : cameras_count reg after ≡ suc w = size_after ∙ omega arith in
          ap (cameras_from reg after 0) one_more
          ∙ cameras_from-snoc reg after 0 w
          ∙ ap (λ j. cameras_from reg after 0 w ++ camera_at reg after j ∷ []) (omega arith)
          ∙ ap (λ c. cameras_from reg after 0 w ++ c ∷ []) new_camera_at
          ∙ ap (λ cs. cs ++ record { id = id; description = description } ∷ [])
              (cameras_from-same reg after s 0 w (λ i less. old_camera i (omega arith))
                ∙ ap (cameras_from reg s 0) (sym size_before))

  -- Where addDevice is a success, and the number of cameras is below the last int: the cameras behind it
  -- are those that there were, with the new one at the end, under the id and with the description that
  -- were asked for, if these are texts that a read can give back.
  pub cameras-add_device :
      (description id : Bytes) (s : R)
      → read_int reg cameras_size 0 true s < 2 ^ 31 - 1
      → IsText description
      → IsText id
      → (add_device reg description id s).1 ≡ id
      → cameras reg (add_device reg description id s).0
        ≡ cameras reg s ++ record { id = id; description = description } ∷ []
  cameras-add_device description id s small d t done =
      let w = read_int reg cameras_size 0 true s in
      ap (λ r. cameras reg r.0) (add_device_lem description id w s refl small d t)
      ∙ all_cameras description id w s refl small d t
          (all_ok description id w s refl small d t done)
