-- ===== src/Preferences/Overwritten.antt =====
-- addCamera of windows/PlatformUtils/src/preferences.cpp, which reads the number of cameras from
-- another place than it writes it to.
use akvirtualcamera.Base.{
  ℕ, ◌+◌, ◌≡◌, refl, sym, ap, ◌∙◌, Bool, true, false, List, [], ◌∷◌, Option, some, Bytes,
  if◌then◌else◌, is_empty, length, arith, All, inl, inr, codes, Bool-cases,
}
use akvirtualcamera.Registry.{Registry, Value, reg_sz, reg_dword}
use akvirtualcamera.Registry.Frame.{Absent}
use akvirtualcamera.Preferences.{at_last, split_sub_key, read_value, read_int, int_from, write}
use akvirtualcamera.Preferences.Cameras.{
  cameras_prefix, cameras_size, camera_key, cameras_count, camera_exists, write_all, new_camera,
  StoredFormat, formats_size, format_values, add_camera, next_int, int_bits,
}
use akvirtualcamera.Preferences.Values.{IsText, text_of-IsText}
use akvirtualcamera.Preferences.Keys.{cameras_path, size_camera_Away, names_Away}
use akvirtualcamera.Preferences.Writes.{write_all-first, write_all-others}
use akvirtualcamera.Preferences.FormatKeys.{
  first_number, Long, Long-AwayFrom, format_values-Long, formats_size-Long, number_one,
}
use akvirtualcamera.Preferences.View.{
  cameras, cameras_from, no_backslash_id, no_backslash_description, id_description, id_from,
  description_from, count_from,
}
use akvirtualcamera.Text.Decimal.{to_string, int_to_string}
use akvirtualcamera.Video.Format.{size_of_int}

module _ {R : Type 0} (reg : Registry R) where
  -- The end of addCamera: whether no id was asked for, whether the id is taken, the id, and the writes.
  abbrev pick : Bool → Bool → Bytes → R → R × Bool → R × Bytes
  pick unasked taken id s r =
      if unasked
      then (if is_empty id then (s, []) else (r.0, if r.1 then id else []))
      else (if taken then (s, []) else (r.0, if r.1 then id else []))

  pick-done :
      (unasked taken : Bool) (id : Bytes) (s : R) (r : R × Bool)
      → is_empty id ≡ false
      → (pick unasked taken id s r).1 ≡ id
      → (r.1 ≡ true) × ((pick unasked taken id s r).0 ≡ r.0)
  pick-done unasked taken [] s r some_id done = absurd (ground (arith, some_id))
  pick-done true taken (b ∷ id) s (t, true) some_id done = (refl, refl)
  pick-done true taken (b ∷ id) s (t, false) some_id done = absurd (ground (arith, done))
  pick-done false true (b ∷ id) s r some_id done = absurd (ground (arith, done))
  pick-done false false (b ∷ id) s (t, true) some_id done = (refl, refl)
  pick-done false false (b ∷ id) s (t, false) some_id done = absurd (ground (arith, done))

  module _ (description id : Bytes) (formats : List StoredFormat) where
    abbrev writes_at : ℕ → Bytes → List (Bytes × Value)
    writes_at index number =
        (cameras_size, reg_dword index)
        ∷ (camera_key number (codes "description"), reg_sz description)
        ∷ (camera_key number (codes "id"), reg_sz id)
        ∷ (formats_size number, reg_dword (int_bits (length formats)))
        ∷ format_values number 1 formats

  size_unread : (s : R) → Absent reg cameras_path [] s → read_int reg cameras_prefix 0 true s ≡ 0
  unfolding read_int int_from read_value split_sub_key at_last
  size_unread s e = elim (Bool-cases (reg.has_key true cameras_path s)) [
    | inl h ↦ rw (h, e) refl
    | inr h ↦ rw h refl
  ]

  add_camera_lem :
      (created device_id description : Bytes) (formats : List StoredFormat) (s : R)
      → Absent reg cameras_path [] s
      → let id = if is_empty device_id then created else device_id in
        add_camera reg created device_id description formats s
        ≡ pick
            (is_empty device_id)
            (camera_exists reg device_id s)
            id
            s
            (write_all reg (writes_at description id formats 1 first_number) s)
  unfolding add_camera new_camera
  add_camera_lem created device_id description formats s absent =
      let id = if is_empty device_id then created else device_id in
      let end = λ (w : ℕ) (number : Bytes).
        pick (is_empty device_id) (camera_exists reg device_id s) id s
          (write_all reg (writes_at description id formats (next_int w) number) s) in
      ap (λ w. end w (int_to_string (next_int w))) (size_unread s absent) ∙ ap (end 0) number_one.1

  module _ (description id : Bytes) (formats : List StoredFormat) (s : R)
      (ok : (write_all reg (writes_at description id formats 1 first_number) s).1 ≡ true)
      (d : IsText description) (t : IsText id) where
    abbrev last_writes : List (Bytes × Value)
    last_writes =
        (formats_size first_number, reg_dword (int_bits (length formats)))
        ∷ format_values first_number 1 formats

    abbrev id_writes : List (Bytes × Value)
    id_writes = (camera_key first_number (codes "id"), reg_sz id) ∷ last_writes

    abbrev description_writes : List (Bytes × Value)
    description_writes =
        (camera_key first_number (codes "description"), reg_sz description) ∷ id_writes

    abbrev after : R
    after = (write_all reg (writes_at description id formats 1 first_number) s).0

    abbrev sized : R
    sized = (write reg cameras_size (reg_dword 1) true s).0

    abbrev described : R
    described =
        (write reg (camera_key first_number (codes "description")) (reg_sz description) true
          sized).0

    last_Long : All (λ w. Long w.0) last_writes
    last_Long = (formats_size-Long, format_values-Long 1 formats)

    size_after : read_value reg cameras_size true after ≡ some (reg_dword 1)
    unfolding split_sub_key at_last
    size_after = write_all-first reg cameras_size (reg_dword 1) description_writes s ok (
      size_camera_Away first_number (codes "description") no_backslash_description,
      (
        size_camera_Away first_number (codes "id") no_backslash_id,
        Long-AwayFrom cameras_size last_writes (omega arith) last_Long,
      ),
    )

    described_ok : (write_all reg description_writes sized).1 ≡ true
    described_ok = write_all-others reg cameras_size (reg_dword 1) description_writes s ok

    description_after :
        read_value reg (camera_key first_number (codes "description")) true after
        ≡ some (reg_sz description)
    unfolding write_all split_sub_key at_last
    description_after =
        write_all-first reg (camera_key first_number (codes "description")) (reg_sz description)
          id_writes sized described_ok
          (
            names_Away first_number (codes "description") (codes "id") no_backslash_description
                no_backslash_id id_description,
            Long-AwayFrom (camera_key first_number (codes "description")) last_writes (omega arith)
                last_Long,
          )

    id_after : read_value reg (camera_key first_number (codes "id")) true after ≡ some (reg_sz id)
    unfolding write_all split_sub_key at_last
    id_after =
        write_all-first reg (camera_key first_number (codes "id")) (reg_sz id) last_writes described
          (write_all-others reg (camera_key first_number (codes "description")) (reg_sz description)
            id_writes sized described_ok)
          (Long-AwayFrom (camera_key first_number (codes "id")) last_writes (omega arith) last_Long)

    one_camera : cameras_count reg after ≡ 1
    unfolding int_from size_of_int
    one_camera = count_from reg after (some (reg_dword 1)) size_after

    -- The text of a value of the first camera.
    first_text :
        (name : Bytes) (v : Option Value)
        → read_value reg (camera_key first_number name) true after ≡ v
        → read_value reg (camera_key (to_string (0 + 1)) name) true after ≡ v
    first_text name v e =
        ap (λ number. read_value reg (camera_key number name) true after) number_one.0 ∙ e

    the_camera : cameras reg after ≡ record { id = id; description = description } ∷ []
    the_camera =
        let id_found =
          id_from reg 0 after _ (first_text (codes "id") _ id_after) ∙ text_of-IsText id [] t in
        let description_found =
          description_from reg 0 after _ (omega (arith, one_camera))
            (first_text (codes "description") _ description_after)
          ∙ text_of-IsText description [] d in
        ap (cameras_from reg after 0) one_camera ∙ rw (id_found, description_found) refl

  -- Where the key of the cameras has no default value, as this program never writes one: if addCamera is
  -- a success, then the new camera is the only one, however many there were.
  pub cameras-add_camera :
      (created device_id description : Bytes) (formats : List StoredFormat) (s : R)
      → Absent reg cameras_path [] s
      → let id = if is_empty device_id then created else device_id in
        IsText description
        → IsText id
        → (add_camera reg created device_id description formats s).1 ≡ id
        → cameras reg (add_camera reg created device_id description formats s).0
          ≡ record { id = id; description = description } ∷ []
  cameras-add_camera created device_id description formats s absent d t done =
      let id = if is_empty device_id then created else device_id in
      let e = add_camera_lem created device_id description formats s absent in
      let (ok, same) =
        pick-done (is_empty device_id) (camera_exists reg device_id s) id s
          (write_all reg (writes_at description id formats 1 first_number) s) t.not_empty
          (sym (ap (λ r. r.1) e) ∙ done) in
      ap (λ r. cameras reg r.0) e
      ∙ ap (cameras reg) same
      ∙ the_camera description id formats s ok d t
