-- ===== src/Preferences/SetFormats.antt =====
-- cameraSetFormats of windows/PlatformUtils/src/preferences.cpp.
use akvirtualcamera.Base.{
  ℕ, ◌+◌, ◌^◌, ◌<◌, ◌≡◌, refl, sym, ap, ◌∙◌, Bool, true, false, ◌&&◌, List, [], ◌∷◌, ◌++◌, none,
  Bytes, leb, length, arith, All, inl, inr, codes, Bool-cases, append_assoc, length-append,
}
use akvirtualcamera.Registry.{Registry, Value, reg_dword}
use akvirtualcamera.Registry.Frame.{lengths_apart}
use akvirtualcamera.Preferences.{
  at_last, split_sub_key, reg_prefix, read_int, int_from, write, delete_key,
}
use akvirtualcamera.Preferences.Cameras.{
  camera_key, StoredFormat, format_values, write_all, cameras_count, formats_size, int_bits,
}
use akvirtualcamera.Preferences.Values.{Away, split_sub_key-append}
use akvirtualcamera.Preferences.View.{size_of_small}
use akvirtualcamera.Preferences.Writes.{AwayFrom, write_all-first, write_all-others}
use akvirtualcamera.Preferences.Formats.{format_key, field_key, formats_count, set_stored_formats}
use akvirtualcamera.Preferences.FormatTrip.{HasTexts, stored_from, stored_formats}
use akvirtualcamera.Text.Decimal.{to_string}
use akvirtualcamera.Video.Format.{size_of_int}

abbrev formats_key : Bytes → Bytes
formats_key number = camera_key number (codes "Formats")

split_formats_size :
    (number : Bytes)
    → split_sub_key (formats_size number) ≡ (reg_prefix ++ 92 ∷ formats_key number, codes "size")
unfolding at_last
split_formats_size number =
    let parts : formats_size number ≡ formats_key number ++ 92 ∷ codes "size" =
      ap (λ k. codes "Cameras\\" ++ k)
        (sym (append_assoc number (92 ∷ codes "Formats") (92 ∷ codes "size"))) in
    ap split_sub_key parts ∙ split_sub_key-append (formats_key number) (codes "size") refl

size_field_Away :
    (number : Bytes) (i : ℕ) (name : Bytes)
    → at_last name ≡ none
    → Away true (formats_size number) true (field_key number i name)
size_field_Away number i name e =
    rw (split_formats_size number, split_sub_key-append (format_key number i) name e)
      (inr (
        inl (
          lengths_apart (reg_prefix ++ 92 ∷ formats_key number)
            (reg_prefix ++ 92 ∷ format_key number i)
            (λ same. absurd (
              omega (
                arith,
                same,
                length-append number (92 ∷ codes "Formats"),
                length-append number (92 ∷ (codes "Formats\\" ++ to_string i)),
              ))))))

size_AwayFrom :
    (number : Bytes) (i : ℕ) (formats : List StoredFormat)
    → AwayFrom (formats_size number) (format_values number i formats)
unfolding format_values at_last
size_AwayFrom number i [] = tt
size_AwayFrom number i (f ∷ formats) = (
  size_field_Away number i (codes "format") refl,
  (
    size_field_Away number i (codes "width") refl,
    (
      size_field_Away number i (codes "height") refl,
      (size_field_Away number i (codes "fps") refl, size_AwayFrom number (i + 1) formats),
    ),
  ),
)

module _ {R : Type 0} (reg : Registry R) where
  both : (a b : Bool) → (a && b) ≡ true → b ≡ true
  both true b h = h
  both false b h = absurd (ground (arith, h))

  -- The writes, behind the delete.
  module _ (k : ℕ) (fs : List StoredFormat) (u : R) where
    abbrev number : Bytes
    number = to_string (k + 1)

    abbrev writes : List (Bytes × Value)
    writes = (formats_size number, reg_dword (int_bits (length fs))) ∷ format_values number 1 fs

    abbrev after : R
    after = (write_all reg writes u).0

    behind_delete :
        length fs < 2 ^ 31
        → All HasTexts fs
        → (write_all reg writes u).1 ≡ true
        → (formats_count reg k after ≡ length fs)
          × (stored_from reg number after 1 (length fs) ≡ fs)
    unfolding formats_count read_int int_from write_all
    behind_delete few has_texts done =
        let size = reg_dword (int_bits (length fs)) in
        let found =
          write_all-first reg (formats_size number) size (format_values number 1 fs) u done
            (size_AwayFrom number 1 fs) in
        let same : int_bits (length fs) ≡ length fs = omega (arith, few) in
        (
          ap (λ v. size_of_int (int_from 0 v)) found
              ∙ ap size_of_int same
              ∙ size_of_small (length fs) few,
          stored_formats reg number 1 fs (write reg (formats_size number) size true u).0
              (omega (arith, few)) has_texts
              (write_all-others reg (formats_size number) size (format_values number 1 fs) u done),
        )

  -- Where cameraSetFormats is a success: the number of the formats of the camera is that of the formats that
  -- were set, and what is stored of each of them, its names, sizes and rates, is read again as it was set, if
  -- its texts are such that a read can give them back and their number is that of an int.
  pub set_stored_formats-stored :
      (i : ℕ) (formats : List StoredFormat) (s : R)
      → length formats < 2 ^ 31
      → All HasTexts formats
      → (set_stored_formats reg i formats s).1 ≡ true
      → let t = (set_stored_formats reg i formats s).0 in
        (formats_count reg i t ≡ length formats)
        × (stored_from reg (to_string (i + 1)) t 1 (length formats) ≡ formats)
  unfolding set_stored_formats
  set_stored_formats-stored i formats s small texts ok =
      elim (Bool-cases (leb (cameras_count reg s) i)) [
        | inl e ↦ absurd (ground (arith, rw (set_stored_formats, e) at ok))
        | inr e ↦
            rw (set_stored_formats, e)
              (behind_delete i formats
                (delete_key reg (camera_key (to_string (i + 1)) (codes "Formats\\")) true s).0 small
                texts (both _ _ (rw (set_stored_formats, e) at ok)))
      ]
