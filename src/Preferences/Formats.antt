-- ===== src/Preferences/Formats.antt =====
-- The formats of a camera in windows/PlatformUtils/src/preferences.cpp, as they are stored.
use akvirtualcamera.Base.{
  ℕ, ◌+◌, ◌^◌, ◌<◌, ◌≡◌, ◌≢◌, refl, sym, ◌∙◌, Bool, true, false, ◌&&◌, List, [], ◌∷◌, ◌++◌, none,
  Bytes, leb, if◌then◌else◌, length, arith, inl, inr, codes,
}
use akvirtualcamera.Registry.{Registry, reg_dword, folded}
use akvirtualcamera.Preferences.{at_last, reg_prefix, read_string, read_int, delete_key}
use akvirtualcamera.Preferences.Cameras.{
  cameras_prefix, camera_key, StoredFormat, format_values, write_all, cameras_count, formats_size,
  int_bits,
}
use akvirtualcamera.Preferences.Values.{Away, split_sub_key-append}
use akvirtualcamera.Preferences.Keys.{folded_cancel, folded-digits}
use akvirtualcamera.Preferences.Writes.{AwayFrom}
use akvirtualcamera.Video.Format.{size_of_int}
use akvirtualcamera.Text.Decimal.{to_string, to_string-IsDigit, to_string_injective}

-- The key of a format of a camera, in the key of the cameras.
abbrev pub format_key : Bytes → ℕ → Bytes
format_key number i = camera_key number (codes "Formats\\" ++ to_string i)

abbrev pub field_key : Bytes → ℕ → Bytes → Bytes
field_key number i name = format_key number i ++ 92 ∷ name

module _ {R : Type 0} (reg : Registry R) where
  -- The texts and ints that cameraFormat reads.
  unfoldable pub stored_format : Bytes → ℕ → R → StoredFormat
  stored_format number i s = record {
    format = read_string reg (field_key number i (codes "format")) [] true s;
    width = read_int reg (field_key number i (codes "width")) 0 true s;
    height = read_int reg (field_key number i (codes "height")) 0 true s;
    fps = read_string reg (field_key number i (codes "fps")) [] true s;
  }

  unfoldable pub formats_count : ℕ → R → ℕ
  formats_count i s = size_of_int (read_int reg (formats_size (to_string (i + 1))) 0 true s)

  -- What cameraSetFormats writes, once the formats are texts and ints.
  unfoldable pub set_stored_formats : ℕ → List StoredFormat → R → R × Bool
  set_stored_formats i formats s =
      let number = to_string (i + 1) in
      let (t, deleted) = delete_key reg (camera_key number (codes "Formats\\")) true s in
      let (u, ok) =
        write_all reg
          ((formats_size number, reg_dword (int_bits (length formats)))
            ∷ format_values number 1 formats)
          t in
      if leb (cameras_count reg s) i then (s, false) else (u, deleted && ok)

-- The keys of two formats of a camera differ.
formats_apart :
    (number : Bytes) (i j : ℕ)
    → i < 10 ^ 20
    → j < 10 ^ 20
    → i ≢ j
    → folded (reg_prefix ++ 92 ∷ format_key number i)
      ≢ folded (reg_prefix ++ 92 ∷ format_key number j)
formats_apart number i j hi hj differ e =
    let mid = 92 ∷ codes "Formats\\" in
    let digits_alike : folded (to_string i) ≡ folded (to_string j) =
      folded_cancel mid (to_string i) (to_string j) (
        folded_cancel number (mid ++ to_string i) (mid ++ to_string j) (
          folded_cancel (reg_prefix ++ 92 ∷ cameras_prefix) (number ++ (mid ++ to_string i))
            (number ++ (mid ++ to_string j)) e)) in
    differ (
      to_string_injective i j hi hj (
        sym (folded-digits (to_string i) (to_string-IsDigit i))
        ∙ digits_alike
        ∙ folded-digits (to_string j) (to_string-IsDigit j)))

fields_Away :
    (number : Bytes) (i j : ℕ) (name other : Bytes)
    → i < 10 ^ 20
    → j < 10 ^ 20
    → i ≢ j
    → at_last name ≡ none
    → at_last other ≡ none
    → Away true (field_key number i name) true (field_key number j other)
fields_Away number i j name other hi hj differ e e' =
    rw
      (
        split_sub_key-append (format_key number i) name e,
        split_sub_key-append (format_key number j) other e',
      )
      (inr (inl (formats_apart number i j hi hj differ)))

pub names_Away :
    (number : Bytes) (i : ℕ) (name other : Bytes)
    → at_last name ≡ none
    → at_last other ≡ none
    → folded name ≢ folded other
    → Away true (field_key number i name) true (field_key number i other)
names_Away number i name other e e' differ =
    rw
      (
        split_sub_key-append (format_key number i) name e,
        split_sub_key-append (format_key number i) other e',
      )
      (inr (inr differ))

-- The values of later formats are apart from those of a format.
pub later_AwayFrom :
    (number name : Bytes) (i j : ℕ) (formats : List StoredFormat)
    → i < j
    → j + length formats < 10 ^ 20
    → at_last name ≡ none
    → AwayFrom (field_key number i name) (format_values number j formats)
unfolding format_values at_last
later_AwayFrom number name i j [] less small e = tt
later_AwayFrom number name i j (f ∷ formats) less small e =
    let apart = λ (other : Bytes) (e' : at_last other ≡ none).
      fields_Away number i j name other (omega arith) (omega arith) (omega arith) e e' in
    (
      apart (codes "format") refl,
      (
        apart (codes "width") refl,
        (
          apart (codes "height") refl,
          (
            apart (codes "fps") refl,
            later_AwayFrom number name i (j + 1) formats (omega arith) (omega arith) e,
          ),
        ),
      ),
    )
