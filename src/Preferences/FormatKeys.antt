-- ===== src/Preferences/FormatKeys.antt =====
-- The keys of the first camera and of its formats, in windows/PlatformUtils/src/preferences.cpp.
use akvirtualcamera.Base.{
  ℕ, ◌+◌, ◌<◌, ◌≤◌, ◌≡◌, refl, true, List, [], ◌∷◌, ◌++◌, none, Bytes, length, arith, All, inl, inr,
  codes,
}
use akvirtualcamera.Registry.{Value}
use akvirtualcamera.Registry.Frame.{lengths_apart}
use akvirtualcamera.Preferences.{at_last, split_sub_key}
use akvirtualcamera.Preferences.Cameras.{camera_key, StoredFormat, formats_size, format_values}
use akvirtualcamera.Preferences.Values.{Away, split_sub_key-append}
use akvirtualcamera.Preferences.Keys.{camera_path}
use akvirtualcamera.Preferences.Writes.{AwayFrom}
use akvirtualcamera.Text.Decimal.{to_string, int_to_string, digits}

abbrev pub first_number : Bytes
first_number = codes "1"

-- The keys behind that of the first camera.
abbrev pub Long : Bytes → Type 0
Long key = length (camera_path first_number) < length (split_sub_key key).0

Long-Away :
    (key other : Bytes)
    → length (split_sub_key key).0 ≤ length (camera_path first_number)
    → Long other
    → Away true key true other
Long-Away key other short long = inr (inl (lengths_apart _ _ (λ e. absurd (omega (arith, e)))))

pub Long-AwayFrom :
    (key : Bytes) (writes : List (Bytes × Value))
    → length (split_sub_key key).0 ≤ length (camera_path first_number)
    → All (λ w. Long w.0) writes
    → AwayFrom key writes
Long-AwayFrom key [] short h = tt
Long-AwayFrom key ((other, v) ∷ writes) short h =
    (Long-Away key other short h.0, Long-AwayFrom key writes short h.1)

abbrev pub format_prefix : ℕ → Bytes
format_prefix i = camera_key first_number (codes "Formats\\" ++ to_string i)

format_key-Long : (i : ℕ) (name : Bytes) → at_last name ≡ none → Long (format_prefix i ++ 92 ∷ name)
format_key-Long i name e = rw (split_sub_key-append (format_prefix i) name e) (omega arith)

pub format_values-Long :
    (i : ℕ) (formats : List StoredFormat)
    → All (λ w. Long w.0) (format_values first_number i formats)
unfolding format_values at_last
format_values-Long i [] = tt
format_values-Long i (f ∷ formats) = (
  format_key-Long i (codes "format") refl,
  (
    format_key-Long i (codes "width") refl,
    (
      format_key-Long i (codes "height") refl,
      (format_key-Long i (codes "fps") refl, format_values-Long (i + 1) formats),
    ),
  ),
)

pub formats_size-Long : Long (formats_size first_number)
unfolding split_sub_key at_last
formats_size-Long = omega arith

pub number_one : (to_string 1 ≡ first_number) × (int_to_string 1 ≡ first_number)
unfolding to_string int_to_string digits
number_one = (refl, refl)
