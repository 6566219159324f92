-- ===== src/Preferences/CommonFormats.antt =====
-- The formats of a camera between a VideoFormat and what windows/PlatformUtils/src/preferences.cpp
-- stores: cameraFormat and cameraSetFormats with pixelFormatFromCommonString and
-- pixelFormatToCommonString of windows/PlatformUtils/src/utils.cpp.
use akvirtualcamera.Base.{
  ℕ, zero, suc, ◌+◌, ◌^◌, ◌≤◌, ◌<◌, ◌≡◌, refl, ap, ◌∙◌, Bool, true, false, List, [], ◌∷◌, Bytes,
  map, ◌==◌, ◌||◌, sym, subst, inl, inr, Bool-cases, ==_iff, if◌then◌else◌, str_eq, is_empty,
  length, codes, All, arith,
}
use akvirtualcamera.Base.Int.{ℤ}
use akvirtualcamera.Registry.{Registry}
use akvirtualcamera.Number.FractionText.{
  fraction, fraction_to_string, fraction_from_string, ReadsDigits,
  fraction_from_string-fraction_to_string,
}
use akvirtualcamera.Preferences.Cameras.{StoredFormat}
use akvirtualcamera.Preferences.Formats.{stored_format, formats_count, set_stored_formats}
use akvirtualcamera.Preferences.FormatTrip.{HasTexts, stored_from}
use akvirtualcamera.Preferences.SetFormats.{set_stored_formats-stored}
use akvirtualcamera.Text.Decimal.{to_string}
use akvirtualcamera.Video.PixelFormat
use akvirtualcamera.Video.Table.{c_string}
use akvirtualcamera.Video.Format.{VideoFormat, pixel_format_to_string, pixel_format_from_string}

-- A row of akvcamPixelFormatsTable: its format and its name.
pub record CommonFormat : Type 0 where
  pub pixel_format : ℕ
  pub name : Bytes

abbrev common : ℕ → Bytes → CommonFormat
common f n = record { pixel_format = f; name = n }

unfoldable pub common_formats : List CommonFormat
common_formats =
    common PixelFormat.bgrx (codes "RGB32")
    ∷ common PixelFormat.rgb24 (codes "RGB24")
    ∷ common PixelFormat.rgb565le (codes "RGB16")
    ∷ common PixelFormat.rgb555le (codes "RGB15")
    ∷ common PixelFormat.uyvy422 (codes "UYVY")
    ∷ common PixelFormat.yuyv422 (codes "YUY2")
    ∷ common PixelFormat.nv12 (codes "NV12")
    ∷ []

-- The terminator.
abbrev no_common : CommonFormat
no_common = common PixelFormat.unset []

-- `byPixelFormat` and `byName`.
unfoldable pub common_by_format : ℕ → List CommonFormat → CommonFormat
common_by_format f [] = no_common
common_by_format f (r ∷ rs) = if r.pixel_format == f then r else common_by_format f rs

unfoldable pub common_by_name : Bytes → List CommonFormat → CommonFormat
unfolding str_eq
common_by_name n [] = no_common
common_by_name n (r ∷ rs) = if str_eq r.name n then r else common_by_name n rs

unfoldable pub pixel_format_from_common_string : Bytes → ℕ
unfolding common_by_name common_formats c_string pixel_format_from_string
pixel_format_from_common_string n =
    let found = (common_by_name (c_string n) common_formats).pixel_format in
    if found == PixelFormat.unset then pixel_format_from_string n else found

unfoldable pub pixel_format_to_common_string : ℕ → Bytes
unfolding common_by_format common_formats pixel_format_to_string
pixel_format_to_common_string f =
    let name = (common_by_format f common_formats).name in
    if is_empty name then pixel_format_to_string f else name

-- What is written of a format.
unfoldable pub texts_of : VideoFormat → StoredFormat
unfolding pixel_format_to_common_string fraction_to_string
texts_of f = record {
  format = pixel_format_to_common_string f.format;
  width = f.width;
  height = f.height;
  fps = fraction_to_string f.fps;
}

-- What is made of what is read.
unfoldable pub format_of : (Bytes → ℤ) → StoredFormat → VideoFormat
unfolding pixel_format_from_common_string fraction_from_string
format_of strtol t = record {
  format = pixel_format_from_common_string t.format;
  width = t.width;
  height = t.height;
  fps = fraction_from_string strtol t.fps;
}

module _ {R : Type 0} (reg : Registry R) where
  unfoldable pub camera_set_formats : ℕ → List VideoFormat → R → R × Bool
  unfolding set_stored_formats texts_of
  camera_set_formats i formats s = set_stored_formats reg i (map texts_of formats) s

  unfoldable pub camera_format : (Bytes → ℤ) → ℕ → ℕ → R → VideoFormat
  unfolding stored_format format_of
  camera_format strtol camera i s =
      format_of strtol (stored_format reg (to_string (camera + 1)) (i + 1) s)

-- Whether a format has a row of its own.
abbrev pub has_row : ℕ → List CommonFormat → Bool
has_row f [] = false
has_row f (r ∷ rs) = r.pixel_format == f || has_row f rs

-- A format of the table whose rate is a fraction of two numbers that an int can hold.
pub record IsStorable (f : VideoFormat) : Type 0 where
  pub common_format : has_row f.format common_formats ≡ true
  pub num : ℕ
  pub den : ℕ
  pub rate : f.fps ≡ fraction num den
  pub small_num : num < 2 ^ 31
  pub some_den : 1 ≤ den
  pub small_den : den < 2 ^ 31

abbrev HasName : ℕ → Type 0
HasName f = pixel_format_from_common_string (pixel_format_to_common_string f) ≡ f

common_rows : All (λ (r : CommonFormat). HasName r.pixel_format) common_formats
unfolding common_formats pixel_format_from_common_string pixel_format_to_common_string
    common_by_name common_by_format c_string str_eq
common_rows = (refl, (refl, (refl, (refl, (refl, (refl, (refl, tt)))))))

row-HasName :
    (f : ℕ) (rs : List CommonFormat)
    → All (λ (r : CommonFormat). HasName r.pixel_format) rs
    → has_row f rs ≡ true
    → HasName f
row-HasName f [] h e = absurd (ground (arith, e))
row-HasName f (r ∷ rs) h e = elim (Bool-cases (r.pixel_format == f)) [
  | inl same ↦ subst HasName ((==_iff r.pixel_format f).0 same) h.0
  | inr other ↦ row-HasName f rs h.1 (ground (arith, e, other))
]

format_of-texts_of :
    (strtol : Bytes → ℤ) (f : VideoFormat)
    → ReadsDigits strtol
    → IsStorable f
    → format_of strtol (texts_of f) ≡ f
unfolding format_of texts_of
format_of-texts_of strtol f law storable =
    let name = row-HasName f.format common_formats common_rows storable.common_format in
    let n = storable.num in
    let d = storable.den in
    let rate : fraction_from_string strtol (fraction_to_string f.fps) ≡ f.fps =
      ap (λ r. fraction_from_string strtol (fraction_to_string r)) storable.rate
      ∙ fraction_from_string-fraction_to_string strtol n d law storable.small_num storable.some_den
          storable.small_den
      ∙ sym storable.rate in
    rw (name, rate) refl

formats_back :
    (strtol : Bytes → ℤ) (formats : List VideoFormat)
    → ReadsDigits strtol
    → All IsStorable formats
    → map (format_of strtol) (map texts_of formats) ≡ formats
formats_back strtol [] law h = refl
formats_back strtol (f ∷ formats) law h =
    rw (format_of-texts_of strtol f law h.0, formats_back strtol formats law h.1) refl

length-texts_of : (formats : List VideoFormat) → length (map texts_of formats) ≡ length formats
length-texts_of [] = refl
length-texts_of (f ∷ formats) = ap suc (length-texts_of formats)

module _ {R : Type 0} (reg : Registry R) (strtol : Bytes → ℤ) (camera : ℕ) where
  -- The formats of a camera that are read from a number on.
  abbrev pub formats_from : R → ℕ → ℕ → List VideoFormat
  formats_from s i zero = []
  formats_from s i (suc n) = camera_format reg strtol camera i s ∷ formats_from s (i + 1) n

  formats_from-stored_from :
      (s : R) (i n : ℕ)
      → formats_from s i n
        ≡ map (format_of strtol) (stored_from reg (to_string (camera + 1)) s (i + 1) n)
  unfolding camera_format
  formats_from-stored_from s i zero = refl
  formats_from-stored_from s i (suc n) =
      ap (◌∷◌ (camera_format reg strtol camera i s)) (formats_from-stored_from s (i + 1) n)

  -- Where cameraSetFormats is a success, the formats are of the table and their rates are fractions of
  -- two numbers that an int can hold, whose denominator is not 0, and the texts are such that a read
  -- can give them back: the number of the formats of the camera is that of the formats that were
  -- set, and cameraFormat reads each of them again as it was set, if `strtol` reads digits.
  pub camera_set_formats-stored :
      (formats : List VideoFormat) (s : R)
      → ReadsDigits strtol
      → length formats < 2 ^ 31
      → All IsStorable formats
      → All HasTexts (map texts_of formats)
      → (camera_set_formats reg camera formats s).1 ≡ true
      → let t = (camera_set_formats reg camera formats s).0 in
        (formats_count reg camera t ≡ length formats)
        × (formats_from t 0 (length formats) ≡ formats)
  unfolding camera_set_formats
  camera_set_formats-stored formats s law small storable texts ok =
      let number = to_string (camera + 1) in
      let t = (set_stored_formats reg camera (map texts_of formats) s).0 in
      let same = length-texts_of formats in
      let (count, stored) =
        set_stored_formats-stored reg camera (map texts_of formats) s (omega (arith, same)) texts
          ok in
      (
        count ∙ same,
        formats_from-stored_from t 0 (length formats)
            ∙ ap (λ n. map (format_of strtol) (stored_from reg number t 1 n)) (sym same)
            ∙ ap (map (format_of strtol)) stored
            ∙ formats_back strtol formats law storable,
      )
