-- ===== src/Video/Format.antt =====
-- VCamUtils/src/videoformat.cpp: the class VideoFormat. `width` and `height` are the 32-bit patterns
-- of its two ints.
use akvirtualcamera.Base.{
  ℕ, ◌+◌, ◌-◌, ◌*◌, ◌/◌, ◌^◌, Bool, not, ◌&&◌, List, [], ◌∷◌, Bytes, ltb, ◌==◌, if◌then◌else◌,
}
use akvirtualcamera.Base.Int.{ℤ, pos, negsuc, leb_ℤ, ltb_ℤ}
use akvirtualcamera.Number.Algorithm.{wrap64, align_up}
use akvirtualcamera.Number.Fraction.{Fraction, default_fraction, fraction_eq}
use akvirtualcamera.Video.PixelFormat
use akvirtualcamera.Video.Spec.{ColorPlane, bpp}
use akvirtualcamera.Video.Table.{format_specs, by_pixel_format, by_name}

-- An int, from its bits.
abbrev pub int_of : ℕ → ℤ
int_of w = if ltb w (2 ^ 31) then pos w else negsuc (2 ^ 32 - w - 1)

-- size_t(x) for an int x: sign extension to 64 bits.
unfoldable pub size_of_int : ℕ → ℕ
size_of_int w = if ltb w (2 ^ 31) then w else w + (2 ^ 64 - 2 ^ 32)

pub record VideoFormat : Type 0 where
  pub format : ℕ
  pub width : ℕ
  pub height : ℕ
  pub fps : Fraction

-- VideoFormat(format, width, height).
abbrev pub video_format : ℕ → ℕ → ℕ → VideoFormat
video_format f w h = record { format = f; width = w; height = h; fps = default_fraction }

-- VideoFormat().
abbrev pub default_format : VideoFormat
default_format = video_format PixelFormat.unset 0 0

unfoldable pub format_eq : VideoFormat → VideoFormat → Bool
unfolding fraction_eq
format_eq a b =
    a.format == b.format
    && (a.width == b.width && (a.height == b.height && fraction_eq a.fps b.fps))

unfoldable pub is_same_format : VideoFormat → VideoFormat → Bool
is_same_format a b = a.format == b.format && (a.width == b.width && a.height == b.height)

-- operator bool.
unfoldable pub to_bool : VideoFormat → Bool
to_bool v =
    not (v.format == PixelFormat.unset)
    && (ltb_ℤ (pos 0) (int_of v.width) && ltb_ℤ (pos 0) (int_of v.height))

-- `isValid`; a PixelFormat is unsigned, so its first test never fails.
unfoldable pub is_valid : VideoFormat → Bool
is_valid v =
    not (ltb v.format PixelFormat.unset)
    && (leb_ℤ (pos 1) (int_of v.width)
        && (leb_ℤ (pos 1) (int_of v.height)
            && (leb_ℤ (pos 1) v.fps.num && leb_ℤ (pos 1) v.fps.den)))

abbrev pub frame_align : ℕ
frame_align = 32

unfoldable pub bytes_used : VideoFormat → ColorPlane → ℕ
unfolding size_of_int
bytes_used v p = wrap64 (p.bits_size * size_of_int v.width) / 8

unfoldable pub line_size : VideoFormat → ColorPlane → ℕ
unfolding bytes_used
line_size v p = align_up (bytes_used v p) frame_align

unfoldable pub plane_size : VideoFormat → ColorPlane → ℕ
unfolding line_size
plane_size v p =
    align_up (wrap64 (line_size v p * size_of_int v.height) / 2 ^ p.height_div) frame_align

-- The loop of `dataSize`.
unfoldable pub data_size_from : VideoFormat → ℕ → List ColorPlane → ℕ
unfolding plane_size
data_size_from v total [] = total
data_size_from v total (p ∷ ps) = data_size_from v (wrap64 (total + plane_size v p)) ps

unfoldable pub data_size : VideoFormat → ℕ
unfolding data_size_from format_specs
data_size v = align_up (data_size_from v 0 (format_specs v.format).planes) frame_align

unfoldable pub bits_per_pixel : ℕ → ℕ
unfolding bpp format_specs
bits_per_pixel f = bpp (format_specs f)

unfoldable pub pixel_format_to_string : ℕ → Bytes
unfolding by_pixel_format
pixel_format_to_string f = (by_pixel_format f).name

unfoldable pub pixel_format_from_string : Bytes → ℕ
unfolding by_name
pixel_format_from_string n = (by_name n).format
