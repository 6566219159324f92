-- ===== src/Color/Load.antt =====
-- `loadColorMatrix`, `loadAlphaMatrix` and `loadMatrix` of VCamUtils/src/colorconvert.cpp.
use akvirtualcamera.Base.{ℕ, if◌then◌else◌, Option, none, some}
use akvirtualcamera.Color.{
  ColorMatrix, abc2xyz, rgb2yuv, yuv2rgb, rgb2gray, gray2rgb, yuv2gray, gray2yuv, ColorConvert,
}
use akvirtualcamera.Color.Matrix.{
  load_abc2xyz_matrix, load_rgb2yuv_matrix, load_yuv2rgb_matrix, load_rgb2gray_matrix,
  load_gray2rgb_matrix, load_yuv2gray_matrix, load_gray2yuv_matrix, load_alpha_rgb_matrix,
  load_alpha_yuv_matrix, load_alpha_gray_matrix,
}
use akvirtualcamera.Video.Spec.{
  VideoFormatType, vft_rgb, vft_yuv, vft_gray, vft_unknown, VideoFormatSpec, component, contains,
  ComponentType, ct_r, ct_g, ct_b, ct_y, ct_u, ct_v, ct_a,
}
use akvirtualcamera.Video.Table.{format_specs}

-- The bits of the channels of a pixel.
pub record Bits : Type 0 where
  pub first : ℕ
  pub second : ℕ
  pub third : ℕ

unfoldable pub load_color_matrix : ColorMatrix → Bits → Bits → ColorConvert → ColorConvert
load_color_matrix abc2xyz i o m =
    load_abc2xyz_matrix i.first i.second i.third o.first o.second o.third m
load_color_matrix rgb2yuv i o m =
    load_rgb2yuv_matrix m.space m.swing i.first i.second i.third o.first o.second o.third m
load_color_matrix yuv2rgb i o m =
    load_yuv2rgb_matrix m.space m.swing i.first i.second i.third o.first o.second o.third m
load_color_matrix rgb2gray i o m = load_rgb2gray_matrix m.space i.first i.second i.third o.first m
load_color_matrix gray2rgb i o m = load_gray2rgb_matrix i.first o.first o.second o.third m
load_color_matrix yuv2gray i o m = load_yuv2gray_matrix m.swing i.first o.first m
load_color_matrix gray2yuv i o m = load_gray2yuv_matrix m.swing i.first o.first o.second o.third m

unfoldable pub load_alpha_matrix : VideoFormatType → ℕ → Bits → ColorConvert → ColorConvert
load_alpha_matrix vft_rgb alpha o m = load_alpha_rgb_matrix alpha m
load_alpha_matrix vft_yuv alpha o m = load_alpha_yuv_matrix m.swing alpha o.first o.second o.third m
load_alpha_matrix vft_gray alpha o m = load_alpha_gray_matrix alpha o.first m
load_alpha_matrix vft_unknown alpha o m = m

abbrev depth_of : VideoFormatSpec → ComponentType → ℕ
depth_of s t = (component s t).depth

-- The channels of a format, of the type given, in the order of the matrices.
unfoldable pub channel_bits : VideoFormatType → VideoFormatSpec → Bits
unfolding component
channel_bits vft_rgb s = record {
  first = depth_of s ct_r;
  second = depth_of s ct_g;
  third = depth_of s ct_b;
}
channel_bits vft_yuv s = record {
  first = depth_of s ct_y;
  second = depth_of s ct_u;
  third = depth_of s ct_v;
}
channel_bits vft_gray s = record {
  first = depth_of s ct_y;
  second = depth_of s ct_y;
  third = depth_of s ct_y;
}
channel_bits vft_unknown s = record { first = 0; second = 0; third = 0 }

abbrev pub no_bits : Bits
no_bits = record { first = 0; second = 0; third = 0 }

-- The tests of the chain of `if`s of `loadMatrix`; `none` is where none of them holds.
unfoldable pub matrix_of : VideoFormatType → VideoFormatType → Option ColorMatrix
matrix_of vft_rgb vft_rgb = some abc2xyz
matrix_of vft_rgb vft_yuv = some rgb2yuv
matrix_of vft_rgb vft_gray = some rgb2gray
matrix_of vft_yuv vft_rgb = some yuv2rgb
matrix_of vft_yuv vft_yuv = some abc2xyz
matrix_of vft_yuv vft_gray = some yuv2gray
matrix_of vft_gray vft_rgb = some gray2rgb
matrix_of vft_gray vft_yuv = some gray2yuv
matrix_of vft_gray vft_gray = some abc2xyz
matrix_of _ _ = none

-- The matrix and the bits of both sides.
abbrev pub chosen : Option ColorMatrix → Bits → Bits → ColorMatrix × Bits × Bits
chosen none i o = (abc2xyz, no_bits, no_bits)
chosen (some kind) i o = (kind, i, o)

unfoldable pub matrix_for : VideoFormatSpec → VideoFormatSpec → ColorMatrix × Bits × Bits
unfolding channel_bits matrix_of
matrix_for f t = chosen (matrix_of f.type t.type) (channel_bits f.type f) (channel_bits t.type t)

unfoldable pub load_matrix : VideoFormatSpec → VideoFormatSpec → ColorConvert → ColorConvert
unfolding matrix_for load_color_matrix load_alpha_matrix
load_matrix f t m =
    let (kind, i, o) = matrix_for f t in
    let loaded = load_color_matrix kind i o m in
    if contains f ct_a then load_alpha_matrix t.type (depth_of f ct_a) o loaded else loaded

-- The overload that takes two codes of the table.
unfoldable pub load_matrix_codes : ℕ → ℕ → ColorConvert → ColorConvert
load_matrix_codes f t m = load_matrix (format_specs f) (format_specs t) m
