-- ===== src/Video/Table.antt =====
-- The table of pixel formats of VCamUtils/src/videoformat.cpp.
pub mod Names
use akvirtualcamera.Base.{ℕ, List, [], ◌∷◌, Bytes, codes, ◌==◌, if◌then◌else◌, str_eq, map}
use akvirtualcamera.Video.PixelFormat
use akvirtualcamera.Video.Spec.{
  ComponentType, ct_r, ct_g, ct_b, ct_y, ct_u, ct_v, ct_a, ColorComponent, ColorPlane, color_plane,
  VideoFormatType, vft_unknown, vft_rgb, vft_yuv, endianness_le, endianness_be, endianness_bo,
  VideoFormatSpec,
}

abbrev component : ComponentType → ℕ → ℕ → ℕ → ℕ → ℕ → ℕ → ℕ → ColorComponent
component type step offset shift byte_depth depth width_div height_div = record {
  type = type;
  step = step;
  offset = offset;
  shift = shift;
  byte_depth = byte_depth;
  depth = depth;
  width_div = width_div;
  height_div = height_div;
}

-- A row of the table: a plane is its components and its bits.
pub record VideoFmt : Type 0 where
  pub format : ℕ
  pub name : Bytes
  pub type : VideoFormatType
  pub endianness : ℕ
  pub planes : List ColorPlane

abbrev row : ℕ → Bytes → VideoFormatType → ℕ → List ColorPlane → VideoFmt
row format name type endianness planes = record {
  format = format;
  name = name;
  type = type;
  endianness = endianness;
  planes = planes;
}

-- The rows before the terminator.
unfoldable pub formats : List VideoFmt
unfolding color_plane
formats =
    row PixelFormat.xrgb (codes "XRGB") vft_rgb endianness_bo (
      color_plane
        (component ct_r 4 1 0 1 8 0 0
          ∷ component ct_g 4 2 0 1 8 0 0
          ∷ component ct_b 4 3 0 1 8 0 0
          ∷ [])
        32
      ∷ [])
    ∷ row PixelFormat.rgb24 (codes "RGB24") vft_rgb endianness_bo (
        color_plane
          (component ct_r 3 0 0 1 8 0 0
            ∷ component ct_g 3 1 0 1 8 0 0
            ∷ component ct_b 3 2 0 1 8 0 0
            ∷ [])
          24
        ∷ [])
    ∷ row PixelFormat.rgb565be (codes "RGB565BE") vft_rgb endianness_be (
        color_plane
          (component ct_r 2 0 11 2 5 0 0
            ∷ component ct_g 2 0 5 2 6 0 0
            ∷ component ct_b 2 0 0 2 5 0 0
            ∷ [])
          16
        ∷ [])
    ∷ row PixelFormat.rgb565le (codes "RGB565LE") vft_rgb endianness_le (
        color_plane
          (component ct_r 2 0 11 2 5 0 0
            ∷ component ct_g 2 0 5 2 6 0 0
            ∷ component ct_b 2 0 0 2 5 0 0
            ∷ [])
          16
        ∷ [])
    ∷ row PixelFormat.rgb555be (codes "RGB555BE") vft_rgb endianness_be (
        color_plane
          (component ct_r 2 0 10 2 5 0 0
            ∷ component ct_g 2 0 5 2 5 0 0
            ∷ component ct_b 2 0 0 2 5 0 0
            ∷ [])
          16
        ∷ [])
    ∷ row PixelFormat.rgb555le (codes "RGB555LE") vft_rgb endianness_le (
        color_plane
          (component ct_r 2 0 10 2 5 0 0
            ∷ component ct_g 2 0 5 2 5 0 0
            ∷ component ct_b 2 0 0 2 5 0 0
            ∷ [])
          16
        ∷ [])
    ∷ row PixelFormat.argb (codes "ARGB") vft_rgb endianness_bo (
        color_plane
          (component ct_a 4 0 0 1 8 0 0
            ∷ component ct_r 4 1 0 1 8 0 0
            ∷ component ct_g 4 2 0 1 8 0 0
            ∷ component ct_b 4 3 0 1 8 0 0
            ∷ [])
          32
        ∷ [])
    ∷ row PixelFormat.bgrx (codes "BGRX") vft_rgb endianness_bo (
        color_plane
          (component ct_b 4 0 0 1 8 0 0
            ∷ component ct_g 4 1 0 1 8 0 0
            ∷ component ct_r 4 2 0 1 8 0 0
            ∷ [])
          32
        ∷ [])
    ∷ row PixelFormat.bgr24 (codes "BGR24") vft_rgb endianness_bo (
        color_plane
          (component ct_b 3 0 0 1 8 0 0
            ∷ component ct_g 3 1 0 1 8 0 0
            ∷ component ct_r 3 2 0 1 8 0 0
            ∷ [])
          24
        ∷ [])
    ∷ row PixelFormat.bgr565be (codes "BGR565BE") vft_rgb endianness_be (
        color_plane
          (component ct_b 2 0 11 2 5 0 0
            ∷ component ct_g 2 0 5 2 6 0 0
            ∷ component ct_r 2 0 0 2 5 0 0
            ∷ [])
          16
        ∷ [])
    ∷ row PixelFormat.bgr565le (codes "BGR565LE") vft_rgb endianness_le (
        color_plane
          (component ct_b 2 0 11 2 5 0 0
            ∷ component ct_g 2 0 5 2 6 0 0
            ∷ component ct_r 2 0 0 2 5 0 0
            ∷ [])
          16
        ∷ [])
    ∷ row PixelFormat.bgr555be (codes "BGR555BE") vft_rgb endianness_be (
        color_plane
          (component ct_b 2 0 10 2 5 0 0
            ∷ component ct_g 2 0 5 2 5 0 0
            ∷ component ct_r 2 0 0 2 5 0 0
            ∷ [])
          16
        ∷ [])
    ∷ row PixelFormat.bgr555le (codes "BGR555LE") vft_rgb endianness_le (
        color_plane
          (component ct_b 2 0 10 2 5 0 0
            ∷ component ct_g 2 0 5 2 5 0 0
            ∷ component ct_r 2 0 0 2 5 0 0
            ∷ [])
          16
        ∷ [])
    ∷ row PixelFormat.bgra (codes "BGRA") vft_rgb endianness_bo (
        color_plane
          (component ct_b 4 0 0 1 8 0 0
            ∷ component ct_g 4 1 0 1 8 0 0
            ∷ component ct_r 4 2 0 1 8 0 0
            ∷ component ct_a 4 3 0 1 8 0 0
            ∷ [])
          32
        ∷ [])
    ∷ row PixelFormat.uyvy422 (codes "UYVY") vft_yuv endianness_bo (
        color_plane
          (component ct_u 4 0 0 1 8 1 0
            ∷ component ct_y 2 1 0 1 8 0 0
            ∷ component ct_v 4 2 0 1 8 1 0
            ∷ [])
          16
        ∷ [])
    ∷ row PixelFormat.yuyv422 (codes "YUY2") vft_yuv endianness_bo (
        color_plane
          (component ct_y 2 0 0 1 8 0 0
            ∷ component ct_u 4 1 0 1 8 1 0
            ∷ component ct_v 4 3 0 1 8 1 0
            ∷ [])
          16
        ∷ [])
    ∷ row PixelFormat.nv12 (codes "NV12") vft_yuv endianness_bo (
        color_plane (component ct_y 1 0 0 1 8 0 0 ∷ []) 8
        ∷ color_plane (component ct_u 2 0 0 1 8 1 1 ∷ component ct_v 2 1 0 1 8 1 1 ∷ []) 8
        ∷ [])
    ∷ row PixelFormat.nv21 (codes "NV21") vft_yuv endianness_bo (
        color_plane (component ct_y 1 0 0 1 8 0 0 ∷ []) 8
        ∷ color_plane (component ct_v 2 0 0 1 8 1 1 ∷ component ct_u 2 1 0 1 8 1 1 ∷ []) 8
        ∷ [])
    ∷ []

-- The terminator of the table, where a search that finds nothing stops.
abbrev pub no_format : VideoFmt
no_format = row PixelFormat.unset (codes "none") vft_unknown endianness_bo []

unfoldable pub find_format : ℕ → List VideoFmt → VideoFmt
find_format f [] = no_format
find_format f (r ∷ rs) = if r.format == f then r else find_format f rs

unfoldable pub find_name : Bytes → List VideoFmt → VideoFmt
unfolding str_eq
find_name n [] = no_format
find_name n (r ∷ rs) = if str_eq r.name n then r else find_name n rs

unfoldable pub by_pixel_format : ℕ → VideoFmt
unfolding find_format formats
by_pixel_format f = find_format f formats

-- strcmp reads the string as far as its first NUL.
unfoldable pub c_string : Bytes → Bytes
c_string [] = []
c_string (b ∷ s) = if b == 0 then [] else b ∷ c_string s

unfoldable pub by_name : Bytes → VideoFmt
unfolding find_name formats c_string
by_name n = find_name (c_string n) formats

unfoldable pub all_pixel_formats : List ℕ
unfolding formats
all_pixel_formats = map (λ r. r.format) formats

-- `formatSpecs`: the terminator's type, byte order and planes are those of a default spec.
unfoldable pub format_specs : ℕ → VideoFormatSpec
unfolding by_pixel_format
format_specs f =
    let r = by_pixel_format f in
    record { type = r.type; endianness = r.endianness; planes = r.planes }
