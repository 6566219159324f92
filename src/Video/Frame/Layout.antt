-- ===== src/Video/Frame/Layout.antt =====
-- The planes of a frame lie one behind the other in its buffer, and lines in their planes.
pub mod Planes
pub mod Lines
pub mod Supported
use akvirtualcamera.Base.{
  ℕ, suc, ◌+◌, ◌-◌, ◌*◌, ◌/◌, ◌%◌, ◌^◌, ◌≤◌, ◌<◌, ◌≡◌, refl, List, [], ◌∷◌, arith, length, All,
}
use akvirtualcamera.Number.Algorithm.{wrap64, align_up, align_up_32, align_up_32_bounds}
use akvirtualcamera.Video.Spec.{ColorPlane}
use akvirtualcamera.Video.Table.{format_specs}
use akvirtualcamera.Video.Format.{
  VideoFormat, size_of_int, bytes_used, line_size, plane_size, frame_align,
}
use akvirtualcamera.Video.Frame.{
  PlaneParams, plane_params, params_from, update_params, frame_size, line_offset,
}

-- A size that any camera has, and a plane of any supported format.
pub record IsModest (v : VideoFormat) : Type 0 where
  pub width_small : v.width < 2 ^ 16
  pub height_small : v.height < 2 ^ 16

module _ (v : VideoFormat) (h : IsModest v) (p : ColorPlane) (bits : p.bits_size ≤ 32) where
  bits_width : p.bits_size * v.width ≤ 2 ^ 21
  bits_width = grind (arith, h.width_small)

  pub bytes_used-exact : bytes_used v p ≡ p.bits_size * v.width / 8
  unfolding bytes_used size_of_int
  bytes_used-exact = ground (arith, bits_width, h.width_small)

  bytes_used-le : bytes_used v p ≤ 2 ^ 18
  bytes_used-le = omega (arith, bytes_used-exact, bits_width)

  pub line_size-bounds :
      (bytes_used v p ≤ line_size v p)
      × (line_size v p ≤ bytes_used v p + 31)
      × (line_size v p % 32 ≡ 0)
  unfolding line_size
  line_size-bounds = align_up_32_bounds (bytes_used v p) (omega (arith, bytes_used-le))

  lines-le : line_size v p * v.height ≤ 2 ^ 36
  lines-le = grind (arith, line_size-bounds, bytes_used-le, h.height_small)

  -- The bytes of the lines of the plane, before they are rounded up.
  abbrev pub lines_bytes : ℕ
  lines_bytes = line_size v p * v.height / 2 ^ p.height_div

  lines_bytes-le : lines_bytes ≤ 2 ^ 36
  lines_bytes-le = omega (arith, lines-le)

  plane_size-align : plane_size v p ≡ align_up lines_bytes 32
  unfolding plane_size size_of_int
  plane_size-align = ground (arith, lines-le, h.height_small)

  pub plane_size-bounds :
      (lines_bytes ≤ plane_size v p)
      × (plane_size v p ≤ lines_bytes + 31)
      × (plane_size v p % 32 ≡ 0)
  plane_size-bounds =
      rw plane_size-align (align_up_32_bounds lines_bytes (omega (arith, lines_bytes-le)))

  pub plane_size-le : plane_size v p ≤ 2 ^ 37
  plane_size-le = omega (arith, plane_size-bounds, lines_bytes-le)
