-- ===== src/Examples/Conversions.antt =====
-- The theorems on the geometry and the tables of a conversion at concrete sizes.
use akvirtualcamera.Base.{
  ℕ, ◌+◌, ◌-◌, ◌^◌, ◌*◌, ◌/◌, ◌≤◌, ◌<◌, ◌≡◌, ◌≢◌, ◌↔◌, refl, arith, inl, some,
}
use akvirtualcamera.Base.Int.{pos, ◌≤ℤ◌, ◌+ℤ◌, ◌-ℤ◌, ◌*ℤ◌, div_ℤ, wrap_int}
use akvirtualcamera.Number.Rect.{
  rect, default_rect, rect_is_empty, intersected, HasCorners, IsIn, intersected-IsIn,
}
use akvirtualcamera.Convert.Geometry.{
  ratio_keep, ratio_fit, resize_down, area, size, Geometry, geometry,
}
use akvirtualcamera.Convert.Scaling.{
  input_area, cut_size, ratio_size, scaled_size, frame_size_of, scaled_mode, source_area, Scaling,
  configure_scaling,
}
use akvirtualcamera.Convert.Exact.{geometry_ints}
use akvirtualcamera.Convert.Exact.Whole.{IsSmall, configure_scaling-IsFitted}
use akvirtualcamera.Convert.Defined.{configure_scaling-some}
use akvirtualcamera.Convert.Tables.{
  Axis, columns, rows, src_at, src_end_at, box_size, box_index, box_table_size, scale_emult,
  blend_weight,
}
use akvirtualcamera.Convert.Fits.{IsFitted}
use akvirtualcamera.Convert.Columns.{AxisIsSmall, src_at-ends}
use akvirtualcamera.Convert.Boxes.{boxes_in_frame}
use akvirtualcamera.Convert.Blend.{blend, blend-between}
use akvirtualcamera.Convert.Weights.{blend-gain}
use akvirtualcamera.Convert.Integral.{Cells, allocate_image, integral_image1, sample, read_dl1}
use akvirtualcamera.Convert.Integral.Means.{box_total, read_dl1_lem}

ten_corners : HasCorners (rect (pos 0) (pos 0) (pos 10) (pos 10))
unfolding ◌+ℤ◌
ten_corners = ((omega arith, omega arith), (omega arith, omega arith))

four_corners : HasCorners (rect (pos 4) (pos 4) (pos 20) (pos 3))
unfolding ◌+ℤ◌
four_corners = ((omega arith, omega arith), (omega arith, omega arith))

-- Far away an int wraps around: (5, 6) is in both, and not in the intersection.
wrapped_around :
    intersected
      (rect (pos 1) (pos 1) (pos (2 ^ 31 - 1)) (pos (2 ^ 31 - 1)))
      (rect (pos 0) (pos 0) (pos 10) (pos 10))
    ≡ rect (pos 1) (pos 1) (pos (2 ^ 31 - 1)) (pos (2 ^ 31 - 1))
unfolding intersected wrap_int ◌+ℤ◌ ◌-ℤ◌
wrapped_around = refl

intersected-IsIn_example :
    IsIn
      (pos 5)
      (pos 6)
      (intersected (rect (pos 0) (pos 0) (pos 10) (pos 10)) (rect (pos 4) (pos 4) (pos 20) (pos 3)))
    ↔ (IsIn (pos 5) (pos 6) (rect (pos 0) (pos 0) (pos 10) (pos 10))
        × IsIn (pos 5) (pos 6) (rect (pos 4) (pos 4) (pos 20) (pos 3)))
intersected-IsIn_example =
    intersected-IsIn (rect (pos 0) (pos 0) (pos 10) (pos 10))
      (rect (pos 4) (pos 4) (pos 20) (pos 3)) (pos 5) (pos 6) ten_corners four_corners

-- 640 by 480 to 320 by 200, the ratio kept: 266 by 200.
abbrev small : Geometry
small = geometry (area 0 0 640 480) (size 266 200) (size 266 200) resize_down

small_made :
    configure_scaling (pos 640) (pos 480) (pos 320) (pos 200) default_rect ratio_keep
    ≡ some (geometry_ints small)
unfolding configure_scaling input_area rect_is_empty scaled_size ratio_size cut_size frame_size_of
    scaled_mode source_area wrap_int ◌+ℤ◌ ◌-ℤ◌ ◌*ℤ◌ div_ℤ
small_made = refl

no_corners : HasCorners default_rect
unfolding ◌+ℤ◌
no_corners = ((omega arith, omega arith), (omega arith, omega arith))

few_pixels : IsSmall 640 480 320 200 default_rect
few_pixels = record {
  in_across = omega arith;
  in_down = omega arith;
  out_across = omega arith;
  out_down = omega arith;
  corners = no_corners;
}

configure_scaling-IsFitted_example :
    (g : Geometry) × (geometry_ints small ≡ geometry_ints g) × IsFitted 640 480 g
configure_scaling-IsFitted_example =
    configure_scaling-IsFitted 640 480 320 200 default_rect ratio_keep (geometry_ints small)
      few_pixels small_made

configure_scaling-some_example :
    (s : Scaling) × (configure_scaling
        (pos 640)
        (pos 480)
        (pos 320)
        (pos 200)
        default_rect
        ratio_keep
      ≡ some s)
unfolding input_area rect_is_empty
configure_scaling-some_example =
    configure_scaling-some (pos 640) (pos 480) (pos 320) (pos 200) default_rect ratio_keep
      (omega arith) (omega arith)

kept_is_not_fit : ratio_keep ≢ ratio_fit
kept_is_not_fit e = cc

boxes_in_frame_example :
    (pos 1 ≤ℤ box_size (columns 640 small) (rows 480 small) 265 199)
    × (src_end_at (columns 640 small) 265 ≤ℤ pos 640)
    × (src_end_at (rows 480 small) 199 ≤ℤ pos 480)
    × (box_index 640 265 199 < box_table_size 640 480)
boxes_in_frame_example =
    boxes_in_frame 640 480 320 200 default_rect ratio_keep small 265 199 few_pixels small_made
      kept_is_not_fit refl (omega arith) (omega arith)

-- 1000 by 100, fitted into 500 by 200 with borders: the line 150 of `kdl` lies behind its end.
abbrev bordered : Geometry
bordered = geometry (area 0 0 1000 100) (size 500 200) (size 500 50) resize_down

bordered_made :
    configure_scaling (pos 1000) (pos 100) (pos 500) (pos 200) default_rect ratio_fit
    ≡ some (geometry_ints bordered)
unfolding configure_scaling input_area rect_is_empty scaled_size ratio_size cut_size frame_size_of
    scaled_mode source_area wrap_int ◌+ℤ◌ ◌-ℤ◌ ◌*ℤ◌ div_ℤ
bordered_made = refl

bordered_outside : box_table_size 1000 100 ≤ box_index 1000 0 150
unfolding box_index box_table_size
bordered_outside = omega arith

-- Four columns of a source of three.
abbrev stretched : Axis
stretched = record { first = 10; extent = 3; start = 2; drawn = 4; out_size = 8; in_size = 20 }

stretched_small : AxisIsSmall stretched
stretched_small = (omega arith, omega arith)

src_at-ends_example :
    (src_at stretched 2 ≡ pos 10)
    × (src_at stretched (2 + 3) ≡ pos (10 + 2))
    × (src_at stretched (2 + 1) ≤ℤ src_at stretched (2 + 2))
src_at-ends_example =
    src_at-ends stretched 1 2 (omega arith) (omega arith) (omega arith) stretched_small
      (omega arith)

blend-between_example :
    let v = blend 8 (pos 10) (pos 200) (pos 90) (pos 256) (pos 3) in (pos 10 ≤ℤ v) × (v ≤ℤ pos 200)
blend-between_example =
    blend-between 8 10 200 90 256 3 10 200 (omega arith) (omega arith)
      (omega arith, omega arith, omega arith) (omega arith, omega arith, omega arith)

blend-gain_example :
    blend scale_emult
      (pos 0)
      (pos 255)
      (pos 255)
      (blend_weight stretched (2 + 1))
      (blend_weight stretched (2 + 2))
    ≤ℤ pos (0 + 255 / 32)
blend-gain_example =
    blend-gain stretched stretched 1 2 0 255 255 255 stretched_small stretched_small (omega arith)
      (omega arith) (omega arith) (omega arith)

-- A frame of eight lines, and cells that held ones.
abbrev checkered : ℕ → ℕ → ℕ
checkered y x = 7 * y + x

abbrev dirty : Cells
dirty i = 1

read_dl1_lem_example :
    read_dl1 8
      (integral_image1 8 8 0 255 checkered (allocate_image 8 8 dirty))
      1
      2
      (1 + 3)
      (2 + 2)
      6
    ≡ box_total (λ y x. sample 0 255 (checkered y x)) 1 2 3 2 / 6
read_dl1_lem_example =
    read_dl1_lem 8 8 0 255 checkered dirty 1 2 3 2 6 (omega arith) (inl (omega arith)) (omega arith)
      (omega arith)
