-- ===== src/Convert/Tables.antt =====
-- The tables that `FrameConvertParameters::configureScaling` of VCamUtils/src/videoconverter.cpp fills,
-- as functions of their index. The same formulas serve columns and rows. Sums and products of ints wrap
-- around; the numbers of an axis are not negative.
use akvirtualcamera.Base.{ℕ, ◌+◌, ◌-◌, ◌*◌, min, max, if◌then◌else◌}
use akvirtualcamera.Base.Int.{ℤ, pos, ◌*ℤ◌, div_ℤ, ltb_ℤ}
use akvirtualcamera.Number.Rect.{min_ℤ}
use akvirtualcamera.Video.Spec.{ColorComponent}
use akvirtualcamera.Color.{shift_right}
use akvirtualcamera.Convert.Scaling.{int_add, int_sub, int_mul}
use akvirtualcamera.Convert.Geometry.{Geometry, ResizeMode, resize_down}

-- One direction: where the source starts and its size, where the drawing starts and its size, the size
-- of the output frame, and that of the input's.
pub record Axis : Type 0 where
  pub first : ℕ
  pub extent : ℕ
  pub start : ℕ
  pub drawn : ℕ
  pub out_size : ℕ
  pub in_size : ℕ

unfoldable pub columns : ℕ → Geometry → Axis
columns iwidth g = record {
  first = g.source.left;
  extent = g.source.width;
  start = g.xmin;
  drawn = g.drawn.across;
  out_size = g.frame.across;
  in_size = iwidth;
}

unfoldable pub rows : ℕ → Geometry → Axis
rows iheight g = record {
  first = g.source.upper;
  extent = g.source.height;
  start = g.ymin;
  drawn = g.drawn.down;
  out_size = g.frame.down;
  in_size = iheight;
}

-- `wi_1` and `wo_1`.
abbrev pub in_steps : Axis → ℕ
in_steps a = max 1 (a.extent - 1)

abbrev pub out_steps : Axis → ℕ
out_steps a = max 1 (a.drawn - 1)

-- `xSrcToDst` and `xDstToSrc`.
unfoldable pub src_to_dst : Axis → ℤ → ℤ
src_to_dst a x =
    div_ℤ
      (int_add (int_mul (int_sub x (pos a.first)) (pos (out_steps a)))
        (int_mul (pos a.start) (pos (in_steps a))))
      (pos (in_steps a))

unfoldable pub dst_to_src : Axis → ℤ → ℤ
dst_to_src a x =
    div_ℤ
      (int_add (int_mul (int_sub x (pos a.start)) (pos (in_steps a)))
        (int_mul (pos a.first) (pos (out_steps a))))
      (pos (out_steps a))

-- `srcWidth`, and `srcHeight` in each mode.
unfoldable pub src_at : Axis → ℕ → ℤ
unfolding dst_to_src
src_at a x = dst_to_src a (pos x)

-- `srcWidth_1`, and `srcHeight_1` where the frame is scaled down: the end of the part that is read.
unfoldable pub src_end_at : Axis → ℕ → ℤ
unfolding dst_to_src
src_end_at a x = min_ℤ (dst_to_src a (pos (x + 1))) (pos a.in_size)

-- `xs_1`, and `srcHeight_1` elsewhere: the neighbour of the last column or row is itself.
unfoldable pub src_next_at : Axis → ℕ → ℤ
unfolding dst_to_src
src_next_at a x = dst_to_src a (pos (min (x + 1) (a.out_size - 1)))

unfoldable pub src_height_1 : ResizeMode → Axis → ℕ → ℤ
unfolding src_end_at src_next_at
src_height_1 resize_down a y = src_end_at a y
src_height_1 _ a y = src_next_at a y

abbrev pub scale_emult : ℕ
scale_emult = 8

-- `kx` and `ky`.
unfoldable pub blend_weight : Axis → ℕ → ℤ
unfolding src_at src_to_dst
blend_weight a x =
    let xs = src_at a x in
    let low = src_to_dst a xs in
    let high = src_to_dst a (int_add xs (pos 1)) in
    if ltb_ℤ low high
    then div_ℤ (int_mul (pos scale_emult) (int_sub (pos x) low)) (int_sub high low)
    else pos 0

-- `srcWidthOffset*`, `dstWidthOffset*` and `dlSrcWidthOffset*`: where a component stands in a line.
unfoldable pub width_offset : ColorComponent → ℤ → ℤ
unfolding shift_right
width_offset c x = shift_right x c.width_div *ℤ pos c.step

-- `kdl`: how many source pixels one of the output takes in.
unfoldable pub box_size : Axis → Axis → ℕ → ℕ → ℤ
unfolding src_at src_end_at
box_size across down x y =
    int_mul (int_sub (src_end_at across x) (src_at across x))
      (int_sub (src_end_at down y) (src_at down y))

-- Where `kdl` keeps it, and the length of that table.
unfoldable pub box_index : ℕ → ℕ → ℕ → ℕ
box_index iwidth x y = y * iwidth + x

unfoldable pub box_table_size : ℕ → ℕ → ℕ
box_table_size iwidth iheight = iwidth * iheight
