-- ===== src/Convert/Boxes.antt =====
-- The boxes of a frame that is scaled down by VCamUtils/src/videoconverter.cpp.
use mathlib.Core.Option.{some-injective}
use native.Mathlib.Nat.{le-div_iff_mul-le}
use akvirtualcamera.Base.{
  ℕ, ◌+◌, ◌-◌, ◌*◌, ◌/◌, ◌≤◌, ◌<◌, ◌≡◌, ◌≢◌, some, arith, refl, ap, ◌∙◌, subst,
}
use akvirtualcamera.Base.Int.{ℤ, pos, ◌≤ℤ◌}
use akvirtualcamera.Number.Rect.{Rect, min_ℤ}
use akvirtualcamera.Convert.Geometry.{
  AspectRatioMode, ratio_ignore, ratio_keep, ratio_expanding, ratio_fit, resize_down, Area, area_of,
  Size, input_rect, drawn_size, output_size, resize_mode, cropped, read_area, Geometry, geometry,
  configure_geometry, checked_div,
}
use akvirtualcamera.Convert.Fits.{IsFitted, configure_geometry-IsFitted, configured, asked_size}
use akvirtualcamera.Convert.Tables.{
  Axis, columns, rows, dst_to_src, src_end_at, box_size, box_index, box_table_size,
}
use akvirtualcamera.Convert.Scaling.{configure_scaling}
use akvirtualcamera.Convert.Exact.{IsSide, SizeIsSmall, geometry_ints}
use akvirtualcamera.Convert.Exact.Whole.{IsSmall, scaling_of, frame_small}
use akvirtualcamera.Convert.Columns.{columns-AxisIsSmall, rows-AxisIsSmall}
use akvirtualcamera.Convert.Shrink.{box_size_lem}

-- The drawn part is no larger than the source.
abbrev Reduces : Size → Area → Type 0
Reduces o r = (o.across ≤ r.width) × (o.down ≤ r.height)

resize_mode-Reduces : (o : Size) (r : Area) → resize_mode o r ≡ resize_down → Reduces o r
unfolding resize_mode
resize_mode-Reduces o r e = ground arith

checked_div_lem : (a b v : ℕ) → checked_div a b ≡ some v → (1 ≤ b) × (v ≡ a / b)
checked_div_lem a b v e = ground arith

quotient_least : (n m k : ℕ) → 1 ≤ k → k ≤ m → n ≤ m * n / k
quotient_least n m k one less = (le-div_iff_mul-le {x = n} {y = m * n} one).1 (grind arith)

read_area-Reduces :
    (ratio : AspectRatioMode) (o : Size) (r read : Area)
    → Reduces o r
    → read_area ratio o r ≡ some read
    → Reduces o read
unfolding read_area cropped
read_area-Reduces ratio_ignore o r read fits e = ground arith
read_area-Reduces ratio_keep o r read fits e = ground arith
read_area-Reduces ratio_fit o r read fits e = ground arith
read_area-Reduces ratio_expanding o r read (across, down) e =
    ground (arith, quotient_least o.across r.height o.down, quotient_least o.down r.width o.across)

frame_is_drawn :
    (ratio : AspectRatioMode) (s o : Size) (r : Area)
    → ratio ≢ ratio_fit
    → drawn_size ratio s r ≡ some o
    → output_size ratio s o ≡ o
unfolding output_size drawn_size
frame_is_drawn ratio_keep s o r other e = refl
frame_is_drawn ratio_fit s o r other e = absurd (other refl)
frame_is_drawn ratio_ignore s o r other e = some-injective _ _ e
frame_is_drawn ratio_expanding s o r other e = some-injective _ _ e

-- A geometry that is scaled down, all of its frame drawn.
record IsReduced (g : Geometry) : Type 0 where
  reduces : Reduces g.drawn g.source
  whole : g.frame ≡ g.drawn

geometry-IsReduced :
    (ratio : AspectRatioMode) (s o : Size) (r read : Area)
    → ratio ≢ ratio_fit
    → drawn_size ratio s r ≡ some o
    → read_area ratio o r ≡ some read
    → resize_mode o r ≡ resize_down
    → IsReduced (geometry read (output_size ratio s o) o (resize_mode o r))
geometry-IsReduced ratio s o r read other drawn taken down = record {
  reduces = read_area-Reduces ratio o r read (resize_mode-Reduces o r down) taken;
  whole = frame_is_drawn ratio s o r other drawn;
}

configure_geometry-IsReduced :
    (iwidth iheight owidth oheight : ℕ) (asked : Rect) (ratio : AspectRatioMode) (g : Geometry)
    → configure_geometry iwidth iheight owidth oheight asked ratio ≡ some g
    → ratio ≢ ratio_fit
    → g.mode ≡ resize_down
    → IsReduced g
configure_geometry-IsReduced iwidth iheight owidth oheight asked ratio g e other down =
    let r = area_of (input_rect iwidth iheight asked) in
    let steps = configured iwidth iheight owidth oheight asked ratio g e in
    subst IsReduced steps.made (
      geometry-IsReduced ratio (asked_size owidth oheight r) steps.o r steps.read other steps.drawn
        steps.taken (ap (λ h. h.mode) steps.made ∙ down))

least_most : (v : ℤ) (n : ℕ) → min_ℤ v (pos n) ≤ℤ pos n
least_most v n = ground arith

-- The columns and the rows of such a geometry.
end_most : (a : Axis) (x : ℕ) → src_end_at a x ≤ℤ pos a.in_size
unfolding src_end_at
end_most a x = least_most (dst_to_src a (pos (x + 1))) a.in_size

columns-rows_boxes :
    (iwidth iheight : ℕ) (g : Geometry) (x y : ℕ)
    → IsFitted iwidth iheight g
    → IsSide iwidth × IsSide iheight
    → SizeIsSmall g.frame
    → Reduces g.drawn g.source
    → (g.xmin ≤ x) × (x < g.xmax)
    → (g.ymin ≤ y) × (y < g.ymax)
    → (pos 1 ≤ℤ box_size (columns iwidth g) (rows iheight g) x y)
      × (src_end_at (columns iwidth g) x ≤ℤ pos iwidth)
      × (src_end_at (rows iheight g) y ≤ℤ pos iheight)
unfolding columns rows
columns-rows_boxes iwidth iheight g x y fitted (side_x, side_y) frame (wide, high) (p, q) (r, s) =
    let at_x : g.xmin + (x - g.xmin) ≡ x = omega arith in
    let at_y : g.ymin + (y - g.ymin) ≡ y = omega arith in
    let c = columns iwidth g in
    let d = rows iheight g in
    let (reads_x, reads_y) = fitted.reads in
    let small_x = columns-AxisIsSmall iwidth iheight g side_x fitted frame in
    let small_y = rows-AxisIsSmall iwidth iheight g side_y fitted frame in
    let size =
      box_size_lem c d (x - g.xmin) (y - g.ymin) ((small_x, side_x), (wide, reads_x))
        ((small_y, side_y), (high, reads_y)) (omega (arith, fitted.across))
        (omega (arith, fitted.down)) in
    (
      subst (λ (v : ℕ). pos 1 ≤ℤ box_size c d v y) at_x
          (subst (λ (v : ℕ). pos 1 ≤ℤ box_size c d (g.xmin + (x - g.xmin)) v) at_y size),
      end_most c x,
      end_most d y,
    )

place : (w h x y : ℕ) → x < w → y < h → box_index w x y < box_table_size w h
unfolding box_index box_table_size
place w h x y p q = grind arith

inside_x : (g : Geometry) (w h x : ℕ) → IsFitted w h g → IsReduced g → x < g.frame.across → x < w
inside_x g w h x fitted reduced less =
    let same = ap (λ (s : Size). s.across) reduced.whole in
    omega (arith, same, reduced.reduces.0, fitted.reads.0)

inside_y : (g : Geometry) (w h y : ℕ) → IsFitted w h g → IsReduced g → y < g.frame.down → y < h
inside_y g w h y fitted reduced less =
    let same = ap (λ (s : Size). s.down) reduced.whole in
    omega (arith, same, reduced.reduces.1, fitted.reads.1)

-- In a frame that is scaled down and keeps no border (`Fit` may leave one), with sides of 32767 at most
-- and a rectangle that starts and ends less than 2 ^ 30 away from zero: each pixel that is drawn is
-- the mean of one source pixel at least, its box ends in the input frame, and the place of its number
-- of pixels is one of the table of those numbers.
pub boxes_in_frame :
    (iwidth iheight owidth oheight : ℕ) (asked : Rect) (ratio : AspectRatioMode) (g : Geometry)
    (x y : ℕ)
    → IsSmall iwidth iheight owidth oheight asked
    → configure_scaling (pos iwidth) (pos iheight) (pos owidth) (pos oheight) asked ratio
      ≡ some (geometry_ints g)
    → ratio ≢ ratio_fit
    → g.mode ≡ resize_down
    → x < g.frame.across
    → y < g.frame.down
    → (pos 1 ≤ℤ box_size (columns iwidth g) (rows iheight g) x y)
      × (src_end_at (columns iwidth g) x ≤ℤ pos iwidth)
      × (src_end_at (rows iheight g) y ≤ℤ pos iheight)
      × (box_index iwidth x y < box_table_size iwidth iheight)
boxes_in_frame iwidth iheight owidth oheight asked ratio g x y small e other down h k =
    let made = scaling_of iwidth iheight owidth oheight asked ratio g small e in
    let frame = frame_small iwidth iheight owidth oheight asked ratio g small made in
    let fitted = configure_geometry-IsFitted iwidth iheight owidth oheight asked ratio g made in
    let reduced =
      configure_geometry-IsReduced iwidth iheight owidth oheight asked ratio g made other down in
    let same_x = ap (λ (s : Size). s.across) reduced.whole in
    let same_y = ap (λ (s : Size). s.down) reduced.whole in
    let (boxes, ends_x, ends_y) =
      columns-rows_boxes iwidth iheight g x y fitted (small.in_across, small.in_down) frame
        reduced.reduces
        (
          omega (arith, fitted.across, fitted.right, same_x),
          omega (arith, fitted.across, fitted.right, same_x),
        )
        (
          omega (arith, fitted.down, fitted.bottom, same_y),
          omega (arith, fitted.down, fitted.bottom, same_y),
        ) in
    (
      boxes,
      ends_x,
      ends_y,
      place iwidth iheight x y (inside_x g iwidth iheight x fitted reduced h)
          (inside_y g iwidth iheight y fitted reduced k),
    )
