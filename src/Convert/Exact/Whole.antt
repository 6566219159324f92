-- ===== src/Convert/Exact/Whole.antt =====
-- `configureScaling` of VCamUtils/src/videoconverter.cpp, where its ints do not wrap around: the result
-- is that of the reference.
use mathlib.Core.Option
use mathlib.Core.Option.{some-injective}
use akvirtualcamera.Base.{
  ℕ, ◌^◌, ◌<◌, ◌≡◌, ◌||◌, Option, none, some, ◌>>=◌, arith, refl, ap, ◌∙◌, sym, subst, Bool, true,
  false, if◌then◌else◌,
}
use akvirtualcamera.Base.Int.{ℤ, pos, ◌+ℤ◌, ◌-ℤ◌, leb_ℤ, pos_part, magnitude}
use akvirtualcamera.Number.Rect.{
  Rect, rect, default_rect, rect_is_empty, intersected-exact, common_rect, HasCorners, min_ℤ, max_ℤ,
}
use akvirtualcamera.Color.Depth.{plus_pos}
use akvirtualcamera.Convert.Geometry.{
  AspectRatioMode, Area, area_of, input_rect, Size, size, size_or, drawn_size, output_size,
  resize_mode, read_area, Geometry, geometry, configure_geometry,
}
use akvirtualcamera.Convert.Scaling.{
  input_area, int_or, scaled_size, frame_size_of, scaled_mode, source_area, Scaling, scaling,
  configure_scaling,
}
use akvirtualcamera.Convert.Fits.{
  drawn_size-SizeFits, input_rect-AreaFits, IsFitted, configure_geometry-IsFitted, configured,
  asked_size,
}
use akvirtualcamera.Convert.Exact.{
  size_ints, area_ints, geometry_ints, IsSide, SizeIsSmall, AreaIsSmall, bind_map, scaled_size-ints,
  frame_size_of-ints, scaled_mode-ints, source_area-ints, drawn_size-most, output_size-most,
  scaling-ints,
}

kept_start : (v : ℤ) → pos (pos_part (max_ℤ (pos 0) v)) ≡ max_ℤ (pos 0) v
kept_start v = ground arith

kept_length : (v : ℤ) → leb_ℤ v (pos 0) ≡ false → pos (pos_part v) ≡ v
kept_length v h = ground arith

choice_kept :
    (c d : Bool) (x y w h : ℤ)
    → pos (pos_part x) ≡ x
    → pos (pos_part y) ≡ y
    → (c ≡ false → pos (pos_part w) ≡ w)
    → (d ≡ false → pos (pos_part h) ≡ h)
    → let r = if c || d then default_rect else rect x y w h in area_ints (area_of r) ≡ r
choice_kept true d x y w h e f g k = refl
choice_kept false true x y w h e f g k = refl
choice_kept false false x y w h e f g k = rw (e, f, g refl, k refl) refl

common_rect-kept :
    (w h : ℕ) (asked : Rect)
    → let r = common_rect (rect (pos 0) (pos 0) (pos w) (pos h)) asked in area_ints (area_of r) ≡ r
unfolding common_rect
common_rect-kept w h asked =
    let width = min_ℤ (pos 0 +ℤ pos w) (asked.x +ℤ asked.width) -ℤ max_ℤ (pos 0) asked.x in
    let height = min_ℤ (pos 0 +ℤ pos h) (asked.y +ℤ asked.height) -ℤ max_ℤ (pos 0) asked.y in
    choice_kept (leb_ℤ width (pos 0)) (leb_ℤ height (pos 0)) (max_ℤ (pos 0) asked.x)
      (max_ℤ (pos 0) asked.y) width height (kept_start asked.x) (kept_start asked.y)
      (kept_length width) (kept_length height)

side_corner : (n : ℕ) → IsSide n → magnitude (pos 0 +ℤ pos n) < 2 ^ 30
side_corner n h = rw (plus_pos 0 n) (omega arith)

input_area-ints :
    (w h : ℕ) (asked : Rect)
    → IsSide w
    → IsSide h
    → HasCorners asked
    → input_area (pos w) (pos h) asked ≡ area_ints (area_of (input_rect w h asked))
unfolding input_area input_rect
input_area-ints w h asked p q corners =
    let whole = rect (pos 0) (pos 0) (pos w) (pos h) in
    rw
      (intersected-exact whole asked
        ((omega arith, side_corner w p), (omega arith, side_corner h q)) corners)
      (elim (rect_is_empty asked)
        as (λ (b : Bool).
          (if b then whole else common_rect whole asked)
          ≡ area_ints (area_of (if b then whole else common_rect whole asked))) [
            | true ↦ refl
            | false ↦ sym (common_rect-kept w h asked)
          ])

int_or-pos : (asked own : ℕ) → int_or (pos asked) (pos own) ≡ pos (size_or asked own)
int_or-pos asked own = ground arith

-- The sizes of a conversion and the rectangle that is asked, so small that no int wraps around: sides
-- of 32767 at most, and a rectangle that starts and ends less than 2 ^ 30 away from zero.
pub record IsSmall (iwidth iheight owidth oheight : ℕ) (asked : Rect) : Type 0 where
  pub in_across : IsSide iwidth
  pub in_down : IsSide iheight
  pub out_across : IsSide owidth
  pub out_down : IsSide oheight
  pub corners : HasCorners asked

steps-ints :
    (ratio : AspectRatioMode) (s : Size) (r : Area)
    → SizeIsSmall s
    → AreaIsSmall r
    → (scaled_size ratio (size_ints s) (area_ints r) >>= λ o.
        source_area ratio o (area_ints r) >>= λ read.
        some (scaling read (frame_size_of ratio (size_ints s) o) o (scaled_mode o (area_ints r))))
      ≡ Option.map geometry_ints (
          drawn_size ratio s r >>= λ o. read_area ratio o r >>= λ read.
          some (geometry read (output_size ratio s o) o (resize_mode o r)))
steps-ints ratio s r (p, q) small = rw (scaled_size-ints ratio s r (p, q) small) (
    bind_map (drawn_size ratio s r) size_ints _ _ geometry_ints (λ o e.
      let (t, u) = drawn_size-most ratio s r o e in
      rw (source_area-ints ratio o r (omega arith, omega arith) small) (
        bind_map (read_area ratio o r) area_ints _ _ geometry_ints (λ read f.
          let (x, y) = output_size-most ratio s o (t, u) in
          rw (frame_size_of-ints ratio s o, scaled_mode-ints o r)
            (ap some (
              scaling-ints read (output_size ratio s o) o (resize_mode o r)
                (omega arith, omega arith) (drawn_size-SizeFits ratio s r o e)))))))

pub configure_scaling-exact :
    (iwidth iheight owidth oheight : ℕ) (asked : Rect) (ratio : AspectRatioMode)
    → IsSmall iwidth iheight owidth oheight asked
    → configure_scaling (pos iwidth) (pos iheight) (pos owidth) (pos oheight) asked ratio
      ≡ Option.map geometry_ints (configure_geometry iwidth iheight owidth oheight asked ratio)
unfolding configure_scaling configure_geometry
configure_scaling-exact iwidth iheight owidth oheight asked ratio small =
    let r = area_of (input_rect iwidth iheight asked) in
    let (across, down) = input_rect-AreaFits iwidth iheight asked in
    let ia = small.in_across in
    let id = small.in_down in
    let oa = small.out_across in
    let od = small.out_down in
    rw
      (
        input_area-ints iwidth iheight asked ia id small.corners,
        int_or-pos owidth r.width,
        int_or-pos oheight r.height,
      )
      (steps-ints ratio (size (size_or owidth r.width) (size_or oheight r.height)) r
        (ground arith, ground arith) (omega arith, omega arith))

exact_result :
    (o : Option Geometry) (s : Scaling)
    → Option.map geometry_ints o ≡ some s
    → (g : Geometry) × (o ≡ some g) × (s ≡ geometry_ints g)
exact_result none s e = absurd (cc)
exact_result (some g) s e = (g, refl, sym (some-injective _ _ e))

-- A conversion of such sizes that is configured is the one of the reference.
pub scaling_made :
    (iwidth iheight owidth oheight : ℕ) (asked : Rect) (ratio : AspectRatioMode) (s : Scaling)
    → IsSmall iwidth iheight owidth oheight asked
    → configure_scaling (pos iwidth) (pos iheight) (pos owidth) (pos oheight) asked ratio ≡ some s
    → (g : Geometry) × (configure_geometry iwidth iheight owidth oheight asked ratio ≡ some g)
      × (s ≡ geometry_ints g)
scaling_made iwidth iheight owidth oheight asked ratio s small e =
    exact_result (configure_geometry iwidth iheight owidth oheight asked ratio) s
      (sym (configure_scaling-exact iwidth iheight owidth oheight asked ratio small) ∙ e)

-- With sides of 32767 at most and a rectangle that starts and ends less than 2 ^ 30 away from zero: of
-- the geometry that is configured no number is negative, the part that is read lies in the input
-- frame, and the part that is drawn in the output frame, from `xmin` up to `xmax` and from `ymin` up to
-- `ymax`.
pub configure_scaling-IsFitted :
    (iwidth iheight owidth oheight : ℕ) (asked : Rect) (ratio : AspectRatioMode) (s : Scaling)
    → IsSmall iwidth iheight owidth oheight asked
    → configure_scaling (pos iwidth) (pos iheight) (pos owidth) (pos oheight) asked ratio ≡ some s
    → (g : Geometry) × (s ≡ geometry_ints g) × IsFitted iwidth iheight g
configure_scaling-IsFitted iwidth iheight owidth oheight asked ratio s small e =
    let (g, made, same) = scaling_made iwidth iheight owidth oheight asked ratio s small e in
    (g, same, configure_geometry-IsFitted iwidth iheight owidth oheight asked ratio g made)

abbrev geometry_back : Scaling → Geometry
geometry_back s = record {
  source = area_of s.source;
  frame = size (pos_part s.frame.across) (pos_part s.frame.down);
  drawn = size (pos_part s.drawn.across) (pos_part s.drawn.down);
  xmin = pos_part s.xmin;
  ymin = pos_part s.ymin;
  xmax = pos_part s.xmax;
  ymax = pos_part s.ymax;
  mode = s.mode;
}

pub scaling_of :
    (iwidth iheight owidth oheight : ℕ) (asked : Rect) (ratio : AspectRatioMode) (g : Geometry)
    → IsSmall iwidth iheight owidth oheight asked
    → configure_scaling (pos iwidth) (pos iheight) (pos owidth) (pos oheight) asked ratio
      ≡ some (geometry_ints g)
    → configure_geometry iwidth iheight owidth oheight asked ratio ≡ some g
scaling_of iwidth iheight owidth oheight asked ratio g small e =
    let (h, made, same) =
      scaling_made iwidth iheight owidth oheight asked ratio (geometry_ints g) small e in
    made ∙ ap some (sym (ap geometry_back same))

pub frame_small :
    (iwidth iheight owidth oheight : ℕ) (asked : Rect) (ratio : AspectRatioMode) (g : Geometry)
    → IsSmall iwidth iheight owidth oheight asked
    → configure_geometry iwidth iheight owidth oheight asked ratio ≡ some g
    → SizeIsSmall g.frame
frame_small iwidth iheight owidth oheight asked ratio g small e =
    let r = area_of (input_rect iwidth iheight asked) in
    let s = asked_size owidth oheight r in
    let (across, down) = input_rect-AreaFits iwidth iheight asked in
    let steps = configured iwidth iheight owidth oheight asked ratio g e in
    let (t, u) = output_size-most ratio s steps.o (drawn_size-most ratio s r steps.o steps.drawn) in
    let ia = small.in_across in
    let id = small.in_down in
    let oa = small.out_across in
    let od = small.out_down in
    subst (λ (h : Geometry). SizeIsSmall h.frame) steps.made (ground arith, ground arith)
