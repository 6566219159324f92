-- ===== src/Convert/Fits.antt =====
-- What `configureScaling` of VCamUtils/src/videoconverter.cpp computes stays in its frames: the
-- rectangle that is read in the input, and the part that is drawn in the output.
use mathlib.Core.Option.{some-injective}
use native.Mathlib.Nat.{le-div_iff_mul-le, div-le_of_le-mul}
use akvirtualcamera.Base.{
  ℕ, ◌+◌, ◌*◌, ◌/◌, ◌≤◌, ◌<◌, ◌≡◌, Option, none, some, ◌>>=◌, arith, if◌then◌else◌, refl, Bool,
  true, false, ◌||◌, subst,
}
use akvirtualcamera.Base.Int.{ℤ, leb_ℤ, pos, pos_part, ◌+ℤ◌, ◌-ℤ◌, +ℤ_parts, -ℤ_parts}
use akvirtualcamera.Number.Rect.{Rect, rect, default_rect, common_rect, rect_is_empty, min_ℤ, max_ℤ}
use akvirtualcamera.Convert.Geometry.{
  AspectRatioMode, ratio_ignore, ratio_keep, ratio_expanding, ratio_fit, Area, area_of, input_rect,
  Size, size, size_or, checked_div, bounded_size, kept_ratio, drawn_size, output_size, resize_mode,
  cropped, read_area, Geometry, geometry, configure_geometry,
}

-- An area of a frame of `w` and `h`.
abbrev pub AreaFits : ℕ → ℕ → Area → Type 0
AreaFits w h r = (r.left + r.width ≤ w) × (r.upper + r.height ≤ h)

abbrev pub SizeFits : Size → Size → Type 0
SizeFits o s = (o.across ≤ s.across) × (o.down ≤ s.down)

-- The part of a frame that a span has in common with it.
span_fits :
    (n : ℕ) (from to : ℤ)
    → let common = min_ℤ (pos 0 +ℤ pos n) to -ℤ max_ℤ (pos 0) from in
      leb_ℤ common (pos 0) ≡ false → pos_part (max_ℤ (pos 0) from) + pos_part common ≤ n
span_fits n from to some_left =
    let all = +ℤ_parts (pos 0) (pos n) in
    let parts = -ℤ_parts (min_ℤ (pos 0 +ℤ pos n) to) (max_ℤ (pos 0) from) in
    ground (arith, all, parts)

choice_fits :
    (w h : ℕ) (c d : Bool) (r : Rect)
    → (c ≡ false → pos_part r.x + pos_part r.width ≤ w)
    → (d ≡ false → pos_part r.y + pos_part r.height ≤ h)
    → AreaFits w h (area_of (if c || d then default_rect else r))
choice_fits w h true d r across down = (omega arith, omega arith)
choice_fits w h false true r across down = (omega arith, omega arith)
choice_fits w h false false r across down = (across refl, down refl)

common_rect-AreaFits :
    (w h : ℕ) (asked : Rect)
    → AreaFits w h (area_of (common_rect (rect (pos 0) (pos 0) (pos w) (pos h)) asked))
unfolding common_rect
common_rect-AreaFits w h asked =
    let to_x = asked.x +ℤ asked.width in
    let to_y = asked.y +ℤ asked.height in
    let width = min_ℤ (pos 0 +ℤ pos w) to_x -ℤ max_ℤ (pos 0) asked.x in
    let height = min_ℤ (pos 0 +ℤ pos h) to_y -ℤ max_ℤ (pos 0) asked.y in
    choice_fits w h (leb_ℤ width (pos 0)) (leb_ℤ height (pos 0))
      (rect (max_ℤ (pos 0) asked.x) (max_ℤ (pos 0) asked.y) width height) (span_fits w asked.x to_x)
      (span_fits h asked.y to_y)

pub input_rect-AreaFits : (w h : ℕ) (asked : Rect) → AreaFits w h (area_of (input_rect w h asked))
unfolding input_rect
input_rect-AreaFits w h asked =
    elim (rect_is_empty asked)
      as (λ (b : Bool). AreaFits w h (
        area_of (
          if b
          then rect (pos 0) (pos 0) (pos w) (pos h)
          else common_rect (rect (pos 0) (pos 0) (pos w) (pos h)) asked))) [
            | true ↦ (omega arith, omega arith)
            | false ↦ common_rect-AreaFits w h asked
          ]

ratio_turned : (width height w h : ℕ) → 1 ≤ h → width < height * w / h → width * h / w ≤ height
ratio_turned width height w h one large =
    let product = (le-div_iff_mul-le {x = width + 1} {y = height * w} one).0 (omega arith) in
    div-le_of_le-mul w (grind arith)

bounded_size-SizeFits :
    (s : Size) (w h : ℕ) → (s.across < w → h ≤ s.down) → SizeFits (bounded_size s w h) s
unfolding bounded_size
bounded_size-SizeFits s w h turned = ground arith

pub kept_ratio-SizeFits : (s : Size) (r : Area) (o : Size) → kept_ratio s r ≡ some o → SizeFits o s
unfolding kept_ratio
kept_ratio-SizeFits s r o e = ground (
  arith,
  ratio_turned s.across s.down r.width r.height,
  bounded_size-SizeFits s (s.down * r.width / r.height) (s.across * r.height / r.width),
)

pub drawn_size-SizeFits :
    (ratio : AspectRatioMode) (s : Size) (r : Area) (o : Size)
    → drawn_size ratio s r ≡ some o
    → SizeFits o (output_size ratio s o)
unfolding drawn_size output_size
drawn_size-SizeFits ratio_ignore s r o e = ground arith
drawn_size-SizeFits ratio_expanding s r o e = ground arith
drawn_size-SizeFits ratio_keep s r o e = (omega arith, omega arith)
drawn_size-SizeFits ratio_fit s r o e = kept_ratio-SizeFits s r o e

read_area-AreaFits :
    (ratio : AspectRatioMode) (w h : ℕ) (o : Size) (r read : Area)
    → AreaFits w h r
    → read_area ratio o r ≡ some read
    → AreaFits w h read × (read.width ≤ r.width) × (read.height ≤ r.height)
unfolding read_area cropped
read_area-AreaFits ratio_expanding w h o r read fits e = ground arith
read_area-AreaFits ratio_ignore w h o r read fits e = ground arith
read_area-AreaFits ratio_keep w h o r read fits e = ground arith
read_area-AreaFits ratio_fit w h o r read fits e = ground arith

-- A geometry that stays in its frames.
pub record IsFitted (iwidth iheight : ℕ) (g : Geometry) : Type 0 where
  pub reads : AreaFits iwidth iheight g.source
  pub draws : SizeFits g.drawn g.frame
  pub across : g.xmax ≡ g.xmin + g.drawn.across
  pub down : g.ymax ≡ g.ymin + g.drawn.down
  pub right : g.xmax ≤ g.frame.across
  pub bottom : g.ymax ≤ g.frame.down

-- A chain that gives a result has one at each step.
pub steps_of :
    {A B : Type 0} (o : Option A) (f : A → Option B) (b : B)
    → (o >>= f) ≡ some b
    → (a : A) × (o ≡ some a) × (f a ≡ some b)
steps_of none f b e = absurd (cc)
steps_of (some a) f b e = (a, refl, e)

geometry-IsFitted :
    (w h : ℕ) (ratio : AspectRatioMode) (s o : Size) (r read : Area)
    → AreaFits w h r
    → drawn_size ratio s r ≡ some o
    → read_area ratio o r ≡ some read
    → IsFitted w h (geometry read (output_size ratio s o) o (resize_mode o r))
geometry-IsFitted w h ratio s o r read fits drawn taken =
    let (across, down) = drawn_size-SizeFits ratio s r o drawn in
    record {
      reads = (read_area-AreaFits ratio w h o r read fits taken).0;
      draws = (across, down);
      across = omega arith;
      down = omega arith;
      right = omega arith;
      bottom = omega arith;
    }

-- The size that is asked of the output.
abbrev pub asked_size : ℕ → ℕ → Area → Size
asked_size owidth oheight r = size (size_or owidth r.width) (size_or oheight r.height)

-- The steps of `configureScaling` that gave a geometry.
pub record Steps (r : Area) (s : Size) (ratio : AspectRatioMode) (g : Geometry) : Type 0 where
  pub o : Size
  pub read : Area
  pub drawn : drawn_size ratio s r ≡ some o
  pub taken : read_area ratio o r ≡ some read
  pub made : geometry read (output_size ratio s o) o (resize_mode o r) ≡ g

pub configured :
    (iwidth iheight owidth oheight : ℕ) (asked : Rect) (ratio : AspectRatioMode) (g : Geometry)
    → configure_geometry iwidth iheight owidth oheight asked ratio ≡ some g
    → let r = area_of (input_rect iwidth iheight asked) in
      Steps r (asked_size owidth oheight r) ratio g
unfolding configure_geometry
configured iwidth iheight owidth oheight asked ratio g e =
    let r = area_of (input_rect iwidth iheight asked) in
    let s = asked_size owidth oheight r in
    let (o, drawn, rest) =
      steps_of (drawn_size ratio s r)
        (λ o. read_area ratio o r >>= λ read.
          some (geometry read (output_size ratio s o) o (resize_mode o r)))
        g e in
    let (read, taken, last) =
      steps_of (read_area ratio o r)
        (λ read. some (geometry read (output_size ratio s o) o (resize_mode o r))) g rest in
    record { o = o; read = read; drawn = drawn; taken = taken; made = some-injective _ _ last }

-- In exact numbers, whatever the frames, the rectangle and the ratio mode: the part that is read
-- lies in the input frame, and the part that is drawn in the output frame, from `xmin` up to `xmax` and
-- from `ymin` up to `ymax`.
pub configure_geometry-IsFitted :
    (iwidth iheight owidth oheight : ℕ) (asked : Rect) (ratio : AspectRatioMode) (g : Geometry)
    → configure_geometry iwidth iheight owidth oheight asked ratio ≡ some g
    → IsFitted iwidth iheight g
configure_geometry-IsFitted iwidth iheight owidth oheight asked ratio g e =
    let r = area_of (input_rect iwidth iheight asked) in
    let steps = configured iwidth iheight owidth oheight asked ratio g e in
    subst (IsFitted iwidth iheight) steps.made (
      geometry-IsFitted iwidth iheight ratio (asked_size owidth oheight r) steps.o r steps.read
        (input_rect-AreaFits iwidth iheight asked) steps.drawn steps.taken)

checked_div-some : (a b : ℕ) → 1 ≤ b → checked_div a b ≡ some (a / b)
checked_div-some a b one = ground arith

kept_ratio-some :
    (s : Size) (r : Area)
    → 1 ≤ r.width
    → 1 ≤ r.height
    → kept_ratio s r
      ≡ some (bounded_size s (s.down * r.width / r.height) (s.across * r.height / r.width))
unfolding kept_ratio
kept_ratio-some s r h k =
    rw
      (
        checked_div-some (s.down * r.width) r.height k,
        checked_div-some (s.across * r.height) r.width h,
      )
      refl

drawn_size-some :
    (ratio : AspectRatioMode) (s : Size) (r : Area)
    → 1 ≤ r.width
    → 1 ≤ r.height
    → (o : Size) × (drawn_size ratio s r ≡ some o)
unfolding drawn_size
drawn_size-some ratio_keep s r h k = (_, kept_ratio-some s r h k)
drawn_size-some ratio_fit s r h k = (_, kept_ratio-some s r h k)
drawn_size-some ratio_ignore s r h k = (s, refl)
drawn_size-some ratio_expanding s r h k = (s, refl)

read_area-some :
    (ratio : AspectRatioMode) (s o : Size) (r : Area)
    → 1 ≤ s.across
    → 1 ≤ s.down
    → drawn_size ratio s r ≡ some o
    → (read : Area) × (read_area ratio o r ≡ some read)
unfolding read_area cropped drawn_size
read_area-some ratio_keep s o r h k e = (r, refl)
read_area-some ratio_fit s o r h k e = (r, refl)
read_area-some ratio_ignore s o r h k e = (r, refl)
read_area-some ratio_expanding s o r h k e =
    rw
      (
        ← some-injective _ _ e,
        checked_div-some (r.height * s.across) s.down k,
        checked_div-some (r.width * s.down) s.across h,
      )
      (_, refl)

-- Where the rectangle that is asked has pixels in common with the input frame, or is empty and the frame
-- has pixels, a geometry is configured: nothing is divided by zero.
pub configure_geometry-some :
    (iwidth iheight owidth oheight : ℕ) (asked : Rect) (ratio : AspectRatioMode)
    → let r = area_of (input_rect iwidth iheight asked) in
      1 ≤ r.width
      → 1 ≤ r.height
      → (g : Geometry) × (configure_geometry iwidth iheight owidth oheight asked ratio ≡ some g)
unfolding configure_geometry
configure_geometry-some iwidth iheight owidth oheight asked ratio h k =
    let r = area_of (input_rect iwidth iheight asked) in
    let s = asked_size owidth oheight r in
    let (o, drawn) = drawn_size-some ratio s r h k in
    let (read, taken) = read_area-some ratio s o r (ground arith) (ground arith) drawn in
    (geometry read (output_size ratio s o) o (resize_mode o r), rw (drawn, taken) refl)
