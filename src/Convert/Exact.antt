-- ===== src/Convert/Exact.antt =====
-- Where the ints of `configureScaling` of VCamUtils/src/videoconverter.cpp do not wrap around.
pub mod Whole
use mathlib.Core.Option
use native.Mathlib.Nat.{div-le_of_le-mul}
use akvirtualcamera.Base.{
  ℕ, zero, suc, ◌+◌, ◌-◌, ◌*◌, ◌/◌, ◌^◌, ◌≤◌, ◌<◌, ◌≡◌, ◌||◌, min, Option, none, some, ◌>>=◌, arith,
  refl, ap, ◌∙◌, sym, Bool, true, false, if◌then◌else◌, ltb,
}
use akvirtualcamera.Base.Int.{
  ℤ, pos, ◌+ℤ◌, ◌-ℤ◌, ◌*ℤ◌, div_ℤ, leb_ℤ, int32, int32-pos, pos_part, magnitude, +ℤ_parts, -ℤ_parts,
}
use akvirtualcamera.Number.Rect.{
  Rect, rect, default_rect, rect_is_empty, intersected, intersected-exact, common_rect, HasCorners,
  min_ℤ, max_ℤ,
}
use akvirtualcamera.Color.Nearest.{times_pos}
use akvirtualcamera.Color.Depth.{plus_pos}
use akvirtualcamera.Convert.Geometry.{
  AspectRatioMode, ResizeMode, ratio_ignore, ratio_keep, ratio_expanding, ratio_fit, Area, area,
  area_of, input_rect, Size, size, size_or, checked_div, bounded_size, kept_ratio, drawn_size,
  output_size, resize_mode, cropped, read_area, Geometry, geometry, configure_geometry,
}
use akvirtualcamera.Convert.Scaling.{
  int_add, int_sub, int_mul, int_div, IntSize, int_size, input_area, int_or, cut_size, ratio_size,
  scaled_size, frame_size_of, scaled_mode, cropped_area, source_area, Scaling, scaling,
  configure_scaling, half_left, int_min,
}
use akvirtualcamera.Convert.Fits.{AreaFits, SizeFits, drawn_size-SizeFits, kept_ratio-SizeFits}

abbrev pub size_ints : Size → IntSize
size_ints s = int_size (pos s.across) (pos s.down)

abbrev pub area_ints : Area → Rect
area_ints r = rect (pos r.left) (pos r.upper) (pos r.width) (pos r.height)

abbrev pub geometry_ints : Geometry → Scaling
geometry_ints g = record {
  source = area_ints g.source;
  frame = size_ints g.frame;
  drawn = size_ints g.drawn;
  xmin = pos g.xmin;
  ymin = pos g.ymin;
  xmax = pos g.xmax;
  ymax = pos g.ymax;
  mode = g.mode;
}

-- The greatest side for which twice a product of two fits an int.
abbrev pub side_limit : ℕ
side_limit = 32_767

abbrev pub IsSide : ℕ → Type 0
IsSide n = n ≤ side_limit

pub product_small : (a b : ℕ) → IsSide a → IsSide b → a * b < 2 ^ 31
product_small a b h k = grind arith

pub int_mul-pos : (a b : ℕ) → IsSide a → IsSide b → int_mul (pos a) (pos b) ≡ pos (a * b)
int_mul-pos a b h k = ap int32 (times_pos a b) ∙ int32-pos (a * b) (product_small a b h k)

pub int_add-pos : (a b : ℕ) → a + b < 2 ^ 31 → int_add (pos a) (pos b) ≡ pos (a + b)
int_add-pos a b h = ap int32 (plus_pos a b) ∙ int32-pos (a + b) h

pub sub_pos : (u v : ℕ) → v ≤ u → pos u -ℤ pos v ≡ pos (u - v)
unfolding ◌-ℤ◌
sub_pos u v less = ground arith

pub int_sub-pos : (a b : ℕ) → b ≤ a → a < 2 ^ 31 → int_sub (pos a) (pos b) ≡ pos (a - b)
int_sub-pos a b h k = ap int32 (sub_pos a b h) ∙ int32-pos (a - b) (omega arith)

quotient_small : (a b : ℕ) → a < 2 ^ 31 → a / suc b < 2 ^ 31
quotient_small a b h =
    let most : a / suc b ≤ a = div-le_of_le-mul (suc b) (grind arith) in omega arith

int_div-pos : (a b : ℕ) → a < 2 ^ 31 → int_div (pos a) (pos b) ≡ Option.map pos (checked_div a b)
unfolding div_ℤ
int_div-pos a zero h = refl
int_div-pos a (suc b) h = ground (arith, int32-pos (a / suc b) (quotient_small a b h))

cut_size-pos :
    (s : Size) (w h : ℕ) → cut_size (size_ints s) (pos w) (pos h) ≡ size_ints (bounded_size s w h)
unfolding cut_size bounded_size
cut_size-pos s w h = ground arith

-- A chain goes on alike on both sides.
pub bind_map :
    {A B C D : Type 0} (o : Option A) (p : A → C) (k : C → Option D) (l : A → Option B) (m : B → D)
    → ((n : A) → o ≡ some n → k (p n) ≡ Option.map m (l n))
    → (Option.map p o >>= k) ≡ Option.map m (o >>= l)
bind_map none p k l m same = refl
bind_map (some n) p k l m same = same n refl

-- Sides that are small enough.
abbrev pub SizeIsSmall : Size → Type 0
SizeIsSmall s = IsSide s.across × IsSide s.down

abbrev pub AreaIsSmall : Area → Type 0
AreaIsSmall r = (r.left + r.width ≤ side_limit) × (r.upper + r.height ≤ side_limit)

ratio_size-ints :
    (s : Size) (r : Area)
    → SizeIsSmall s
    → AreaIsSmall r
    → ratio_size (size_ints s) (area_ints r) ≡ Option.map size_ints (kept_ratio s r)
unfolding ratio_size kept_ratio
ratio_size-ints s r (p, q) (t, u) =
    let wide : IsSide r.width = omega arith in
    let high : IsSide r.height = omega arith in
    rw
      (
        int_mul-pos s.down r.width q wide,
        int_mul-pos s.across r.height p high,
        int_div-pos (s.down * r.width) r.height (product_small s.down r.width q wide),
        int_div-pos (s.across * r.height) r.width (product_small s.across r.height p high),
      )
      (bind_map (checked_div (s.down * r.width) r.height) pos _ _ size_ints (λ w e.
        bind_map (checked_div (s.across * r.height) r.width) pos _ _ size_ints
          (λ h f. ap some (cut_size-pos s w h))))

pub scaled_size-ints :
    (ratio : AspectRatioMode) (s : Size) (r : Area)
    → SizeIsSmall s
    → AreaIsSmall r
    → scaled_size ratio (size_ints s) (area_ints r) ≡ Option.map size_ints (drawn_size ratio s r)
unfolding scaled_size drawn_size
scaled_size-ints ratio_keep s r h k = ratio_size-ints s r h k
scaled_size-ints ratio_fit s r h k = ratio_size-ints s r h k
scaled_size-ints ratio_ignore s r h k = refl
scaled_size-ints ratio_expanding s r h k = refl

pub frame_size_of-ints :
    (ratio : AspectRatioMode) (s o : Size)
    → frame_size_of ratio (size_ints s) (size_ints o) ≡ size_ints (output_size ratio s o)
unfolding frame_size_of output_size
frame_size_of-ints ratio_keep s o = refl
frame_size_of-ints ratio_fit s o = refl
frame_size_of-ints ratio_ignore s o = refl
frame_size_of-ints ratio_expanding s o = refl

pub scaled_mode-ints :
    (o : Size) (r : Area) → scaled_mode (size_ints o) (area_ints r) ≡ resize_mode o r
unfolding scaled_mode resize_mode
scaled_mode-ints o r = ground arith

int_min-pos : (w most : ℕ) → int_min (pos w) (pos most) ≡ pos (min w most)
int_min-pos w most = ground arith

half_left-pos :
    (start length part : ℕ)
    → part ≤ length
    → start + length < 2 ^ 31
    → half_left (pos start) (pos length) (pos part) ≡ pos ((start + length - part) / 2)
unfolding div_ℤ
half_left-pos start length part less small =
    rw (int_add-pos start length small, int_sub-pos (start + length) part (omega arith) small) refl

cropped_area-ints :
    (o : Size) (r : Area)
    → SizeIsSmall o
    → AreaIsSmall r
    → cropped_area (size_ints o) (area_ints r) ≡ Option.map area_ints (cropped o r)
unfolding cropped_area cropped
cropped_area-ints o r (p, q) (t, u) =
    let wide : IsSide r.width = omega arith in
    let high : IsSide r.height = omega arith in
    rw
      (
        int_mul-pos r.height o.across high p,
        int_mul-pos r.width o.down wide q,
        int_div-pos (r.height * o.across) o.down (product_small r.height o.across high p),
        int_div-pos (r.width * o.down) o.across (product_small r.width o.down wide q),
      )
      (bind_map (checked_div (r.height * o.across) o.down) pos _ _ area_ints (λ w e.
        bind_map (checked_div (r.width * o.down) o.across) pos _ _ area_ints (λ h f.
          rw
            (
              int_min-pos w r.width,
              int_min-pos h r.height,
              half_left-pos r.left r.width (min w r.width) (omega arith) (omega arith),
              half_left-pos r.upper r.height (min h r.height) (omega arith) (omega arith),
            )
            refl)))

pub source_area-ints :
    (ratio : AspectRatioMode) (o : Size) (r : Area)
    → SizeIsSmall o
    → AreaIsSmall r
    → source_area ratio (size_ints o) (area_ints r) ≡ Option.map area_ints (read_area ratio o r)
unfolding source_area read_area
source_area-ints ratio_expanding o r h k = cropped_area-ints o r h k
source_area-ints ratio_keep o r h k = refl
source_area-ints ratio_fit o r h k = refl
source_area-ints ratio_ignore o r h k = refl

pub drawn_size-most :
    (ratio : AspectRatioMode) (s : Size) (r : Area) (o : Size)
    → drawn_size ratio s r ≡ some o
    → SizeFits o s
unfolding drawn_size
drawn_size-most ratio_ignore s r o e = ground arith
drawn_size-most ratio_expanding s r o e = ground arith
drawn_size-most ratio_keep s r o e = kept_ratio-SizeFits s r o e
drawn_size-most ratio_fit s r o e = kept_ratio-SizeFits s r o e

pub output_size-most :
    (ratio : AspectRatioMode) (s o : Size) → SizeFits o s → SizeFits (output_size ratio s o) s
unfolding output_size
output_size-most ratio_ignore s o h = (omega arith, omega arith)
output_size-most ratio_expanding s o h = (omega arith, omega arith)
output_size-most ratio_keep s o h = h
output_size-most ratio_fit s o h = (omega arith, omega arith)

half_sum :
    (a b : ℕ) → IsSide a → IsSide b → div_ℤ (int_add (pos a) (pos b)) (pos 2) ≡ pos ((a + b) / 2)
unfolding div_ℤ
half_sum a b h k = rw (int_add-pos a b (omega arith)) refl

half_rest :
    (a b : ℕ) → IsSide a → b ≤ a → div_ℤ (int_sub (pos a) (pos b)) (pos 2) ≡ pos ((a - b) / 2)
unfolding div_ℤ
half_rest a b h k = rw (int_sub-pos a b k (omega arith)) refl

pub scaling-ints :
    (r : Area) (f o : Size) (mode : ResizeMode)
    → SizeIsSmall f
    → SizeFits o f
    → scaling (area_ints r) (size_ints f) (size_ints o) mode ≡ geometry_ints (geometry r f o mode)
scaling-ints r f o mode (p, q) (t, u) =
    rw
      (
        half_rest f.across o.across p t,
        half_rest f.down o.down q u,
        half_sum f.across o.across p (omega arith),
        half_sum f.down o.down q (omega arith),
      )
      refl
