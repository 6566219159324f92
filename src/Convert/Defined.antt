-- ===== src/Convert/Defined.antt =====
-- That `configureScaling` of VCamUtils/src/videoconverter.cpp does not divide by zero.
use mathlib.Core.Option.{some-injective}
use akvirtualcamera.Base.{◌≡◌, some, arith, refl, sym}
use akvirtualcamera.Base.Int.{ℤ, pos, ◌≤ℤ◌, div_ℤ, int32}
use akvirtualcamera.Number.Rect.{Rect}
use akvirtualcamera.Convert.Geometry.{
  AspectRatioMode, ratio_ignore, ratio_keep, ratio_expanding, ratio_fit,
}
use akvirtualcamera.Convert.Scaling.{
  int_mul, int_div, IntSize, int_size, input_area, int_or, ratio_size, scaled_size, frame_size_of,
  scaled_mode, cropped_area, source_area, Scaling, scaling, configure_scaling,
}

int_div-some : (a b : ℤ) → pos 1 ≤ℤ b → int_div a b ≡ some (int32 (div_ℤ a b))
int_div-some a b one = ground arith

ratio_size-some :
    (s : IntSize) (r : Rect)
    → pos 1 ≤ℤ r.width
    → pos 1 ≤ℤ r.height
    → (o : IntSize) × (ratio_size s r ≡ some o)
unfolding ratio_size
ratio_size-some s r h k =
    rw
      (
        int_div-some (int_mul s.down r.width) r.height k,
        int_div-some (int_mul s.across r.height) r.width h,
      )
      (_, refl)

scaled_size-some :
    (ratio : AspectRatioMode) (s : IntSize) (r : Rect)
    → pos 1 ≤ℤ r.width
    → pos 1 ≤ℤ r.height
    → (o : IntSize) × (scaled_size ratio s r ≡ some o)
unfolding scaled_size
scaled_size-some ratio_keep s r h k = ratio_size-some s r h k
scaled_size-some ratio_fit s r h k = ratio_size-some s r h k
scaled_size-some ratio_ignore s r h k = (s, refl)
scaled_size-some ratio_expanding s r h k = (s, refl)

source_area-some :
    (ratio : AspectRatioMode) (s o : IntSize) (r : Rect)
    → pos 1 ≤ℤ s.across
    → pos 1 ≤ℤ s.down
    → scaled_size ratio s r ≡ some o
    → (read : Rect) × (source_area ratio o r ≡ some read)
unfolding source_area cropped_area scaled_size
source_area-some ratio_keep s o r h k e = (r, refl)
source_area-some ratio_fit s o r h k e = (r, refl)
source_area-some ratio_ignore s o r h k e = (r, refl)
source_area-some ratio_expanding s o r h k e =
    rw
      (
        sym (some-injective _ _ e),
        int_div-some (int_mul r.height s.across) s.down k,
        int_div-some (int_mul r.width s.down) s.across h,
      )
      (_, refl)

int_or-least : (asked own : ℤ) → pos 1 ≤ℤ own → pos 1 ≤ℤ int_or asked own
int_or-least asked own one = ground arith

-- Where the rectangle that is asked has pixels in common with the input frame, or is empty and the frame
-- has pixels, a geometry is configured, whatever its ints and wherever they wrap around: nothing is
-- divided by zero.
pub configure_scaling-some :
    (iwidth iheight owidth oheight : ℤ) (asked : Rect) (ratio : AspectRatioMode)
    → let r = input_area iwidth iheight asked in
      pos 1 ≤ℤ r.width
      → pos 1 ≤ℤ r.height
      → (s : Scaling) × (configure_scaling iwidth iheight owidth oheight asked ratio ≡ some s)
unfolding configure_scaling
configure_scaling-some iwidth iheight owidth oheight asked ratio h k =
    let r = input_area iwidth iheight asked in
    let s = int_size (int_or owidth r.width) (int_or oheight r.height) in
    let (o, drawn) = scaled_size-some ratio s r h k in
    let (read, taken) =
      source_area-some ratio s o r (int_or-least owidth r.width h) (int_or-least oheight r.height k)
        drawn in
    (scaling read (frame_size_of ratio s o) o (scaled_mode o r), rw (drawn, taken) refl)
