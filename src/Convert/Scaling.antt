-- ===== src/Convert/Scaling.antt =====
-- The first part of `FrameConvertParameters::configureScaling` of VCamUtils/src/videoconverter.cpp: the
-- rectangle that is read, the size that is drawn and where it starts. Its numbers are ints, whose sums
-- and products wrap around; a division by zero is `none`.
use akvirtualcamera.Base.{◌||◌, Option, none, some, ◌>>=◌, if◌then◌else◌}
use akvirtualcamera.Base.Int.{ℤ, pos, ◌+ℤ◌, ◌-ℤ◌, ◌*ℤ◌, div_ℤ, ltb_ℤ, eqb_ℤ, int32}
use akvirtualcamera.Number.Rect.{Rect, rect, rect_is_empty, intersected}
use akvirtualcamera.Convert.Geometry.{
  AspectRatioMode, ratio_keep, ratio_expanding, ratio_fit, ResizeMode, resize_keep, resize_up,
  resize_down,
}

abbrev pub int_add : ℤ → ℤ → ℤ
int_add a b = int32 (a +ℤ b)

abbrev pub int_sub : ℤ → ℤ → ℤ
int_sub a b = int32 (a -ℤ b)

abbrev pub int_mul : ℤ → ℤ → ℤ
int_mul a b = int32 (a *ℤ b)

abbrev pub int_div : ℤ → ℤ → Option ℤ
int_div a b = if eqb_ℤ b (pos 0) then none else some (int32 (div_ℤ a b))

-- A width and a height.
pub record IntSize : Type 0 where
  pub across : ℤ
  pub down : ℤ

abbrev pub int_size : ℤ → ℤ → IntSize
int_size w h = record { across = w; down = h }

-- `irect`: an empty rectangle asks for the whole frame.
unfoldable pub input_area : ℤ → ℤ → Rect → Rect
unfolding rect_is_empty intersected
input_area iwidth iheight asked =
    let whole = rect (pos 0) (pos 0) iwidth iheight in
    if rect_is_empty asked then whole else intersected whole asked

-- A size of the output format, where that is above 1.
abbrev pub int_or : ℤ → ℤ → ℤ
int_or asked own = if ltb_ℤ (pos 1) asked then asked else own

-- The pair `w`, `h` after its two tests.
unfoldable pub cut_size : IntSize → ℤ → ℤ → IntSize
cut_size s w h =
    if ltb_ℤ s.across w
    then int_size s.across h
    else if ltb_ℤ s.down h
    then int_size w s.down
    else int_size w h

unfoldable pub ratio_size : IntSize → Rect → Option IntSize
unfolding cut_size
ratio_size s r = int_div (int_mul s.down r.width) r.height >>= λ w.
    int_div (int_mul s.across r.height) r.width >>= λ h. some (cut_size s w h)

-- `owidth` and `oheight`.
unfoldable pub scaled_size : AspectRatioMode → IntSize → Rect → Option IntSize
unfolding ratio_size
scaled_size ratio_keep s r = ratio_size s r
scaled_size ratio_fit s r = ratio_size s r
scaled_size _ s r = some s

-- The size of the output frame: the drawn one where the ratio is kept.
unfoldable pub frame_size_of : AspectRatioMode → IntSize → IntSize → IntSize
frame_size_of ratio_keep s drawn = drawn
frame_size_of _ s drawn = s

unfoldable pub scaled_mode : IntSize → Rect → ResizeMode
scaled_mode o r =
    if ltb_ℤ r.width o.across || ltb_ℤ r.height o.down
    then resize_up
    else if ltb_ℤ o.across r.width || ltb_ℤ o.down r.height
    then resize_down
    else resize_keep

abbrev pub int_min : ℤ → ℤ → ℤ
int_min w most = if ltb_ℤ most w then most else w

-- Half of what is left of a side, for the start of the part that is read.
abbrev pub half_left : ℤ → ℤ → ℤ → ℤ
half_left start length part = div_ℤ (int_sub (int_add start length) part) (pos 2)

-- The part of the rectangle that `Expanding` reads.
unfoldable pub cropped_area : IntSize → Rect → Option Rect
cropped_area o r = int_div (int_mul r.height o.across) o.down >>= λ w.
    int_div (int_mul r.width o.down) o.across >>= λ h.
    (let w' = int_min w r.width in
      let h' = int_min h r.height in
      some (rect (half_left r.x r.width w') (half_left r.y r.height h') w' h'))

unfoldable pub source_area : AspectRatioMode → IntSize → Rect → Option Rect
unfolding cropped_area
source_area ratio_expanding o r = cropped_area o r
source_area _ o r = some r

pub record Scaling : Type 0 where
  pub source : Rect
  pub frame : IntSize
  pub drawn : IntSize
  pub xmin : ℤ
  pub ymin : ℤ
  pub xmax : ℤ
  pub ymax : ℤ
  pub mode : ResizeMode

abbrev pub scaling : Rect → IntSize → IntSize → ResizeMode → Scaling
scaling r f o mode = record {
  source = r;
  frame = f;
  drawn = o;
  xmin = div_ℤ (int_sub f.across o.across) (pos 2);
  ymin = div_ℤ (int_sub f.down o.down) (pos 2);
  xmax = div_ℤ (int_add f.across o.across) (pos 2);
  ymax = div_ℤ (int_add f.down o.down) (pos 2);
  mode = mode;
}

unfoldable pub configure_scaling : ℤ → ℤ → ℤ → ℤ → Rect → AspectRatioMode → Option Scaling
unfolding input_area scaled_size frame_size_of scaled_mode source_area
configure_scaling iwidth iheight owidth oheight asked ratio =
    let r = input_area iwidth iheight asked in
    let s = int_size (int_or owidth r.width) (int_or oheight r.height) in
    scaled_size ratio s r >>= λ o. source_area ratio o r >>= λ read.
    some (scaling read (frame_size_of ratio s o) o (scaled_mode o r))
