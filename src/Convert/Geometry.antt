-- ===== src/Convert/Geometry.antt =====
-- What the first part of `FrameConvertParameters::configureScaling` of VCamUtils/src/videoconverter.cpp
-- computes with sizes that are not negative and exact products: the reference for Convert/Scaling.antt,
-- whose ints wrap around.
use akvirtualcamera.Base.{
  ℕ, ◌+◌, ◌-◌, ◌*◌, ◌/◌, min, ◌||◌, Option, none, some, ◌>>=◌, ltb, ◌==◌, if◌then◌else◌,
}
use akvirtualcamera.Base.Int.{pos, pos_part}
use akvirtualcamera.Number.Rect.{Rect, rect, rect_is_empty, common_rect}

pub data AspectRatioMode : Type 0 where
  ratio_ignore ratio_keep ratio_expanding ratio_fit : AspectRatioMode

pub data ResizeMode : Type 0 where
  resize_keep resize_up resize_down : ResizeMode

-- A rectangle of a frame: its numbers are not negative.
pub record Area : Type 0 where
  pub left : ℕ
  pub upper : ℕ
  pub width : ℕ
  pub height : ℕ

abbrev pub area : ℕ → ℕ → ℕ → ℕ → Area
area x y w h = record { left = x; upper = y; width = w; height = h }

abbrev pub area_of : Rect → Area
area_of r = area (pos_part r.x) (pos_part r.y) (pos_part r.width) (pos_part r.height)

-- `irect`: an empty rectangle asks for the whole frame.
unfoldable pub input_rect : ℕ → ℕ → Rect → Rect
unfolding rect_is_empty common_rect
input_rect iwidth iheight asked =
    let whole = rect (pos 0) (pos 0) (pos iwidth) (pos iheight) in
    if rect_is_empty asked then whole else common_rect whole asked

-- A size of the output format, where that is above 1.
abbrev pub size_or : ℕ → ℕ → ℕ
size_or asked own = if ltb 1 asked then asked else own

pub record Size : Type 0 where
  pub across : ℕ
  pub down : ℕ

abbrev pub size : ℕ → ℕ → Size
size w h = record { across = w; down = h }

abbrev pub checked_div : ℕ → ℕ → Option ℕ
checked_div a b = if b == 0 then none else some (a / b)

-- The pair `w`, `h` after its two tests.
unfoldable pub bounded_size : Size → ℕ → ℕ → Size
bounded_size s w h =
    if ltb s.across w then size s.across h else if ltb s.down h then size w s.down else size w h

unfoldable pub kept_ratio : Size → Area → Option Size
unfolding bounded_size
kept_ratio s r = checked_div (s.down * r.width) r.height >>= λ w.
    checked_div (s.across * r.height) r.width >>= λ h. some (bounded_size s w h)

-- `owidth` and `oheight`.
unfoldable pub drawn_size : AspectRatioMode → Size → Area → Option Size
unfolding kept_ratio
drawn_size ratio_keep s r = kept_ratio s r
drawn_size ratio_fit s r = kept_ratio s r
drawn_size _ s r = some s

-- The size of the output frame: the drawn one where the ratio is kept.
unfoldable pub output_size : AspectRatioMode → Size → Size → Size
output_size ratio_keep s drawn = drawn
output_size _ s drawn = s

unfoldable pub resize_mode : Size → Area → ResizeMode
resize_mode o r =
    if ltb r.width o.across || ltb r.height o.down
    then resize_up
    else if ltb o.across r.width || ltb o.down r.height
    then resize_down
    else resize_keep

-- The part of the rectangle that `Expanding` reads.
unfoldable pub cropped : Size → Area → Option Area
cropped o r = checked_div (r.height * o.across) o.down >>= λ w.
    checked_div (r.width * o.down) o.across >>= λ h.
    (let w' = min w r.width in
      let h' = min h r.height in
      some (area ((r.left + r.width - w') / 2) ((r.upper + r.height - h') / 2) w' h'))

unfoldable pub read_area : AspectRatioMode → Size → Area → Option Area
unfolding cropped
read_area ratio_expanding o r = cropped o r
read_area _ o r = some r

pub record Geometry : Type 0 where
  pub source : Area
  pub frame : Size
  pub drawn : Size
  pub xmin : ℕ
  pub ymin : ℕ
  pub xmax : ℕ
  pub ymax : ℕ
  pub mode : ResizeMode

abbrev pub geometry : Area → Size → Size → ResizeMode → Geometry
geometry r f o mode = record {
  source = r;
  frame = f;
  drawn = o;
  xmin = (f.across - o.across) / 2;
  ymin = (f.down - o.down) / 2;
  xmax = (f.across + o.across) / 2;
  ymax = (f.down + o.down) / 2;
  mode = mode;
}

unfoldable pub configure_geometry : ℕ → ℕ → ℕ → ℕ → Rect → AspectRatioMode → Option Geometry
unfolding input_rect drawn_size output_size resize_mode read_area
configure_geometry iwidth iheight owidth oheight asked ratio =
    let r = area_of (input_rect iwidth iheight asked) in
    let s = size (size_or owidth r.width) (size_or oheight r.height) in
    drawn_size ratio s r >>= λ o.
    read_area ratio o r >>= λ read. some (geometry read (output_size ratio s o) o (resize_mode o r))
