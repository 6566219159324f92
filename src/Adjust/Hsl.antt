-- ===== src/Adjust/Hsl.antt =====
-- `rgbToHsl`, `hslToRgb` and `adjustHsl` of VCamUtils/src/videoadjusts.cpp.
use akvirtualcamera.Base.{ℕ, ◌+◌, ◌==◌, if◌then◌else◌, ◌&&◌, max, min}
use akvirtualcamera.Base.Int.{
  ℤ, pos, ◌+ℤ◌, ◌-ℤ◌, ◌*ℤ◌, div_ℤ, magnitude, ltb_ℤ, leb_ℤ, eqb_ℤ, pos_part,
}
use akvirtualcamera.Color.{bound, shift_right}
use akvirtualcamera.Adjust.{Pixel, Image, Adjusts, each_pixel}

-- `%`, with the sign of the dividend, and the template `mod` of utils.h.
abbrev rem_ℤ : ℤ → ℤ → ℤ
rem_ℤ x y = x -ℤ y *ℤ div_ℤ x y

unfoldable pub mod_ℤ : ℤ → ℤ → ℤ
mod_ℤ value m = rem_ℤ (rem_ℤ value m +ℤ m) m

abbrev abs : ℤ → ℤ
abs x = pos (magnitude x)

abbrev pub Hsl : Type 0
Hsl = ℤ × ℤ × ℤ

unfoldable pub rgb_to_hsl : ℕ → ℕ → ℕ → Hsl
unfolding mod_ℤ
rgb_to_hsl r g b =
    let most = max r (max g b) in
    let least = min r (min g b) in
    let c = pos most -ℤ pos least in
    let l = div_ℤ (pos (most + least)) (pos 2) in
    if eqb_ℤ c (pos 0)
    then (pos 0, pos 0, l)
    else (let h =
          if most == r
          then mod_ℤ (pos g -ℤ pos b) (pos 6 *ℤ c)
          else if most == g
          then pos b -ℤ pos r +ℤ pos 2 *ℤ c
          else pos r -ℤ pos g +ℤ pos 4 *ℤ c in
        (
          div_ℤ (pos 60 *ℤ h) c,
          div_ℤ (pos 255 *ℤ c) (pos 255 -ℤ abs (pos (most + least) -ℤ pos 255)),
          l,
        ))

-- The six sectors of the hue.
unfoldable pub sector : ℤ → ℤ → ℤ → ℤ × ℤ × ℤ
sector h c x =
    let from = λ (low : ℕ). leb_ℤ (pos low) h && ltb_ℤ h (pos (low + 60)) in
    if from 0
    then (c, x, pos 0)
    else if from 60
    then (x, c, pos 0)
    else if from 120
    then (pos 0, c, x)
    else if from 180
    then (pos 0, x, c)
    else if from 240
    then (x, pos 0, c)
    else if from 300
    then (c, pos 0, x)
    else (pos 0, pos 0, pos 0)

unfoldable pub hsl_to_rgb : ℤ → ℤ → ℤ → ℤ × ℤ × ℤ
unfolding sector
hsl_to_rgb h s l =
    let c = div_ℤ (s *ℤ (pos 255 -ℤ abs (pos 2 *ℤ l -ℤ pos 255))) (pos 255) in
    let x = div_ℤ (c *ℤ (pos 60 -ℤ abs (rem_ℤ h (pos 120) -ℤ pos 60))) (pos 60) in
    let (r, g, b) = sector h c x in
    let m = pos 2 *ℤ l -ℤ c in
    (
      shift_right (pos 2 *ℤ r +ℤ m) 1,
      shift_right (pos 2 *ℤ g +ℤ m) 1,
      shift_right (pos 2 *ℤ b +ℤ m) 1,
    )

-- uint8_t(x).
abbrev pub byte_of : ℤ → ℕ
byte_of x = pos_part (mod_ℤ x (pos 256))

unfoldable pub hsl_pixel : Adjusts → Pixel → Pixel
unfolding rgb_to_hsl hsl_to_rgb mod_ℤ
hsl_pixel a p =
    let (h, s, l) = rgb_to_hsl p.red p.green p.blue in
    let (r, g, b) =
      hsl_to_rgb (mod_ℤ (h +ℤ a.hue) (pos 360)) (bound (pos 0) (s +ℤ a.saturation) (pos 255))
        (bound (pos 0) (l +ℤ a.luminance) (pos 255)) in
    record { red = byte_of r; green = byte_of g; blue = byte_of b; alpha = p.alpha }

unfoldable pub adjust_hsl : Adjusts → Image → Image
unfolding hsl_pixel
adjust_hsl a v = each_pixel (hsl_pixel a) v
