-- ===== src/Adjust.antt =====
-- VCamUtils/src/videoadjusts.cpp: `adjust` between its two conversions, on pixels of alpha, red, green
-- and blue. A word is its four bytes (VCamUtils/src/color.h). The two tables that are filled with
-- floating-point numbers, of gamma and of contrast, are parameters.
pub mod Hsl
pub mod Chain
pub mod Mirror
pub mod Ignored
use akvirtualcamera.Base.{ℕ, zero, suc, ◌+◌, ◌-◌, ◌*◌, ◌/◌, ◌==◌, if◌then◌else◌, Bool}
use akvirtualcamera.Base.Int.{ℤ}

pub record Pixel : Type 0 where
  pub red : ℕ
  pub green : ℕ
  pub blue : ℕ
  pub alpha : ℕ

-- The pixels of an ARGB frame, by line and column.
pub record Image : Type 0 where
  pub width : ℕ
  pub height : ℕ
  pub at : ℕ → ℕ → Pixel

pub record Adjusts : Type 0 where
  pub horizontal_mirror : Bool
  pub vertical_mirror : Bool
  pub swap_rgb : Bool
  pub hue : ℤ
  pub saturation : ℤ
  pub luminance : ℤ
  pub gamma : ℤ
  pub contrast : ℤ
  pub gray_scaled : Bool

-- A loop over all pixels that replaces each of them.
abbrev pub each_pixel : (Pixel → Pixel) → Image → Image
each_pixel f v = record v { at = λ y x. f (v.at y x) }

-- Two elements change places.
abbrev pub swapped {ℓ} : {A : Type ℓ} → ℕ → ℕ → (ℕ → A) → ℕ → A
swapped i j f k = if k == i then f j else if k == j then f i else f k

-- `n` rounds of the loop of `adjustMirror`, which changes x and width - x - 1, from `x` on.
unfoldable pub mirror_loop {ℓ} : {A : Type ℓ} → ℕ → ℕ → ℕ → (ℕ → A) → ℕ → A
mirror_loop zero x width f = f
mirror_loop (suc n) x width f = mirror_loop n (suc x) width (swapped x (width - x - 1) f)

-- The first half changes places with the second.
unfoldable pub mirrored {ℓ} : {A : Type ℓ} → ℕ → (ℕ → A) → ℕ → A
unfolding mirror_loop
mirrored width f = mirror_loop (width / 2) 0 width f

unfoldable pub adjust_mirror : Adjusts → Image → Image
unfolding mirrored
adjust_mirror a v =
    let across =
      if a.horizontal_mirror then record v { at = λ y. mirrored v.width (v.at y) } else v in
    if a.vertical_mirror then record across { at = mirrored v.height across.at } else across

abbrev pub swap_pixel : Pixel → Pixel
swap_pixel p = record { red = p.blue; green = p.green; blue = p.red; alpha = p.alpha }

unfoldable pub adjust_swap_rgb : Image → Image
adjust_swap_rgb v = each_pixel swap_pixel v

-- `Color::gray`.
abbrev pub gray : Pixel → Pixel
gray p =
    let luma = (11 * p.red + 16 * p.green + 5 * p.blue) / 32 in
    record { red = luma; green = luma; blue = luma; alpha = p.alpha }

unfoldable pub adjust_gray_scale : Image → Image
adjust_gray_scale v = each_pixel gray v
