-- ===== src/Adjust/Chain.antt =====
-- `VideoAdjusts::adjust` of VCamUtils/src/videoadjusts.cpp: which adjustments it makes, and in which
-- order. The two conversions, of the input to ARGB and back, stand around it.
use akvirtualcamera.Base.{ℕ, ◌+◌, ◌*◌, Bool, not, ◌&&◌, ◌||◌, if◌then◌else◌, Option, none, some}
use akvirtualcamera.Base.Int.{ℤ, pos, negsuc, ◌+ℤ◌, eqb_ℤ, pos_part}
use akvirtualcamera.Color.{bound}
use akvirtualcamera.Adjust.{
  Image, Adjusts, each_pixel, adjust_mirror, adjust_swap_rgb, adjust_gray_scale,
}
use akvirtualcamera.Adjust.Hsl.{adjust_hsl}

-- A table of 256 entries for each value from -255 on, one after the other.
abbrev pub Table : Type 0
Table = ℕ → ℕ

-- `contrastOffset | r` of a setting that is bounded, and the entry there.
unfoldable pub entry : Table → ℤ → ℕ → ℕ
unfolding bound
entry table setting v = table (pos_part (bound (negsuc 254) setting (pos 255) +ℤ pos 255) * 256 + v)

-- `adjustGamma` and `adjustContrast`, each with its table.
unfoldable pub adjust_by_table : Table → ℤ → Image → Image
unfolding entry
adjust_by_table table setting v =
    each_pixel
      (λ p. record p {
        red = entry table setting p.red;
        green = entry table setting p.green;
        blue = entry table setting p.blue;
      })
      v

abbrev is_off : ℤ → Bool
is_off x = eqb_ℤ x (pos 0)

-- The test on which `adjust` gives the frame back as it is.
unfoldable pub nothing_to_do : Adjusts → Bool
nothing_to_do a =
    is_off a.hue
    && is_off a.saturation
    && is_off a.luminance
    && is_off a.gamma
    && is_off a.contrast
    && not a.gray_scaled
    && not a.swap_rgb
    && not a.horizontal_mirror
    && not a.vertical_mirror

-- The adjustments of colours before the swaps.
unfoldable pub adjust_colors : Table → Table → Adjusts → Image → Image
unfolding adjust_hsl adjust_by_table adjust_gray_scale
adjust_colors gammas contrasts a v =
    let turned =
      if not (is_off a.hue) || not (is_off a.saturation) || not (is_off a.luminance)
      then adjust_hsl a v
      else v in
    let contrasted =
      if is_off a.contrast then turned else adjust_by_table contrasts a.contrast turned in
    let corrected =
      if is_off a.gamma then contrasted else adjust_by_table gammas a.gamma contrasted in
    if a.gray_scaled then adjust_gray_scale corrected else corrected

-- Red and blue are swapped by two tests in a row.
unfoldable pub swap_twice : Adjusts → Image → Image
unfolding adjust_swap_rgb
swap_twice a v =
    let once = if a.swap_rgb then adjust_swap_rgb v else v in
    if a.swap_rgb then adjust_swap_rgb once else once

unfoldable pub mirror_step : Adjusts → Image → Image
unfolding adjust_mirror
mirror_step a v = if not a.horizontal_mirror || a.vertical_mirror then adjust_mirror a v else v

-- What stands between the two conversions.
unfoldable pub adjust_image : Table → Table → Adjusts → Image → Image
unfolding adjust_colors swap_twice mirror_step
adjust_image gammas contrasts a v =
    mirror_step a (swap_twice a (adjust_colors gammas contrasts a v))

-- `adjust`, given the frame as it was converted to ARGB, where that succeeds. `none` is the frame as it
-- came, and a result is converted back.
unfoldable pub adjust : Table → Table → Adjusts → Option Image → Option Image
unfolding nothing_to_do adjust_image
adjust gammas contrasts a converted =
    if nothing_to_do a
    then none
    else elim converted [ none ↦ none | some v ↦ some (adjust_image gammas contrasts a v) ]
