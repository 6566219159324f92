-- ===== src/Adjust/Ignored.antt =====
-- The adjustments that `VideoAdjusts::adjust` of VCamUtils/src/videoadjusts.cpp does not make.
use akvirtualcamera.Base.{◌≡◌, refl, ap, ◌∙◌, Bool, true, false, not, ◌||◌, if◌then◌else◌}
use akvirtualcamera.Adjust.{Image, Adjusts, adjust_mirror, adjust_swap_rgb}
use akvirtualcamera.Adjust.Chain.{Table, adjust_colors, swap_twice, mirror_step, adjust_image}

swap_swap : (v : Image) → adjust_swap_rgb (adjust_swap_rgb v) ≡ v
unfolding adjust_swap_rgb
swap_swap v = refl

swap_twice-none : (a : Adjusts) (v : Image) → swap_twice a v ≡ v
unfolding swap_twice
swap_twice-none a v =
    elim a.swap_rgb
      as (λ (b : Bool).
        (let once = if b then adjust_swap_rgb v else v in if b then adjust_swap_rgb once else once)
        ≡ v) [ true ↦ swap_swap v | false ↦ refl ]

chosen_step :
    (h d : Bool) (w v : Image)
    → (h ≡ false → d ≡ false → w ≡ v)
    → (if not h || d then w else v) ≡ (if d then w else v)
chosen_step true true w v none = refl
chosen_step false true w v none = refl
chosen_step true false w v none = refl
chosen_step false false w v none = none refl refl

adjust_mirror-none :
    (a : Adjusts) (v : Image)
    → a.horizontal_mirror ≡ false
    → a.vertical_mirror ≡ false
    → adjust_mirror a v ≡ v
unfolding adjust_mirror
adjust_mirror-none a v across down = rw (across, down) refl

mirror_step_lem :
    (a : Adjusts) (v : Image)
    → mirror_step a v ≡ (if a.vertical_mirror then adjust_mirror a v else v)
unfolding mirror_step
mirror_step_lem a v =
    chosen_step a.horizontal_mirror a.vertical_mirror (adjust_mirror a v) v (adjust_mirror-none a v)

-- Whatever the settings, red and blue are not swapped, and the horizontal mirror has no effect of its
-- own: what comes out are the colours that were adjusted, mirrored where the vertical mirror is set and
-- as they are where it is not.
pub adjust_image-ignored :
    (gammas contrasts : Table) (a : Adjusts) (v : Image)
    → let colors = adjust_colors gammas contrasts a v in
      adjust_image gammas contrasts a v
      ≡ (if a.vertical_mirror then adjust_mirror a colors else colors)
unfolding adjust_image
adjust_image-ignored gammas contrasts a v =
    let colors = adjust_colors gammas contrasts a v in
    ap (mirror_step a) (swap_twice-none a colors) ∙ mirror_step_lem a colors
