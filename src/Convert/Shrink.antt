-- ===== src/Convert/Shrink.antt =====
-- Scaling down in VCamUtils/src/videoconverter.cpp: each pixel that is drawn is the mean of a box of the
-- source, which `srcWidth`, `srcWidth_1` and their rows bound, and whose size is in `kdl`.
use native.Mathlib.Nat.{le-div_iff_mul-le}
use akvirtualcamera.Base.{
  ℕ, zero, suc, ◌+◌, ◌-◌, ◌*◌, ◌/◌, ◌≤◌, ◌<◌, ◌≡◌, min, max, arith, refl, ap, ◌∙◌,
}
use akvirtualcamera.Base.Int.{ℤ, pos, ◌≤ℤ◌}
use akvirtualcamera.Number.Rect.{min_ℤ}
use akvirtualcamera.Convert.Scaling.{int_sub}
use akvirtualcamera.Convert.Exact.{IsSide, int_sub-pos, int_mul-pos}
use akvirtualcamera.Convert.Tables.{Axis, in_steps, out_steps, src_at, src_end_at, box_size}
use akvirtualcamera.Convert.Columns.{AxisIsSmall, src_at-steps, steps_at, steps_most, no_steps}

-- A step of the drawing is at least one of the source.
step_wide : (j s d : ℕ) → 1 ≤ d → d ≤ s → j * s / d + 1 ≤ (j + 1) * s / d
step_wide j s d one less =
    (le-div_iff_mul-le {x = j * s / d + 1} {y = (j + 1) * s} one).1 (grind arith)

-- The place that is read lies before the end of the source.
before_end : (e d j : ℕ) → d ≤ e → j < d → j * max 1 (e - 1) / max 1 (d - 1) + 1 ≤ e
before_end zero d j small less = absurd (omega arith)
before_end (suc zero) d zero small less = omega (arith, no_steps 1 (max 1 (d - 1)))
before_end (suc zero) d (suc j) small less = absurd (omega arith)
before_end (suc (suc e)) d j small less =
    let most = steps_most j (max 1 (suc (suc e) - 1)) (max 1 (d - 1)) (omega arith) (omega arith) in
    omega (arith, most)

least_pos : (u v : ℕ) → min_ℤ (pos u) (pos v) ≡ pos (min u v)
least_pos u v = ground arith

end_of_next : (a : Axis) (x : ℕ) → src_end_at a x ≡ min_ℤ (src_at a (x + 1)) (pos a.in_size)
unfolding src_end_at src_at
end_of_next a x = refl

pub src_end_at-steps :
    (a : Axis) (j : ℕ)
    → AxisIsSmall a
    → j < a.drawn
    → src_end_at a (a.start + j) ≡ pos (min (a.first + steps_at a (j + 1)) a.in_size)
src_end_at-steps a j small less =
    let next : a.start + j + 1 ≡ a.start + (j + 1) = omega arith in
    end_of_next a (a.start + j)
    ∙ ap (λ (x : ℕ). min_ℤ (src_at a x) (pos a.in_size)) next
    ∙ ap (λ (v : ℤ). min_ℤ v (pos a.in_size)) (src_at-steps a (j + 1) small (omega arith))
    ∙ least_pos (a.first + steps_at a (j + 1)) a.in_size

-- How far the box of a column goes.
abbrev side : Axis → ℕ → ℕ
side a j = min (a.first + steps_at a (j + 1)) a.in_size - (a.first + steps_at a j)

side_lem :
    (a : Axis) (j : ℕ)
    → a.drawn ≤ a.extent
    → a.first + a.extent ≤ a.in_size
    → j < a.drawn
    → 1 ≤ side a j
side_lem a j small fits less =
    let wide = step_wide j (in_steps a) (out_steps a) (omega arith) (omega arith) in
    let inside = before_end a.extent a.drawn j small less in omega (arith, wide, inside)

-- An axis that is scaled down, or kept, in sides of 32767 at most.
abbrev pub Shrinks : Axis → Type 0
Shrinks a =
    (AxisIsSmall a × IsSide a.in_size) × ((a.drawn ≤ a.extent) × (a.first + a.extent ≤ a.in_size))

-- What `kdl` divides by is the length of the box.
side_size :
    (a : Axis) (j : ℕ)
    → Shrinks a
    → j < a.drawn
    → int_sub (src_end_at a (a.start + j)) (src_at a (a.start + j)) ≡ pos (side a j)
side_size a j ((small, side), (shrinks, fits)) less =
    let one = side_lem a j shrinks fits less in
    rw (src_end_at-steps a j small less, src_at-steps a j small (omega arith))
      (int_sub-pos (min (a.first + steps_at a (j + 1)) a.in_size) (a.first + steps_at a j)
        (omega arith) (omega arith))

pub box_size_lem :
    (across down : Axis) (i j : ℕ)
    → Shrinks across
    → Shrinks down
    → i < across.drawn
    → j < down.drawn
    → pos 1 ≤ℤ box_size across down (across.start + i) (down.start + j)
unfolding box_size
box_size_lem across down i j p r h k =
    let ((_, wide), (shrinks, fits)) = p in
    let ((_, high), (reduces, holds)) = r in
    let one = side_lem across i shrinks fits h in
    let two = side_lem down j reduces holds k in
    rw
      (
        side_size across i p h,
        side_size down j r k,
        int_mul-pos (side across i) (side down j) (omega arith) (omega arith),
      )
      (grind arith)
