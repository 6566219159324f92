-- ===== src/Convert/Weights.antt =====
-- The weights `kx` and `ky` that `configureScaling` of VCamUtils/src/videoconverter.cpp computes, and
-- what they make of a blend.
use native.Mathlib.Nat.{le-div_iff_mul-le, div-le_of_le-mul, div-add-mod'}
use akvirtualcamera.Base.{
  ℕ, ◌+◌, ◌-◌, ◌*◌, ◌/◌, ◌^◌, ◌≤◌, ◌<◌, ◌≡◌, arith, refl, ap, ◌∙◌, subst, if◌then◌else◌,
}
use akvirtualcamera.Base.Int.{ℤ, pos, div_ℤ, ◌≤ℤ◌, ltb_ℤ, pos_part}
use akvirtualcamera.Convert.Scaling.{int_add, int_sub, int_mul}
use akvirtualcamera.Convert.Exact.{IsSide, product_small, int_sub-pos, int_add-pos, int_mul-pos}
use akvirtualcamera.Convert.Tables.{
  Axis, in_steps, out_steps, src_to_dst, src_at, blend_weight, scale_emult,
}
use akvirtualcamera.Convert.Columns.{
  AxisIsSmall, int_difference, int_sum, steps_most, src_at-steps, steps_at, divided, quotient_after,
}
use akvirtualcamera.Convert.Blend.{blend, blend-quotient, mixed, times_mono, expand, shares}

-- Where a step of the source is drawn.
abbrev drawn_at : Axis → ℕ → ℕ
drawn_at a q = a.start + q * out_steps a / in_steps a

src_to_dst-steps :
    (a : Axis) (q : ℕ)
    → AxisIsSmall a
    → IsSide q
    → src_to_dst a (pos (a.first + q)) ≡ pos (drawn_at a q)
unfolding src_to_dst
src_to_dst-steps a q (h, k) side =
    rw
      (
        int_difference a.first q side,
        int_sum q (out_steps a) a.start (in_steps a) side (omega arith) (omega arith) (omega arith),
        divided (q * out_steps a + a.start * in_steps a) (in_steps a),
      )
      (ap pos (quotient_after (q * out_steps a) a.start (in_steps a) (omega arith)))

quotient_most : (n d : ℕ) → 1 ≤ d → n / d ≤ n
quotient_most n d one = div-le_of_le-mul d (grind arith)

drawn_at_small : (a : Axis) (q : ℕ) → AxisIsSmall a → IsSide q → drawn_at a q < 2 ^ 31
drawn_at_small a q (h, k) side =
    let product = product_small q (out_steps a) side (omega arith) in
    let most = quotient_most (q * out_steps a) (in_steps a) (omega arith) in
    let less : q * out_steps a ≤ 2 ^ 30 = times_most q (out_steps a) side (omega arith) in
    omega arith
  where
    times_most : (m n : ℕ) → IsSide m → IsSide n → m * n ≤ 2 ^ 30
    times_most m n p q = grind arith

-- A place that is drawn lies between where its source pixel and the next one are drawn.
step_low : (j s d : ℕ) → 1 ≤ s → 1 ≤ d → j * s / d * d / s ≤ j
step_low j s d one two = div-le_of_le-mul s (grind (arith, div-add-mod' (j * s) d))

step_high : (j s d : ℕ) → 1 ≤ s → 1 ≤ d → j ≤ (j * s / d + 1) * d / s
step_high j s d one two = (le-div_iff_mul-le {x = j} {y = (j * s / d + 1) * d} one).1 (grind arith)

share : (u v : ℕ) → u ≤ v → scale_emult * u / v ≤ scale_emult
share u v less = div-le_of_le-mul v (grind arith)

-- The formula of a weight, for a place between two others.
abbrev weight_of : ℤ → ℤ → ℤ → ℤ
weight_of x low high =
    if ltb_ℤ low high
    then div_ℤ (int_mul (pos scale_emult) (int_sub x low)) (int_sub high low)
    else pos 0

weight_most :
    (x low high : ℕ)
    → IsSide x
    → high < 2 ^ 31
    → low ≤ x
    → x ≤ high
    → (pos 0 ≤ℤ weight_of (pos x) (pos low) (pos high))
      × (weight_of (pos x) (pos low) (pos high) ≤ℤ pos scale_emult)
weight_most x low high side small least most =
    rw
      (
        int_sub-pos x low least (omega arith),
        int_sub-pos high low (omega arith) small,
        int_mul-pos scale_emult (x - low) (omega arith) (omega arith),
        divided (scale_emult * (x - low)) (high - low),
      )
      (ground (arith, share (x - low) (high - low) (omega arith)))

weight_at :
    (a : Axis) (x : ℕ)
    → blend_weight a x
      ≡ weight_of (pos x) (src_to_dst a (src_at a x)) (src_to_dst a (int_add (src_at a x) (pos 1)))
unfolding blend_weight
weight_at a x = refl

weight_at_steps :
    (a : Axis) (j : ℕ)
    → AxisIsSmall a
    → j ≤ a.drawn
    → IsSide (steps_at a j + 1)
    → let q = steps_at a j in
      blend_weight a (a.start + j)
      ≡ weight_of (pos (a.start + j)) (pos (drawn_at a q)) (pos (drawn_at a (q + 1)))
weight_at_steps a j small less side =
    let q = steps_at a j in
    let next : pos (a.first + q + 1) ≡ pos (a.first + (q + 1)) = ap pos (omega arith) in
    weight_at a (a.start + j)
    ∙ rw
        (
          src_at-steps a j small less,
          int_add-pos (a.first + q) 1 (omega arith),
          next,
          src_to_dst-steps a q small (omega arith),
          src_to_dst-steps a (q + 1) small side,
        )
        refl

-- Of an axis whose source and whose drawing end at 32767 at most, the weight of each place that is drawn
-- is a number from 0 to 8.
pub blend_weight-bounds :
    (a : Axis) (j : ℕ)
    → AxisIsSmall a
    → j < a.drawn
    → (pos 0 ≤ℤ blend_weight a (a.start + j)) × (blend_weight a (a.start + j) ≤ℤ pos scale_emult)
blend_weight-bounds a j small less =
    let q = steps_at a j in
    let most = steps_most j (in_steps a) (out_steps a) (omega arith) (omega arith) in
    let (extent, drawn) = small in
    let side : IsSide (q + 1) = omega arith in
    let low = step_low j (in_steps a) (out_steps a) (omega arith) (omega arith) in
    let high = step_high j (in_steps a) (out_steps a) (omega arith) (omega arith) in
    rw (weight_at_steps a j small (omega arith) side) (
      weight_most (a.start + j) (drawn_at a q) (drawn_at a (q + 1)) (omega arith)
        (drawn_at_small a (q + 1) small side) (omega (arith, low)) (omega (arith, high)))

part_gained : (k a b d : ℕ) → k ≤ scale_emult → b ≤ a + d → k * b ≤ k * a + 8 * d
part_gained k a b d h less =
    let all = times_mono k b (a + d) less in
    let most : k * d ≤ 8 * d = grind arith in omega (arith, all, expand k a d, most)

gained :
    (a bx by kx ky d : ℕ)
    → kx ≤ scale_emult
    → ky ≤ scale_emult
    → bx ≤ a + d
    → by ≤ a + d
    → mixed 512 a bx by kx ky ≤ 512 * a + 16 * d
gained a bx by kx ky d h k p q =
    omega (
      arith,
      part_gained kx a bx d h p,
      part_gained ky a by d k q,
      shares 512 a kx ky (omega arith),
    )

gain_most :
    (p bx by kx ky d : ℕ)
    → kx ≤ scale_emult
    → ky ≤ scale_emult
    → bx ≤ p + d
    → by ≤ p + d
    → blend scale_emult (pos p) (pos bx) (pos by) (pos kx) (pos ky) ≤ℤ pos (p + d / 32)
gain_most p bx by kx ky d h k q r =
    rw (blend-quotient scale_emult p bx by kx ky (omega arith))
      (omega (arith, gained p bx by kx ky d h k q r))

from_zero :
    (v : ℤ) (n : ℕ) → (pos 0 ≤ℤ v) × (v ≤ℤ pos n) → (pos (pos_part v) ≡ v) × (pos_part v ≤ n)
from_zero v n (least, most) = (ground arith, ground arith)

-- A pixel that is blended by the weights of its column and its row, of axes whose source and whose
-- drawing end at 32767 at most, with neighbours that are `d` greater
-- at most, gains one thirty-second of `d` at most: the two weights are parts of 512, of which they make
-- 16.
pub blend-gain :
    (across down : Axis) (i j p bx by d : ℕ)
    → AxisIsSmall across
    → AxisIsSmall down
    → i < across.drawn
    → j < down.drawn
    → bx ≤ p + d
    → by ≤ p + d
    → blend scale_emult
        (pos p)
        (pos bx)
        (pos by)
        (blend_weight across (across.start + i))
        (blend_weight down (down.start + j))
      ≤ℤ pos (p + d / 32)
blend-gain across down i j p bx by d h k in_x in_y q r =
    let kx = blend_weight across (across.start + i) in
    let ky = blend_weight down (down.start + j) in
    let (same_x, most_x) = from_zero kx scale_emult (blend_weight-bounds across i h in_x) in
    let (same_y, most_y) = from_zero ky scale_emult (blend_weight-bounds down j k in_y) in
    subst (λ (v : ℤ). blend scale_emult (pos p) (pos bx) (pos by) v ky ≤ℤ pos (p + d / 32)) same_x
      (subst
        (λ (v : ℤ).
          blend scale_emult (pos p) (pos bx) (pos by) (pos (pos_part kx)) v ≤ℤ pos (p + d / 32))
        same_y (gain_most p bx by (pos_part kx) (pos_part ky) d most_x most_y q r))
