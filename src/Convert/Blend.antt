-- ===== src/Convert/Blend.antt =====
-- Scaling up in VCamUtils/src/videoconverter.cpp: the template `blend`, and the weights that
-- `configureScaling` gives it.
use native.Mathlib.Nat.{le-div_iff_mul-le, div-le_of_le-mul, pow-suc, one-le-pow}
use akvirtualcamera.Base.{ℕ, suc, ◌+◌, ◌-◌, ◌*◌, ◌/◌, ◌^◌, ◌≤◌, ◌≡◌, arith, refl, ap, ◌∙◌}
use akvirtualcamera.Base.Int.{
  ℤ, pos, negsuc, ◌+ℤ◌, ◌-ℤ◌, ◌*ℤ◌, ◌≤ℤ◌, +ℤ_parts, -ℤ_parts, eq_of_parts, pos_part, neg_part,
}
use akvirtualcamera.Color.{shift_right}
use akvirtualcamera.Color.Nearest.{times_pos}

-- `blend<N>`: a pixel, its neighbours to the right and below, and their weights.
unfoldable pub blend : ℕ → ℤ → ℤ → ℤ → ℤ → ℤ → ℤ
unfolding shift_right
blend n a bx by kx ky =
    shift_right (kx *ℤ (bx -ℤ a) +ℤ ky *ℤ (by -ℤ a) +ℤ a *ℤ pos (2 ^ (n + 1))) (n + 1)

-- The same in numbers: what each pixel is worth, together `s`.
abbrev pub mixed : ℕ → ℕ → ℕ → ℕ → ℕ → ℕ → ℕ
mixed s a bx by kx ky = kx * bx + ky * by + a * (s - (kx + ky))

times_parts :
    (k : ℕ) (z : ℤ)
    → pos_part (pos k *ℤ z) + k * neg_part z ≡ neg_part (pos k *ℤ z) + k * pos_part z
unfolding ◌*ℤ◌
times_parts k (pos b) = ground arith
times_parts k (negsuc b) = ground arith

pub expand : (k p q : ℕ) → k * (p + q) ≡ k * p + k * q
expand k p q = grind arith

pub times_mono : (k b c : ℕ) → b ≤ c → k * b ≤ k * c
times_mono k b c less = grind arith

times_sum : (k p q m n : ℕ) → p + q ≡ m + n → k * p + k * q ≡ k * m + k * n
times_sum k p q m n e =
    let same = ap (λ (v : ℕ). k * v) e in omega (arith, expand k p q, expand k m n, same)

times_difference :
    (k b a : ℕ)
    → pos_part (pos k *ℤ (pos b -ℤ pos a)) + k * a ≡ neg_part (pos k *ℤ (pos b -ℤ pos a)) + k * b
times_difference k b a =
    let d = pos b -ℤ pos a in
    let parts = -ℤ_parts (pos b) (pos a) in
    let scaled = times_sum k (pos_part d) a (neg_part d) b (omega (arith, parts)) in
    omega (arith, scaled, times_parts k d)

-- The pixel keeps what its neighbours do not take.
kept : (s a k : ℕ) → k ≤ s → a * s ≡ a * (s - k) + a * k
kept s a k less = grind arith

blend-mixed :
    (s a bx by kx ky : ℕ)
    → kx + ky ≤ s
    → pos kx *ℤ (pos bx -ℤ pos a) +ℤ pos ky *ℤ (pos by -ℤ pos a) +ℤ pos a *ℤ pos s
      ≡ pos (mixed s a bx by kx ky)
blend-mixed s a bx by kx ky less =
    let x = pos kx *ℤ (pos bx -ℤ pos a) in
    let y = pos ky *ℤ (pos by -ℤ pos a) in
    let whole : a * s ≡ a * (s - (kx + ky)) + (kx * a + ky * a) =
      kept s a (kx + ky) less ∙ grind arith in
    rw (times_pos a s) (
      eq_of_parts (x +ℤ y +ℤ pos (a * s)) (pos (mixed s a bx by kx ky)) (
        omega (
          arith,
          +ℤ_parts x y,
          +ℤ_parts (x +ℤ y) (pos (a * s)),
          times_difference kx bx a,
          times_difference ky by a,
          whole,
        )))

-- A bound of all three, shared out in the same way.
pub shares : (s b kx ky : ℕ) → kx + ky ≤ s → s * b ≡ kx * b + ky * b + b * (s - (kx + ky))
shares s b kx ky less =
    let turned : s * b ≡ b * s = grind arith in
    let parts : b * (kx + ky) ≡ kx * b + ky * b = grind arith in
    omega (arith, turned, parts, kept s b (kx + ky) less)

module _ (s a bx by kx ky bound : ℕ) (less : kx + ky ≤ s) where
  pub mixed_most : a ≤ bound → bx ≤ bound → by ≤ bound → mixed s a bx by kx ky ≤ s * bound
  mixed_most p q r =
      let rest : a * (s - (kx + ky)) ≤ bound * (s - (kx + ky)) = grind arith in
      omega
        (arith, shares s bound kx ky less, times_mono kx bx bound q, times_mono ky by bound r, rest)

  pub mixed_least : bound ≤ a → bound ≤ bx → bound ≤ by → s * bound ≤ mixed s a bx by kx ky
  mixed_least p q r =
      let rest : bound * (s - (kx + ky)) ≤ a * (s - (kx + ky)) = grind arith in
      omega
        (arith, shares s bound kx ky less, times_mono kx bound bx q, times_mono ky bound by r, rest)

-- `blend` of pixels, in numbers.
pub blend-quotient :
    (n a bx by kx ky : ℕ)
    → kx + ky ≤ 2 ^ (n + 1)
    → blend n (pos a) (pos bx) (pos by) (pos kx) (pos ky)
      ≡ pos (mixed (2 ^ (n + 1)) a bx by kx ky / 2 ^ (n + 1))
unfolding blend shift_right
blend-quotient n a bx by kx ky less = rw (blend-mixed (2 ^ (n + 1)) a bx by kx ky less) refl

pub quotient_between :
    (v s low high : ℕ) → 1 ≤ s → s * low ≤ v → v ≤ s * high → (low ≤ v / s) × (v / s ≤ high)
quotient_between v s low high one least most =
    ((le-div_iff_mul-le {x = low} {y = v} one).1 (grind arith), div-le_of_le-mul s most)

next_power : (m : ℕ) → 2 ^ (m + 1) ≡ 2 * 2 ^ m
next_power m =
    let next : m + 1 ≡ suc m = omega arith in
    ap (λ (v : ℕ). 2 ^ v) next ∙ omega (arith, pow-suc 2 m)

-- With weights of 2 ^ n at most a blended value lies between the least and the greatest of the three
-- pixels that are blended.
pub blend-between :
    (n a bx by kx ky low high : ℕ)
    → kx ≤ 2 ^ n
    → ky ≤ 2 ^ n
    → (low ≤ a) × (low ≤ bx) × (low ≤ by)
    → (a ≤ high) × (bx ≤ high) × (by ≤ high)
    → let v = blend n (pos a) (pos bx) (pos by) (pos kx) (pos ky) in
      (pos low ≤ℤ v) × (v ≤ℤ pos high)
blend-between n a bx by kx ky low high h k (p, q, r) (t, u, w) =
    let size : 2 ^ (n + 1) ≡ 2 * 2 ^ n = next_power n in
    let one : 1 ≤ 2 ^ (n + 1) = omega (arith, size, one-le-pow n 2) in
    let less : kx + ky ≤ 2 ^ (n + 1) = omega (arith, size) in
    let (least, most) =
      quotient_between (mixed (2 ^ (n + 1)) a bx by kx ky) (2 ^ (n + 1)) low high one
        (mixed_least (2 ^ (n + 1)) a bx by kx ky low less p q r)
        (mixed_most (2 ^ (n + 1)) a bx by kx ky high less t u w) in
    rw (blend-quotient n a bx by kx ky less) (omega (arith, least), omega (arith, most))
