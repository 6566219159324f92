-- ===== src/Color/Depth.antt =====
-- How a channel that changes only its bits is scaled by VCamUtils/src/colorconvert.cpp.
use native.Mathlib.Nat.{pow-suc, one-le-pow, pow-le-pow_right, div-eq_of_lt-le}
use akvirtualcamera.Base.{
  ℕ, zero, suc, ◌+◌, ◌*◌, ◌/◌, ◌-◌, ◌^◌, ◌≤◌, ◌<◌, ◌≡◌, arith, refl, ap, ◌∙◌,
}
use akvirtualcamera.Base.Int.{pos, ◌+ℤ◌, ◌*ℤ◌, int64-pos}
use akvirtualcamera.Color.{shift_right, row_of_one}
use akvirtualcamera.Color.Rounding.{rounded_div}
use akvirtualcamera.Color.Swing.{max_of}
use akvirtualcamera.Color.Matrix.{one_shifted, half_shifted, top, div64}
use akvirtualcamera.Color.Nearest.{rounded_div_pos, half_up_lem, times_pos}

-- The factor between values of `from` and of `to` bits, and a value that it scales.
abbrev factor : ℕ → ℕ → ℕ → ℕ
factor from to shift = (2 * (2 ^ shift * max_of to) + max_of from) / (2 * max_of from)

abbrev pub scale : ℕ → ℕ → ℕ → ℕ → ℕ
scale from to shift p = (p * factor from to shift + 2 ^ (shift - 1)) / 2 ^ shift

-- A factor `k` that is `2 * h * x / a` up to one half.
scaled_top :
    (a k h x : ℕ)
    → 1 ≤ h
    → a < 2 * h
    → 2 * (k * a) ≤ 2 * (2 * h * x) + a
    → 2 * (2 * h * x) ≤ 2 * (k * a) + a
    → (a * k + h) / (2 * h) ≡ x
scaled_top a k h x one small most least = div-eq_of_lt-le (2 * h) (grind arith) (grind arith)

scaled_mono : (p q k h : ℕ) → p ≤ q → (p * k + h) / (2 * h) ≤ (q * k + h) / (2 * h)
scaled_mono p q k h less = grind arith

scaled_zero : (k h : ℕ) → 1 ≤ h → (0 * k + h) / (2 * h) ≡ 0
scaled_zero k h one = grind arith

-- What the shifts are made of.
pub record Shifted (from shift : ℕ) : Type 0 where
  pub has_half : 1 ≤ 2 ^ (shift - 1)
  pub twice : 2 ^ shift ≡ 2 * 2 ^ (shift - 1)
  pub most : max_of from < 2 ^ shift
  pub some_value : 1 ≤ max_of from

half_power : (shift : ℕ) → 2 ^ (suc shift - 1) ≡ 2 ^ shift
half_power shift = ap (λ (n : ℕ). 2 ^ n) (less_one shift)
  where
    less_one : (n : ℕ) → suc n - 1 ≡ n
    less_one n = omega arith

pub shifted : (from shift : ℕ) → 1 ≤ from → from ≤ shift → Shifted from shift
shifted zero shift h k = absurd (omega arith)
shifted (suc from) zero h k = absurd (omega arith)
shifted (suc from) (suc shift) h k = record {
  has_half = omega (arith, half_power shift, one-le-pow shift 2);
  twice = omega (arith, half_power shift, pow-suc 2 shift);
  most = omega (arith, pow-le-pow_right {n = 2} (omega arith) k, one-le-pow (suc from) 2);
  some_value = omega (arith, pow-suc 2 from, one-le-pow from 2);
}

rounds_near :
    (n d : ℕ)
    → 1 ≤ d
    → let k = (2 * n + d) / (2 * d) in (2 * (k * d) ≤ 2 * n + d) × (2 * n ≤ 2 * (k * d) + d)
rounds_near n (suc b) one = half_up_lem n b
rounds_near n zero one = absurd (omega arith)

pub rounded_div_of : (n d : ℕ) → 1 ≤ d → rounded_div (pos n) (pos d) ≡ pos ((2 * n + d) / (2 * d))
rounded_div_of n zero one = absurd (omega arith)
rounded_div_of n (suc b) one = rounded_div_pos n b

factor_same : (s a : ℕ) → 1 ≤ a → (2 * (s * a) + a) / (2 * a) ≡ s
factor_same s a one = div-eq_of_lt-le (2 * a) (grind arith) (grind arith)

whole_kept : (p s h : ℕ) → h < s → (p * s + h) / s ≡ p
whole_kept p s h less = div-eq_of_lt-le s (grind arith) (grind arith)

pub plus_pos : (a b : ℕ) → pos a +ℤ pos b ≡ pos (a + b)
unfolding ◌+ℤ◌
plus_pos a b = ground arith

pub power_most : (n : ℕ) → n ≤ 30 → 2 ^ n ≤ 2 ^ 30
power_most n small = pow-le-pow_right {n = 2} (omega arith) small

pub product_most : (a b : ℕ) → a ≤ 2 ^ 30 → b ≤ 2 ^ 30 → a * b ≤ 2 ^ 60
product_most a b h k = grind arith

factor_mono : (p m k : ℕ) → p ≤ m → p * k ≤ k * m
factor_mono p m k less = grind arith

module _ (from to shift : ℕ) (has_bits : 1 ≤ from) (fits : from ≤ shift) where
  scale_as_half :
      (p : ℕ)
      → let h = 2 ^ (shift - 1) in scale from to shift p ≡ (p * factor from to shift + h) / (2 * h)
  scale_as_half p =
      let facts = shifted from shift has_bits fits in
      ap (λ (s : ℕ). (p * factor from to shift + 2 ^ (shift - 1)) / s) facts.twice

  pub scale_max : scale from to shift (max_of from) ≡ max_of to
  scale_max =
      let facts = shifted from shift has_bits fits in
      let (most, least) = rounds_near (2 ^ shift * max_of to) (max_of from) facts.some_value in
      let double : 2 ^ shift * max_of to ≡ 2 * 2 ^ (shift - 1) * max_of to =
        ap (λ (s : ℕ). s * max_of to) facts.twice in
      scale_as_half (max_of from)
      ∙ scaled_top (max_of from) (factor from to shift) (2 ^ (shift - 1)) (max_of to) facts.has_half
          (omega (arith, facts.most, facts.twice)) (omega (arith, most, double))
          (omega (arith, least, double))

  pub scale_zero : scale from to shift 0 ≡ 0
  scale_zero =
      scale_as_half 0
      ∙ scaled_zero (factor from to shift) (2 ^ (shift - 1))
          (shifted from shift has_bits fits).has_half

  pub scale_mono : (p q : ℕ) → p ≤ q → scale from to shift p ≤ scale from to shift q
  scale_mono p q less =
      let one = scale_as_half p in
      let other = scale_as_half q in
      let grows = scaled_mono p q (factor from to shift) (2 ^ (shift - 1)) less in
      omega (arith, one, other, grows)

  pub scale_at_most : (p : ℕ) → p ≤ max_of from → scale from to shift p ≤ max_of to
  scale_at_most p most = omega (arith, scale_max, scale_mono p (max_of from) most)

  -- Where the bits stay the same, so does the value.
  pub scale_same : (p : ℕ) → to ≡ from → scale from to shift p ≡ p
  scale_same p same =
      let facts = shifted from shift has_bits fits in
      let exact = factor_same (2 ^ shift) (max_of from) facts.some_value in
      let equal : factor from to shift ≡ 2 ^ shift =
        ap (λ (n : ℕ). (2 * (2 ^ shift * max_of n) + max_of from) / (2 * max_of from)) same
        ∙ exact in
      ap (λ (k : ℕ). (p * k + 2 ^ (shift - 1)) / 2 ^ shift) equal
      ∙ whole_kept p (2 ^ shift) (2 ^ (shift - 1)) (omega (arith, facts.has_half, facts.twice))

  -- A channel of the matrix and its application give a scaled value, up to 30 bits.
  pub channel :
      shift ≤ 30
      → to ≤ 30
      → (p : ℕ) → p ≤ max_of from
      → shift_right
          (row_of_one (div64 (one_shifted shift *ℤ top to) (top from)) (half_shifted shift) (pos p))
          shift
        ≡ pos (scale from to shift p)
  unfolding shift_right row_of_one
  channel small narrow p most =
      let facts = shifted from shift has_bits fits in
      let size = power_most shift small in
      let top_size = power_most to narrow in
      let n = 2 ^ shift * max_of to in
      let product : n ≤ 2 ^ 60 = product_most (2 ^ shift) (max_of to) size (omega arith) in
      let (near, _) = rounds_near n (max_of from) facts.some_value in
      let less = factor_mono p (max_of from) (factor from to shift) most in
      rw
        (
          times_pos (2 ^ shift) (max_of to),
          int64-pos n (omega arith),
          int64-pos (max_of from) (omega (arith, facts.most)),
          rounded_div_of n (max_of from) facts.some_value,
          times_pos p (factor from to shift),
          plus_pos (p * factor from to shift) (2 ^ (shift - 1)),
          int64-pos (p * factor from to shift + 2 ^ (shift - 1))
              (omega (arith, near, less, facts.most, facts.twice)),
        )
        refl
