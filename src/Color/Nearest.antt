-- ===== src/Color/Nearest.antt =====
-- `roundedDiv` rounds to the nearest integer and `nearestPowOf2` to the nearest power of two.
use native.Mathlib.Nat.{pow-suc, one-le-pow}
use akvirtualcamera.Base.{
  ℕ, zero, suc, ◌+◌, ◌*◌, ◌/◌, ◌^◌, ◌≤◌, ◌<◌, ◌≡◌, arith, refl, ◌⊎◌, ◌≢◌, inl, inr,
}
use akvirtualcamera.Base.Int.{ℤ, pos, negsuc, ◌+ℤ◌, ◌-ℤ◌, ◌*ℤ◌, div_ℤ, magnitude, neg_ℤ}
use akvirtualcamera.Color.Rounding.{rounded_div, halvings, nearest_pow_of_2, distance}

-- Half of the divisor is added, and the quotient cut.
abbrev pub half_up : ℕ → ℕ → ℕ
half_up a b = (2 * a + suc b) / (2 * suc b)

pub half_up_lem :
    (a b : ℕ)
    → (2 * (half_up a b * suc b) ≤ 2 * a + suc b) × (2 * a ≤ 2 * (half_up a b * suc b) + suc b)
half_up_lem a b = grind arith

-- Of numbers that are not negative.
pub rounded_div_pos :
    (a b : ℕ) → rounded_div (pos a) (pos (suc b)) ≡ pos ((2 * a + suc b) / (2 * suc b))
unfolding rounded_div ◌*ℤ◌ ◌+ℤ◌ ◌-ℤ◌ div_ℤ
rounded_div_pos a b = ground arith

half_up_zero : (b : ℕ) → half_up 0 b ≡ 0
half_up_zero b = grind (arith, half_up_lem 0 b)

rounded_div_pos_neg : (a b : ℕ) → rounded_div (pos a) (negsuc b) ≡ neg_ℤ (pos (half_up a b))
unfolding rounded_div ◌*ℤ◌ ◌+ℤ◌ ◌-ℤ◌ div_ℤ
rounded_div_pos_neg zero b = ground (arith, half_up_zero b)
rounded_div_pos_neg (suc a) b = ground arith

rounded_div_neg_pos :
    (a b : ℕ) → rounded_div (negsuc a) (pos (suc b)) ≡ neg_ℤ (pos (half_up (suc a) b))
unfolding rounded_div ◌*ℤ◌ ◌+ℤ◌ ◌-ℤ◌ div_ℤ
rounded_div_neg_pos a b = ground arith

rounded_div_neg_neg : (a b : ℕ) → rounded_div (negsuc a) (negsuc b) ≡ pos (half_up (suc a) b)
unfolding rounded_div ◌*ℤ◌ ◌+ℤ◌ ◌-ℤ◌ div_ℤ
rounded_div_neg_neg a b = ground arith

-- The product of the quotient and the divisor, by their signs.
times_neg_neg : (q b : ℕ) → neg_ℤ (pos q) *ℤ negsuc b ≡ pos (q * suc b)
unfolding ◌*ℤ◌
times_neg_neg zero b = ground arith
times_neg_neg (suc q) b = ground arith

times_neg_pos : (q b : ℕ) → neg_ℤ (pos q) *ℤ pos b ≡ neg_ℤ (pos (q * b))
unfolding ◌*ℤ◌
times_neg_pos zero b = ground arith
times_neg_pos (suc q) b = ground arith

times_pos_neg : (q b : ℕ) → pos q *ℤ negsuc b ≡ neg_ℤ (pos (q * suc b))
unfolding ◌*ℤ◌
times_pos_neg q b = ground arith

pub times_pos : (q b : ℕ) → pos q *ℤ pos b ≡ pos (q * b)
unfolding ◌*ℤ◌
times_pos q b = ground arith

near_pos : (a p d : ℕ) → 2 * p ≤ 2 * a + d → 2 * a ≤ 2 * p + d → 2 * magnitude (pos a -ℤ pos p) ≤ d
unfolding ◌-ℤ◌
near_pos a p d h k = ground arith

near_neg :
    (a p d : ℕ)
    → 2 * p ≤ 2 * suc a + d
    → 2 * suc a ≤ 2 * p + d
    → 2 * magnitude (negsuc a -ℤ neg_ℤ (pos p)) ≤ d
unfolding ◌-ℤ◌
near_neg a p d h k = ground arith

-- `roundedDiv` is at most half a divisor away from the exact quotient, of either sign.
pub rounded_div-nearest :
    (num den : ℤ) → den ≢ pos 0 → 2 * magnitude (num -ℤ rounded_div num den *ℤ den) ≤ magnitude den
rounded_div-nearest num (pos zero) h = absurd (h refl)
rounded_div-nearest (pos a) (pos (suc b)) h =
    let (k, l) = half_up_lem a b in
    rw (rounded_div_pos a b, times_pos (half_up a b) (suc b))
      (omega (arith, near_pos a (half_up a b * suc b) (suc b) k l))
rounded_div-nearest (pos a) (negsuc b) h =
    let (k, l) = half_up_lem a b in
    rw (rounded_div_pos_neg a b, times_neg_neg (half_up a b) b)
      (omega (arith, near_pos a (half_up a b * suc b) (suc b) k l))
rounded_div-nearest (negsuc a) (pos (suc b)) h =
    let (k, l) = half_up_lem (suc a) b in
    rw (rounded_div_neg_pos a b, times_neg_pos (half_up (suc a) b) (suc b))
      (omega (arith, near_neg a (half_up (suc a) b * suc b) (suc b) k l))
rounded_div-nearest (negsuc a) (negsuc b) h =
    let (k, l) = half_up_lem (suc a) b in
    rw (rounded_div_neg_neg a b, times_pos_neg (half_up (suc a) b) b)
      (omega (arith, near_neg a (half_up (suc a) b * suc b) (suc b) k l))

halvings_zero : (fuel : ℕ) → halvings fuel 0 ≡ 0
unfolding halvings
halvings_zero zero = refl
halvings_zero (suc fuel) = refl

-- The loop counts to the highest bit that is set.
pub halvings_log :
    (fuel val : ℕ)
    → val < suc fuel
    → 1 ≤ val
    → (2 ^ halvings fuel val ≤ val) × (val < 2 * 2 ^ halvings fuel val)
unfolding halvings
halvings_log zero val h k = absurd (omega arith)
halvings_log (suc fuel) val h k =
    ground (arith, halvings_log fuel (val / 2), pow-suc 2 (halvings fuel (val / 2)))

-- Two powers are equal, or one is at least twice the other.
power_gap : (n k : ℕ) → (2 ^ k ≤ 2 ^ n) ⊎ (2 * 2 ^ n ≤ 2 ^ k)
power_gap n zero = inl (omega (arith, one-le-pow n 2))
power_gap zero (suc k) = inr (omega (arith, one-le-pow k 2, pow-suc 2 k))
power_gap (suc n) (suc k) = ground (arith, power_gap n k, pow-suc 2 n, pow-suc 2 k)

-- No power of two is nearer to a value than its `nearestPowOf2`.
pub nearest_pow_of_2-nearest :
    (value k : ℕ) → 1 ≤ value → distance (nearest_pow_of_2 value) value ≤ distance (2 ^ k) value
unfolding nearest_pow_of_2
nearest_pow_of_2-nearest value k h =
    let (low, high) = halvings_log value value (omega arith) h in
    ground (arith, low, high, power_gap (halvings value value) k, pow-suc 2 (halvings value value))
