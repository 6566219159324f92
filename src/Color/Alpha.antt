-- ===== src/Color/Alpha.antt =====
-- Blending with an alpha: `loadAlphaRgbMatrix` and `loadAlphaGrayMatrix` of
-- VCamUtils/src/colorconvert.cpp with `applyAlpha`.
use native.Mathlib.Nat.{pow-suc, one-le-pow, div-eq_of_lt-le, div-eq_of_lt}
use akvirtualcamera.Base.{
  ℕ, zero, suc, ◌+◌, ◌*◌, ◌/◌, ◌-◌, ◌^◌, ◌≤◌, ◌<◌, ◌≡◌, arith, refl, ap, ◌∙◌, sym, subst, leb, ltb,
  ◌%◌, ◌⊎◌, inl, inr, Bool-cases, if◌then◌else◌,
}
use akvirtualcamera.Base.Int.{pos, negsuc, ◌+ℤ◌, ◌*ℤ◌, wrap_int, int64-pos}
use akvirtualcamera.Color.{
  ColorConvert, alpha_row, abc2xyz, shift_right, bound, alpha_value, apply_alpha, apply_alpha_point,
}
use akvirtualcamera.Color.Rounding.{rounded_div}
use akvirtualcamera.Color.Swing.{max_of}
use akvirtualcamera.Color.Matrix.{
  load_alpha_rgb_matrix, load_alpha_gray_matrix, load_abc2xyz_matrix,
}
use akvirtualcamera.Color.Load.{Bits, load_alpha_matrix, load_color_matrix}
use akvirtualcamera.Color.Nearest.{times_pos}
use akvirtualcamera.Color.Depth.{power_most, product_most, rounded_div_of, plus_pos, shifted}
use akvirtualcamera.Video.Spec.{vft_rgb, vft_gray}

-- A value of `n` bits, opaque: it is lowered by one above the middle.
abbrev pub lowered : ℕ → ℕ → ℕ
lowered n x = if leb x (2 ^ (n - 1)) then x else x - 1

opaque_low : (a h x : ℕ) → a + 1 ≡ 2 * h → x ≤ h → (a * x + h) / (a + 1) ≡ x
opaque_low a h x e low = div-eq_of_lt-le (a + 1) (grind arith) (grind arith)

opaque_high : (a h y : ℕ) → a + 1 ≡ 2 * h → h ≤ y → y + 1 ≤ a → (a * (y + 1) + h) / (a + 1) ≡ y
opaque_high a h y e high most = div-eq_of_lt-le (a + 1) (grind arith) (grind arith)

opaque_plain :
    (a h x : ℕ) → a + 1 ≡ 2 * h → x ≤ a → (a * x + h) / (a + 1) ≡ (if leb x h then x else x - 1)
opaque_plain a h zero e less = ground (arith, opaque_low a h 0 e)
opaque_plain a h (suc y) e less = ground (arith, opaque_low a h (suc y) e, opaque_high a h y e)

factor_one : (n : ℕ) → 2 ≤ n → rounded_div (pos (2 ^ n)) (pos (max_of n)) ≡ pos 1
factor_one zero h = absurd (omega arith)
factor_one (suc zero) h = absurd (omega arith)
factor_one (suc (suc n)) h =
    let size : 4 ≤ 2 ^ suc (suc n) =
      omega (arith, pow-suc 2 (suc n), pow-suc 2 n, one-le-pow n 2) in
    let quotient : (2 * 2 ^ suc (suc n) + max_of (suc (suc n))) / (2 * max_of (suc (suc n))) ≡ 1 =
      div-eq_of_lt-le (2 * max_of (suc (suc n))) (omega arith) (omega arith) in
    rounded_div_of (2 ^ suc (suc n)) (max_of (suc (suc n))) (omega arith) ∙ ap pos quotient

alpha_pos :
    (k h n x a : ℕ)
    → a * (x * k + 0) + h < 2 ^ 63
    → alpha_value (alpha_row (pos k) (pos 0) (pos h)) n (pos x) (pos a)
      ≡ pos ((a * (x * k + 0) + h) / 2 ^ n)
unfolding alpha_value shift_right
alpha_pos k h n x a small =
    rw
      (
        times_pos x k,
        plus_pos (x * k) 0,
        times_pos a (x * k + 0),
        plus_pos (a * (x * k + 0)) h,
        int64-pos (a * (x * k + 0) + h) small,
      )
      refl

opaque_value :
    (n x : ℕ) → 2 ≤ n → x ≤ max_of n → (max_of n * (x * 1 + 0) + 2 ^ (n - 1)) / 2 ^ n ≡ lowered n x
opaque_value n x two most =
    let facts = shifted n n (omega arith) (omega arith) in
    let whole : max_of n + 1 ≡ 2 ^ n = omega (arith, facts.most) in
    let double : max_of n + 1 ≡ 2 * 2 ^ (n - 1) = omega (arith, whole, facts.twice) in
    let plain : x * 1 + 0 ≡ x = omega arith in
    ap (λ (v : ℕ). (max_of n * v + 2 ^ (n - 1)) / 2 ^ n) plain
    ∙ ap (λ (v : ℕ). (max_of n * x + 2 ^ (n - 1)) / v) (sym whole)
    ∙ opaque_plain (max_of n) (2 ^ (n - 1)) x double most

transparent_value : (h n x : ℕ) → h < 2 ^ n → (0 * (x * 1 + 0) + h) / 2 ^ n ≡ 0
transparent_value h n x less = div-eq_of_lt (omega arith)

bound_kept : (n v : ℕ) → v ≤ max_of n → bound (pos 0) (pos v) (pos (max_of n)) ≡ pos v
unfolding bound
bound_kept n v most = ground arith

abbrev equal_bits : ℕ → Bits
equal_bits n = record { first = n; second = n; third = n }

-- A converter between two formats of red, green and blue, with `n` bits for each channel and alpha.
abbrev pub rgb_with_alpha : ℕ → Bits → ColorConvert → ColorConvert
rgb_with_alpha n i m =
    load_alpha_matrix vft_rgb n (equal_bits n) (load_color_matrix abc2xyz i (equal_bits n) m)

alpha_small : (a x h : ℕ) → a ≤ 2 ^ 30 → x ≤ 2 ^ 30 → h ≤ 2 ^ 30 → a * (x * 1 + 0) + h < 2 ^ 63
alpha_small a x h p q r = let product = product_most a (x * 1 + 0) p (omega arith) in omega arith

blended :
    (n : ℕ) (i : Bits) (m : ColorConvert) (x y z a u v w : ℕ)
    → (2 ≤ n) × (n ≤ 30) × (a ≤ max_of n)
    → (x ≤ max_of n) × (y ≤ max_of n) × (z ≤ max_of n)
    → (u ≤ max_of n) × (v ≤ max_of n) × (w ≤ max_of n)
    → (let h = 2 ^ (n - 1) in
        ((a * (x * 1 + 0) + h) / 2 ^ n ≡ u)
        × ((a * (y * 1 + 0) + h) / 2 ^ n ≡ v)
        × ((a * (z * 1 + 0) + h) / 2 ^ n ≡ w))
    → apply_alpha (rgb_with_alpha n i m) (pos x) (pos y) (pos z) (pos a) ≡ (pos u, pos v, pos w)
unfolding apply_alpha load_alpha_matrix load_alpha_rgb_matrix load_color_matrix load_abc2xyz_matrix
blended n i m x y z a u v w (two, few, opaque) (s, t, k) (p, q, r) (e, f, g) =
    let h = 2 ^ (n - 1) in
    let size = power_most n few in
    let half = power_most (n - 1) (omega arith) in
    let small = λ (c : ℕ) (d : c ≤ max_of n). alpha_small a c h (omega arith) (omega arith) half in
    rw
      (
        factor_one n two,
        alpha_pos 1 h n x a (small x s),
        alpha_pos 1 h n y a (small y t),
        alpha_pos 1 h n z a (small z k),
        e,
        f,
        g,
        bound_kept n u p,
        bound_kept n v q,
        bound_kept n w r,
      )
      refl

-- With as many bits of alpha as of each channel, from two to thirty: where alpha is 0 the pixel becomes
-- black, and where it is the greatest each channel above the middle loses one.
pub rgb_with_alpha_lem :
    (n : ℕ) (i : Bits) (m : ColorConvert) (x y z : ℕ)
    → 2 ≤ n
    → n ≤ 30
    → x ≤ max_of n
    → y ≤ max_of n
    → z ≤ max_of n
    → let loaded = rgb_with_alpha n i m in
      (apply_alpha loaded (pos x) (pos y) (pos z) (pos 0) ≡ (pos 0, pos 0, pos 0))
      × (apply_alpha loaded (pos x) (pos y) (pos z) (pos (max_of n))
          ≡ (pos (lowered n x), pos (lowered n y), pos (lowered n z)))
rgb_with_alpha_lem n i m x y z two few p q r =
    let facts = shifted n n (omega arith) (omega arith) in
    let half : 2 ^ (n - 1) < 2 ^ n = omega (arith, facts.twice, facts.has_half) in
    let none = λ (v : ℕ). transparent_value (2 ^ (n - 1)) n v half in
    (
      blended n i m x y z 0 0 0 0 (two, few, omega arith) (p, q, r)
          (omega arith, omega arith, omega arith) (none x, none y, none z),
      blended n i m x y z (max_of n) (lowered n x) (lowered n y) (lowered n z)
          (two, few, omega arith) (p, q, r) (ground arith, ground arith, ground arith)
          (opaque_value n x two p, opaque_value n y two q, opaque_value n z two r),
    )

factor_zero : (n : ℕ) → 2 * n < max_of n → rounded_div (pos n) (pos (max_of n)) ≡ pos 0
factor_zero n large =
    rounded_div_of n (max_of n) (omega arith) ∙ ap pos (div-eq_of_lt (omega arith))

many_values : (k : ℕ) → 2 * (k + 3) < max_of (k + 3)
many_values zero = omega arith
many_values (suc k) =
    let doubled : 2 ^ (suc k + 3) ≡ 2 * 2 ^ (k + 3) =
      ap (λ (n : ℕ). 2 ^ n) (shift_suc k) ∙ double (k + 3) in
    omega (arith, doubled, many_values k)
  where
    shift_suc : (n : ℕ) → suc n + 3 ≡ suc (n + 3)
    shift_suc n = omega arith

    double : (n : ℕ) → 2 ^ suc n ≡ 2 * 2 ^ n
    double n = omega (arith, pow-suc 2 n)

-- What 64 bits hold of a number is no more than it, or negative.
wrap_cases :
    (h : ℕ)
    → (k : ℕ) × (((wrap_int 63 (pos h) ≡ pos k) × (k ≤ h)) ⊎ (wrap_int 63 (pos h) ≡ negsuc k))
unfolding wrap_int
wrap_cases h =
    let rest = (h + (2 ^ 64 - 0 % 2 ^ 64)) % 2 ^ 64 in
    elim (Bool-cases (ltb rest (2 ^ 63))) [
      | inl e ↦ (rest, inl (rw e refl, omega arith))
      | inr e ↦ (2 ^ 64 - rest - 1, inr (rw e refl))
    ]

bound_negative : (k bits : ℕ) → bound (pos 0) (negsuc k) (pos (max_of bits)) ≡ pos 0
unfolding bound
bound_negative k bits = ground arith

none_of : (k m : ℕ) → k < m → k / m ≡ 0
none_of k m less = div-eq_of_lt less

-- Half a unit, rounded down and clamped, is nothing.
half_is_none :
    (n bits h : ℕ)
    → h < 2 ^ n
    → bound (pos 0) (shift_right (wrap_int 63 (pos h)) n) (pos (max_of bits)) ≡ pos 0
unfolding shift_right
half_is_none n bits h less =
    let (k, cases) = wrap_cases h in
    elim cases [
      | inl (e, most) ↦
          let small : k < 2 ^ n = omega arith in
          rw (e, none_of k (2 ^ n) small) (bound_kept bits 0 (omega arith))
      | inr e ↦ rw e (bound_negative (k / 2 ^ n) bits)
    ]

no_factor : (p a h : ℕ) → pos a *ℤ (pos p *ℤ pos 0 +ℤ pos 0) +ℤ pos h ≡ pos h
no_factor p a h =
    rw (times_pos p 0, plus_pos (p * 0) 0, times_pos a (p * 0 + 0), plus_pos (a * (p * 0 + 0)) h)
      (ap pos (no_product p a h))
  where
    no_product : (p a h : ℕ) → a * (p * 0 + 0) + h ≡ h
    no_product p a h = ground arith

-- A converter between two formats of a grey channel, with `n` bits of alpha.
abbrev pub gray_with_alpha : ℕ → ℕ → Bits → ColorConvert → ColorConvert
gray_with_alpha n bits i m =
    load_alpha_matrix vft_gray n (equal_bits bits) (load_color_matrix abc2xyz i (equal_bits bits) m)

-- With three bits of alpha or more, a grey pixel that is blended becomes black, whatever its value and
-- its alpha.
pub gray_with_alpha_black :
    (n bits p a : ℕ) (i : Bits) (m : ColorConvert)
    → 3 ≤ n
    → apply_alpha_point (gray_with_alpha n bits i m) (pos p) (pos a) ≡ pos 0
unfolding apply_alpha_point alpha_value load_alpha_matrix load_alpha_gray_matrix load_color_matrix
    load_abc2xyz_matrix
gray_with_alpha_black n bits p a i m three =
    let facts = shifted n n (omega arith) (omega arith) in
    let half : 2 ^ (n - 1) < 2 ^ n = omega (arith, facts.twice, facts.has_half) in
    let same : n - 3 + 3 ≡ n = omega arith in
    let large : 2 * n < max_of n = subst (λ (k : ℕ). 2 * k < max_of k) same (many_values (n - 3)) in
    rw (factor_zero n large, no_factor p a (2 ^ (n - 1)), half_is_none n bits (2 ^ (n - 1)) half)
      refl
