-- ===== src/Number/Fraction.antt =====
-- VCamUtils/src/fraction.cpp: the state of a Fraction, and the operations on it. The products of
-- two int64_t are taken as integers: a Fraction is read from 32-bit numbers.
use akvirtualcamera.Base.{Bool, false, not, ◌&&◌, ◌||◌, if◌then◌else◌}
use akvirtualcamera.Base.Int.{ℤ, pos, negsuc, ◌*ℤ◌, eqb_ℤ, ltb_ℤ}

pub record Fraction : Type 0 where
  pub num : ℤ
  pub den : ℤ

abbrev pub default_fraction : Fraction
default_fraction = record { num = pos 0; den = pos 0 }

abbrev pub is_zero : ℤ → Bool
is_zero x = eqb_ℤ x (pos 0)

-- operator ==.
unfoldable pub fraction_eq : Fraction → Fraction → Bool
unfolding ◌*ℤ◌
fraction_eq f g =
    if is_zero f.den && not (is_zero g.den)
    then false
    else if not (is_zero f.den) && is_zero g.den
    then false
    else eqb_ℤ (f.num *ℤ g.den) (f.den *ℤ g.num)

-- operator <.
unfoldable pub fraction_lt : Fraction → Fraction → Bool
unfolding ◌*ℤ◌
fraction_lt f g = ltb_ℤ (f.num *ℤ g.den) (f.den *ℤ g.num)

unfoldable pub is_valid : Fraction → Bool
is_valid f = not (is_zero f.den)

unfoldable pub is_null : Fraction → Bool
is_null f = is_zero f.num || is_zero f.den

unfoldable pub is_infinity : Fraction → Bool
is_infinity f = not (is_zero f.num) && is_zero f.den

abbrev sign_of : ℤ → ℤ
sign_of x = if ltb_ℤ x (pos 0) then negsuc 0 else pos 1

unfoldable pub sign : Fraction → ℤ
sign f = if eqb_ℤ (sign_of f.num) (sign_of f.den) then pos 1 else negsuc 0
