-- ===== src/Color/Swing.antt =====
-- `limitsY` and `limitsUV` of VCamUtils/src/colorconvert.cpp: the range of a channel of `bits` bits.
use akvirtualcamera.Base.{ℕ, ◌+◌, ◌*◌, ◌/◌, ◌-◌, ◌^◌}
use akvirtualcamera.Base.Int.{ℤ, pos, ◌-ℤ◌, ◌+ℤ◌, pos_part}
use akvirtualcamera.Color.{YuvColorSpaceType, studio_swing, full_swing, Limits, limits}
use akvirtualcamera.Color.Rounding.{rounded_div, nearest_pow_of_2}

-- The greatest value of `bits` bits.
abbrev pub max_of : ℕ → ℕ
max_of bits = 2 ^ bits - 1

-- 9% of overshoot.
abbrev g : ℕ
g = 9

-- The lower limit in studio swing.
unfoldable pub studio_min : ℕ → ℕ
unfolding rounded_div nearest_pow_of_2
studio_min bits =
    nearest_pow_of_2 (pos_part (rounded_div (pos (max_of bits * g)) (pos (2 * g + 100))))

unfoldable pub limits_y : ℕ → YuvColorSpaceType → Limits
unfolding studio_min
limits_y bits full_swing = limits (pos 0) (pos (max_of bits))
limits_y bits studio_swing =
    limits (pos (studio_min bits)) (pos (max_of bits * (g + 100) / (2 * g + 100)))

unfoldable pub limits_uv : ℕ → YuvColorSpaceType → Limits
unfolding studio_min
limits_uv bits full_swing = limits (pos 0) (pos (max_of bits))
limits_uv bits studio_swing =
    limits (pos (studio_min bits)) (pos (2 ^ bits) -ℤ pos (studio_min bits))

-- `max - min`, `(min + max)` of a range.
unfoldable pub span : Limits → ℤ
span l = l.high -ℤ l.low

unfoldable pub ends : Limits → ℤ
ends l = l.low +ℤ l.high
