-- ===== src/Color/Rounding.antt =====
-- `rbConstants`, `roundedDiv` and `nearestPowOf2` of VCamUtils/src/colorconvert.cpp.
use akvirtualcamera.Base.{ℕ, zero, suc, ◌+◌, ◌/◌, ◌-◌, ◌^◌, ◌==◌, leb, if◌then◌else◌, ◌&&◌, ◌||◌}
use akvirtualcamera.Base.Int.{
  ℤ, pos, negsuc, ◌+ℤ◌, ◌-ℤ◌, ◌*ℤ◌, div_ℤ, ltb_ℤ, eqb_ℤ, magnitude, sub_ℕ,
}
use akvirtualcamera.Color.{
  YuvColorSpace, color_avg, itur_bt601, itur_bt709, itur_bt2020, smpte_240m,
}

-- `kr` and `kb`; `div` is 10000 in each space.
unfoldable pub rb_constants : YuvColorSpace → ℕ × ℕ
rb_constants color_avg = (3333, 3333)
rb_constants itur_bt601 = (2990, 1140)
rb_constants itur_bt709 = (2126, 722)
rb_constants itur_bt2020 = (2627, 593)
rb_constants smpte_240m = (2120, 870)

abbrev pub div : ℕ
div = 10_000

unfoldable pub rounded_div : ℤ → ℤ → ℤ
rounded_div num den =
    if eqb_ℤ den (pos 0)
    then if ltb_ℤ num (pos 0) then negsuc (2 ^ 63 - 1) else pos (2 ^ 63 - 1)
    else if ltb_ℤ num (pos 0) && ltb_ℤ (pos 0) den || ltb_ℤ (pos 0) num && ltb_ℤ den (pos 0)
    then div_ℤ (pos 2 *ℤ num -ℤ den) (pos 2 *ℤ den)
    else div_ℤ (pos 2 *ℤ num +ℤ den) (pos 2 *ℤ den)

-- The rounds of `while (val >>= 1)`; `fuel` is at least `val`.
unfoldable pub halvings : ℕ → ℕ → ℕ
halvings zero val = 0
halvings (suc fuel) val = let rest = halvings fuel (val / 2) in if val / 2 == 0 then 0 else suc rest

-- `|a - b|`.
abbrev pub distance : ℕ → ℕ → ℕ
distance a b = magnitude (sub_ℕ a b)

-- Of a value that is not negative, as the callers' are.
unfoldable pub nearest_pow_of_2 : ℕ → ℕ
unfolding halvings
nearest_pow_of_2 value =
    let res = halvings value value in
    if leb (distance (2 ^ (res + 1)) value) (distance (2 ^ res) value)
    then 2 ^ (res + 1)
    else 2 ^ res
