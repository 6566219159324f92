-- ===== src/Color/Ordered.antt =====
-- The limits that VCamUtils/src/colorconvert.cpp sets are in order and fit the bits of the output,
-- whichever matrix is loaded.
use native.Mathlib.Nat.{pow-suc, one-le-pow}
use akvirtualcamera.Base.{ℕ, zero, suc, ◌+◌, ◌*◌, ◌/◌, ◌-◌, ◌^◌, ◌≤◌, arith}
use akvirtualcamera.Base.Int.{pos, ◌-ℤ◌, ◌≤ℤ◌, pos_part}
use akvirtualcamera.Color.{
  Limits, YuvColorSpaceType, studio_swing, full_swing, ColorConvert, ColorMatrix, abc2xyz, rgb2yuv,
  yuv2rgb, rgb2gray, gray2rgb, yuv2gray, gray2yuv,
}
use akvirtualcamera.Color.Rounding.{nearest_pow_of_2, rounded_div, halvings}
use akvirtualcamera.Color.Swing.{max_of, studio_min, limits_y, limits_uv}
use akvirtualcamera.Color.Matrix.{
  zero_to, load_abc2xyz_matrix, load_rgb2yuv_matrix, load_yuv2rgb_matrix, load_rgb2gray_matrix,
  load_gray2rgb_matrix, load_yuv2gray_matrix, load_gray2yuv_matrix, load_alpha_rgb_matrix,
  load_alpha_yuv_matrix, load_alpha_gray_matrix,
}
use akvirtualcamera.Color.Load.{Bits, load_color_matrix, load_alpha_matrix}
use akvirtualcamera.Color.Nearest.{rounded_div_pos, halvings_log}
use akvirtualcamera.Video.Spec.{VideoFormatType, vft_rgb, vft_yuv, vft_gray, vft_unknown}

-- Limits in order, within what a channel of some bits can hold.
abbrev pub FitsIn : ℕ → Limits → Type 0
FitsIn bits l = (pos 0 ≤ℤ l.low) × (l.low ≤ℤ l.high) × (l.high ≤ℤ pos (max_of bits))

pub nearest_pow_of_2-small : (v : ℕ) → nearest_pow_of_2 v ≤ 2 * v + (1 - v)
unfolding nearest_pow_of_2
nearest_pow_of_2-small zero = omega arith
nearest_pow_of_2-small (suc v) =
    let (low, high) = halvings_log (suc v) (suc v) (omega arith) (omega arith) in
    ground (arith, low, high, pow-suc 2 (halvings (suc v) (suc v)))

studio_min-small :
    (bits : ℕ) → let v = (2 * (max_of bits * 9) + 118) / 236 in studio_min bits ≤ 2 * v + (1 - v)
unfolding studio_min
studio_min-small bits =
    rw (rounded_div_pos (max_of bits * 9) 117)
      (nearest_pow_of_2-small ((2 * (max_of bits * 9) + 118) / 236))

studio_min-positive : (bits : ℕ) → 1 ≤ studio_min bits
unfolding studio_min nearest_pow_of_2
studio_min-positive bits =
    let v = pos_part (rounded_div (pos (max_of bits * 9)) (pos 118)) in
    ground (arith, one-le-pow (halvings v v) 2, one-le-pow (halvings v v + 1) 2)

four_at_least : (bits : ℕ) → 2 ≤ bits → 4 ≤ 2 ^ bits
four_at_least zero h = absurd (omega arith)
four_at_least (suc zero) h = absurd (omega arith)
four_at_least (suc (suc b)) h = omega (arith, pow-suc 2 (suc b), pow-suc 2 b, one-le-pow b 2)

pub zero_to-FitsIn : (bits : ℕ) → FitsIn bits (zero_to bits)
zero_to-FitsIn bits = (omega arith, omega arith, omega arith)

pub limits_y-FitsIn :
    (bits : ℕ) (swing : YuvColorSpaceType) → 2 ≤ bits → FitsIn bits (limits_y bits swing)
unfolding limits_y
limits_y-FitsIn bits full_swing h = zero_to-FitsIn bits
limits_y-FitsIn bits studio_swing h = ground (arith, studio_min-small bits, four_at_least bits h)

pub limits_uv-FitsIn :
    (bits : ℕ) (swing : YuvColorSpaceType) → 2 ≤ bits → FitsIn bits (limits_uv bits swing)
unfolding limits_uv ◌-ℤ◌
limits_uv-FitsIn bits full_swing h = zero_to-FitsIn bits
limits_uv-FitsIn bits studio_swing h =
    ground (arith, studio_min-small bits, studio_min-positive bits, four_at_least bits h)

abbrev pub LimitsFit : Bits → ColorConvert → Type 0
LimitsFit b m = FitsIn b.first m.lx × FitsIn b.second m.ly × FitsIn b.third m.lz

abbrev pub HasTwo : Bits → Type 0
HasTwo b = (2 ≤ b.first) × (2 ≤ b.second) × (2 ≤ b.third)

-- A grey output takes the bits of its first channel for all.
abbrev pub outputs : ColorMatrix → Bits → Bits
outputs rgb2gray o = record { first = o.first; second = o.first; third = o.first }
outputs yuv2gray o = record { first = o.first; second = o.first; third = o.first }
outputs _ o = o

pub load_color_matrix-LimitsFit :
    (kind : ColorMatrix) (i o : Bits) (m : ColorConvert)
    → HasTwo o
    → LimitsFit (outputs kind o) (load_color_matrix kind i o m)
unfolding load_color_matrix load_abc2xyz_matrix load_rgb2yuv_matrix load_yuv2rgb_matrix
    load_rgb2gray_matrix load_gray2rgb_matrix load_yuv2gray_matrix load_gray2yuv_matrix
load_color_matrix-LimitsFit abc2xyz i o m (x, y, z) =
    (zero_to-FitsIn _, zero_to-FitsIn _, zero_to-FitsIn _)
load_color_matrix-LimitsFit rgb2yuv i o m (x, y, z) =
    (limits_y-FitsIn _ _ x, limits_uv-FitsIn _ _ y, limits_uv-FitsIn _ _ z)
load_color_matrix-LimitsFit yuv2rgb i o m (x, y, z) =
    (zero_to-FitsIn _, zero_to-FitsIn _, zero_to-FitsIn _)
load_color_matrix-LimitsFit rgb2gray i o m (x, y, z) =
    (limits_y-FitsIn _ _ x, limits_uv-FitsIn _ _ x, limits_uv-FitsIn _ _ x)
load_color_matrix-LimitsFit gray2rgb i o m (x, y, z) =
    (zero_to-FitsIn _, zero_to-FitsIn _, zero_to-FitsIn _)
load_color_matrix-LimitsFit yuv2gray i o m (x, y, z) =
    (zero_to-FitsIn _, zero_to-FitsIn _, zero_to-FitsIn _)
load_color_matrix-LimitsFit gray2yuv i o m (x, y, z) =
    (limits_y-FitsIn _ _ x, limits_uv-FitsIn _ _ y, limits_uv-FitsIn _ _ z)

pub load_alpha_matrix-LimitsFit :
    (t : VideoFormatType) (alpha : ℕ) (o b : Bits) (m : ColorConvert)
    → LimitsFit b m
    → LimitsFit b (load_alpha_matrix t alpha o m)
unfolding load_alpha_matrix load_alpha_rgb_matrix load_alpha_yuv_matrix load_alpha_gray_matrix
load_alpha_matrix-LimitsFit vft_rgb alpha o b m h = h
load_alpha_matrix-LimitsFit vft_yuv alpha o b m h = h
load_alpha_matrix-LimitsFit vft_gray alpha o b m h = h
load_alpha_matrix-LimitsFit vft_unknown alpha o b m h = h
