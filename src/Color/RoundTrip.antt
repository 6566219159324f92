-- ===== src/Color/RoundTrip.antt =====
-- Pixels converted to another format and back by VCamUtils/src/colorconvert.cpp, by evaluation at the
-- bits of the table of formats.
use akvirtualcamera.Base.{
  ℕ, zero, suc, ◌<◌, ◌≡◌, arith, refl, Bool, true, ◌&&◌, leb, ◌==◌, ==_iff, ◌∙◌,
}
use akvirtualcamera.Base.Int.{ℤ, pos, ◌-ℤ◌, wrap_int, magnitude, ◌+ℤ◌, ◌*ℤ◌, div_ℤ}
use akvirtualcamera.Color.{
  YuvColorSpace, color_avg, itur_bt601, itur_bt709, itur_bt2020, smpte_240m, YuvColorSpaceType,
  studio_swing, full_swing, ColorConvert, Triple, color_convert, shift_right, bound, row_of_three,
  apply_matrix, abc2xyz, rgb2yuv, yuv2rgb, apply_vector,
}
use akvirtualcamera.Color.Rounding.{rb_constants, rounded_div, halvings, nearest_pow_of_2}
use akvirtualcamera.Color.Swing.{studio_min, limits_y, limits_uv, span, ends}
use akvirtualcamera.Color.Matrix.{
  at_least, at_middle, luma_row, load_rgb2yuv_matrix, load_yuv2rgb_matrix,
}
use akvirtualcamera.Color.Load.{Bits, load_color_matrix}
use akvirtualcamera.Color.Depth.{scale, scale_at_most}
use akvirtualcamera.Color.Channels.{HasOne, HasFew, vector_scaled, values, triple}

-- A test of every number below a bound.
abbrev holds_below : ℕ → (ℕ → Bool) → Bool
holds_below zero test = true
holds_below (suc n) test = test n && holds_below n test

holds_below_at :
    (n : ℕ) (test : ℕ → Bool) (v : ℕ) → holds_below n test ≡ true → v < n → test v ≡ true
holds_below_at zero test v h less = absurd (omega arith)
holds_below_at (suc n) test v h less = ground (arith, holds_below_at n test v)

abbrev eight : Bits
eight = record { first = 8; second = 8; third = 8 }

abbrev to_yuv : YuvColorSpace → YuvColorSpaceType → ColorConvert
to_yuv space swing = load_color_matrix rgb2yuv eight eight (color_convert space swing)

abbrev to_rgb : YuvColorSpace → YuvColorSpaceType → ColorConvert
to_rgb space swing = load_color_matrix yuv2rgb eight eight (color_convert space swing)

-- The colour of a pixel in YUV and back.
abbrev pub there_and_back : YuvColorSpace → YuvColorSpaceType → ℤ → ℤ → ℤ → Triple
there_and_back space swing r g b =
    let (y, u, v) = apply_matrix (to_yuv space swing) r g b in
    apply_matrix (to_rgb space swing) y u v

abbrev is_near : ℤ → ℤ → Bool
is_near a b = leb (magnitude (a -ℤ b)) 3

abbrev pub near_grey : ℕ → Triple → Bool
near_grey v (r, g, b) = is_near r (pos v) && is_near g (pos v) && is_near b (pos v)

abbrev grey_test : YuvColorSpace → YuvColorSpaceType → ℕ → Bool
grey_test space swing v = near_grey v (there_and_back space swing (pos v) (pos v) (pos v))

grey_tests :
    (space : YuvColorSpace) (swing : YuvColorSpaceType)
    → holds_below 256 (grey_test space swing) ≡ true
unfolding apply_matrix load_color_matrix load_rgb2yuv_matrix load_yuv2rgb_matrix at_least at_middle
    luma_row rb_constants rounded_div halvings nearest_pow_of_2 studio_min limits_y limits_uv span
    ends shift_right bound row_of_three color_convert div_ℤ ◌*ℤ◌ ◌+ℤ◌ ◌-ℤ◌ wrap_int
grey_tests color_avg studio_swing = refl
grey_tests color_avg full_swing = refl
grey_tests itur_bt601 studio_swing = refl
grey_tests itur_bt601 full_swing = refl
grey_tests itur_bt709 studio_swing = refl
grey_tests itur_bt709 full_swing = refl
grey_tests itur_bt2020 studio_swing = refl
grey_tests itur_bt2020 full_swing = refl
grey_tests smpte_240m studio_swing = refl
grey_tests smpte_240m full_swing = refl

-- In every colour space and range: a grey pixel of 8 bits that is converted to YUV and back differs by
-- three at most in each channel.
pub grey_there_and_back :
    (space : YuvColorSpace) (swing : YuvColorSpaceType) (v : ℕ)
    → v < 256
    → near_grey v (there_and_back space swing (pos v) (pos v) (pos v)) ≡ true
grey_there_and_back space swing v less =
    holds_below_at 256 (grey_test space swing) v (grey_tests space swing) less

-- The values of a channel that is widened to 8 bits, in pixels of at most `shift` bits, and narrowed.
abbrev narrowed : ℕ → ℕ → ℕ → ℕ
narrowed bits shift p = scale 8 bits 8 (scale bits 8 shift p)

abbrev is_kept : ℕ → ℕ → Bool
is_kept bits p = narrowed bits 6 p == p

five_kept : holds_below 32 (is_kept 5) ≡ true
five_kept = refl

six_kept : holds_below 64 (is_kept 6) ≡ true
six_kept = refl

abbrev pub bits_565 : Bits
bits_565 = record { first = 5; second = 6; third = 5 }

-- A pixel of 5, 6 and 5 bits that is converted to 8 bits for each channel and back is the same.
pub rgb565_there_and_back :
    (m n : ColorConvert) (p q r : ℕ)
    → p < 32
    → q < 64
    → r < 32
    → let (x, y, z) =
        apply_vector (load_color_matrix abc2xyz bits_565 eight m) (pos p) (pos q) (pos r) in
      apply_vector (load_color_matrix abc2xyz eight bits_565 n) x y z ≡ values p q r
rgb565_there_and_back m n p q r a b c =
    let one = (==_iff (narrowed 5 6 p) p).0 (holds_below_at 32 (is_kept 5) p five_kept a) in
    let two = (==_iff (narrowed 6 6 q) q).0 (holds_below_at 64 (is_kept 6) q six_kept b) in
    let three = (==_iff (narrowed 5 6 r) r).0 (holds_below_at 32 (is_kept 5) r five_kept c) in
    let small_one = scale_at_most 5 8 6 (omega arith) (omega arith) p (omega arith) in
    let small_two = scale_at_most 6 8 6 (omega arith) (omega arith) q (omega arith) in
    let small_three = scale_at_most 5 8 6 (omega arith) (omega arith) r (omega arith) in
    rw
      (vector_scaled bits_565 eight m p q r few few_most many_most (omega arith) (omega arith)
        (omega arith))
      (vector_scaled eight bits_565 n (scale 5 8 6 p) (scale 6 8 6 q) (scale 5 8 6 r) many many_most
          few_most small_one small_two small_three
        ∙ triple one two three)
  where
    few : HasOne bits_565
    few = (omega arith, omega arith, omega arith)

    many : HasOne eight
    many = (omega arith, omega arith, omega arith)

    few_most : HasFew bits_565
    few_most = (omega arith, omega arith, omega arith)

    many_most : HasFew eight
    many_most = (omega arith, omega arith, omega arith)
