-- ===== src/Examples/Colors.antt =====
-- The theorems on colours at concrete formats and pixels.
use akvirtualcamera.Base.{◌≡◌, arith, true}
use akvirtualcamera.Base.Int.{pos}
use akvirtualcamera.Video.PixelFormat
use akvirtualcamera.Color.{
  ColorConvert, color_convert, itur_bt601, itur_bt709, studio_swing, full_swing, abc2xyz,
  apply_matrix, apply_alpha, apply_alpha_point, apply_vector,
}
use akvirtualcamera.Color.Load.{Bits, load_matrix_codes, load_color_matrix}
use akvirtualcamera.Color.Within.{out_bits, TripleFits, apply_matrix-fits}
use akvirtualcamera.Color.Channels.{values, apply_vector_lem}
use akvirtualcamera.Color.Alpha.{
  lowered, rgb_with_alpha, rgb_with_alpha_lem, gray_with_alpha, gray_with_alpha_black,
}
use akvirtualcamera.Color.RoundTrip.{near_grey, there_and_back, grey_there_and_back}

abbrev plain : ColorConvert
plain = color_convert itur_bt601 studio_swing

apply_matrix-fits_example :
    let loaded = load_matrix_codes PixelFormat.rgb24 PixelFormat.nv12 plain in
    TripleFits
      (out_bits PixelFormat.rgb24 PixelFormat.nv12)
      (apply_matrix loaded (pos 255) (pos 0) (pos 9))
    × TripleFits
        (out_bits PixelFormat.rgb24 PixelFormat.nv12)
        (apply_alpha loaded (pos 1) (pos 2) (pos 3) (pos 255))
apply_matrix-fits_example =
    apply_matrix-fits PixelFormat.rgb24 PixelFormat.nv12 plain (pos 255) (pos 0) (pos 9) (pos 1)
      (pos 2) (pos 3) (pos 255)

abbrev few : Bits
few = record { first = 5; second = 6; third = 5 }

abbrev eights : Bits
eights = record { first = 8; second = 8; third = 8 }

apply_vector_lem_example :
    let loaded = load_color_matrix abc2xyz few eights plain in
    TripleFits eights (apply_vector loaded (pos 17) (pos 40) (pos 3))
    × (apply_vector loaded (pos 0) (pos 0) (pos 0) ≡ values 0 0 0)
    × (apply_vector loaded (pos 31) (pos 63) (pos 31) ≡ values 255 255 255)
apply_vector_lem_example =
    apply_vector_lem few eights plain 17 40 3 (omega arith, omega arith, omega arith)
      (omega arith, omega arith, omega arith) (omega arith, omega arith, omega arith) (omega arith)
      (omega arith) (omega arith)

grey_there_and_back_example :
    near_grey 77 (there_and_back itur_bt709 full_swing (pos 77) (pos 77) (pos 77)) ≡ true
grey_there_and_back_example = grey_there_and_back itur_bt709 full_swing 77 (omega arith)

rgb_with_alpha_lem_example :
    let loaded = rgb_with_alpha 8 eights plain in
    (apply_alpha loaded (pos 255) (pos 128) (pos 3) (pos 0) ≡ (pos 0, pos 0, pos 0))
    × (apply_alpha loaded (pos 255) (pos 128) (pos 3) (pos 255)
        ≡ (pos (lowered 8 255), pos (lowered 8 128), pos (lowered 8 3)))
rgb_with_alpha_lem_example =
    rgb_with_alpha_lem 8 eights plain 255 128 3 (omega arith) (omega arith) (omega arith)
      (omega arith) (omega arith)

gray_with_alpha_black_example :
    apply_alpha_point (gray_with_alpha 8 8 eights plain) (pos 255) (pos 255) ≡ pos 0
gray_with_alpha_black_example = gray_with_alpha_black 8 8 255 255 eights plain (omega arith)
