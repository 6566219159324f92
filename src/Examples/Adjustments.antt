-- ===== src/Examples/Adjustments.antt =====
-- The theorems on adjustments and on the configuration of a conversion at concrete inputs.
use akvirtualcamera.Base.{◌+◌, ◌≡◌, refl, arith, true, false, inl, inr}
use akvirtualcamera.Base.Int.{pos}
use akvirtualcamera.Video.PixelFormat
use akvirtualcamera.Video.Spec.{
  VideoFormatSpec, contains, ct_a, depth, component, find_in_planes, find_component, color_plane,
  add_components, add_component,
}
use akvirtualcamera.Video.Table.{format_specs, by_pixel_format, find_format, formats}
use akvirtualcamera.Adjust.{Image, Adjusts, adjust_mirror}
use akvirtualcamera.Adjust.Mirror.{adjust_mirror-both}
use akvirtualcamera.Adjust.Chain.{adjust_image, adjust_colors}
use akvirtualcamera.Adjust.Ignored.{adjust_image-ignored}
use akvirtualcamera.Convert.Parameters.{
  Parameters, types_8_8, types_32_32, configure_specs, reset_parameters, data_types_of,
}
use akvirtualcamera.Convert.Configured.{loaded_part, configure_specs-forgets}
use akvirtualcamera.Color.{
  ColorConvert, color_convert, color_avg, itur_bt601, studio_swing, full_swing,
}

abbrev plain : Adjusts
plain = record {
  horizontal_mirror = true;
  vertical_mirror = true;
  swap_rgb = true;
  hue = pos 0;
  saturation = pos 0;
  luminance = pos 0;
  gamma = pos 0;
  contrast = pos 0;
  gray_scaled = false;
}

abbrev numbered : Image
numbered = record {
  width = 5;
  height = 4;
  at = λ y x. record { red = y; green = x; blue = y + x; alpha = 255 };
}

adjust_mirror-both_example : (adjust_mirror plain numbered).at 1 0 ≡ numbered.at 2 4
adjust_mirror-both_example =
    adjust_mirror-both plain numbered 0 1 refl refl (omega arith) (omega arith)

adjust_image-ignored_example :
    adjust_image (λ i. i) (λ i. i) (record plain { vertical_mirror = false }) numbered
    ≡ adjust_colors (λ i. i) (λ i. i) (record plain { vertical_mirror = false }) numbered
adjust_image-ignored_example =
    adjust_image-ignored (λ i. i) (λ i. i) (record plain { vertical_mirror = false }) numbered

abbrev wide : Parameters
wide = record reset_parameters { data_types = types_32_32 }

abbrev rgb : VideoFormatSpec
rgb = format_specs PixelFormat.rgb24

abbrev two_planes : VideoFormatSpec
two_planes = format_specs PixelFormat.nv12

abbrev new_colors : ColorConvert
new_colors = color_convert color_avg full_swing

abbrev old_colors : ColorConvert
old_colors = record new_colors { color_shift = 7 }

configure_specs-forgets_example :
    let one = configure_specs rgb two_planes itur_bt601 studio_swing (wide, old_colors) in
    let other =
      configure_specs rgb two_planes itur_bt601 studio_swing (reset_parameters, new_colors) in
    (one.0 ≡ other.0)
    × (loaded_part (contains rgb ct_a) one.1 ≡ loaded_part (contains rgb ct_a) other.1)
unfolding format_specs by_pixel_format find_format formats depth component find_in_planes
    find_component color_plane add_components add_component
configure_specs-forgets_example =
    configure_specs-forgets rgb two_planes itur_bt601 studio_swing wide reset_parameters old_colors
      new_colors (inl refl) (inr refl) (inl refl) (inl refl)

-- The 5 bits of a format of 16 bits have no type: what was there is kept.
kept_types : data_types_of (depth (format_specs PixelFormat.rgb565be)) 8 types_8_8 ≡ types_8_8
unfolding data_types_of format_specs by_pixel_format find_format formats depth component
    find_in_planes find_component color_plane add_components add_component
kept_types = refl
