-- ===== src/Examples/Preferences.antt =====
-- The theorems on the preferences at concrete registries.
use akvirtualcamera.Base.{
  ◌-◌, ◌^◌, ◌<◌, ◌≡◌, refl, true, false, [], ◌∷◌, ◌++◌, none, Bytes, codes, arith, str_eq,
}
use akvirtualcamera.Registry.{reg_qword, lower}
use akvirtualcamera.Registry.Frame.{Absent}
use akvirtualcamera.Preferences.{
  at_last, split_sub_key, until_nul, read_value, write, read_string, text_of, read_int, int_from,
}
use akvirtualcamera.Preferences.Cameras.{
  add_device, add_camera, remove_camera, write_all, new_camera, cameras_size, cameras_count,
  camera_id, camera_from_id, camera_from, camera_exists, StoredFormat, format_values,
}
use akvirtualcamera.Preferences.Values.{IsText}
use akvirtualcamera.Preferences.View.{cameras}
use akvirtualcamera.Preferences.Keys.{cameras_path}
use akvirtualcamera.Preferences.Devices.{cameras-add_device}
use akvirtualcamera.Preferences.Overwritten.{cameras-add_camera}
use akvirtualcamera.Preferences.Removal.{NoNumber, remove_camera-fails}
use akvirtualcamera.Preferences.Numbers.{NoNumber-add_device}
use akvirtualcamera.Preferences.{delete_key, delete_named}
use akvirtualcamera.Registry.Trees.{delete_tree, delete_keys, delete_values}
use akvirtualcamera.Preferences.Formats.{set_stored_formats, formats_count}
use akvirtualcamera.Preferences.FormatTrip.{HasTexts}
use akvirtualcamera.Preferences.CommonFormats.{
  common_formats, common_by_format, pixel_format_to_common_string, texts_of, camera_set_formats,
  IsStorable, formats_from, camera_set_formats-stored,
}
use akvirtualcamera.Number.FractionText.{fraction, fraction_to_string, int64_to_string}
use akvirtualcamera.Base.Int.{ℤ, pos}
use akvirtualcamera.Video.PixelFormat
use akvirtualcamera.Preferences.Options.{set_camera_direct_mode}
use akvirtualcamera.Text.Decimal.{to_string, int_to_string, digits, decimal_value}
use akvirtualcamera.Examples.Registries.{
  Machine, machine, make_key, put, drop_key, found, same_key, same_value, same_root, same_text,
}
use akvirtualcamera.Video.Format.{VideoFormat, size_of_int}

-- No keys.
abbrev blank : Machine
blank = record { keys = λ g k. false; values = λ g k n. none }

abbrev one : Bytes
one = codes "cam1"

abbrev two : Bytes
two = codes "cam2"

abbrev office : Bytes
office = codes "Office"

one-IsText : IsText one
one-IsText = record {
  fits = omega arith;
  not_empty = refl;
  no_nul = (omega arith, (omega arith, (omega arith, (omega arith, tt))));
}

two-IsText : IsText two
two-IsText = record {
  fits = omega arith;
  not_empty = refl;
  no_nul = (omega arith, (omega arith, (omega arith, (omega arith, tt))));
}

abbrev with_one : Machine
with_one = (add_device machine office one blank).0

size_written : (write machine (codes "pageSize") (reg_qword (2 ^ 33)) true blank).1 ≡ true
unfolding write split_sub_key at_last make_key put same_key same_root same_text str_eq lower
size_written = refl

-- A second device.
second_added : (add_device machine office two with_one).1 ≡ two
unfolding add_device new_camera write_all write split_sub_key at_last make_key put same_key
    same_root same_text same_value str_eq lower int_to_string to_string digits read_int read_value
    int_from found
second_added = refl

few : read_int machine cameras_size 0 true with_one < 2 ^ 31 - 1
unfolding add_device new_camera write_all write split_sub_key at_last make_key put same_key
    same_root same_text same_value str_eq lower int_to_string to_string digits read_int read_value
    int_from found
few = omega arith

office-IsText : IsText office
office-IsText = record {
  fits = omega arith;
  not_empty = refl;
  no_nul =
      (omega arith, (omega arith, (omega arith, (omega arith, (omega arith, (omega arith, tt))))));
}

cameras-add_device_example :
    cameras machine (add_device machine office two with_one).0
    ≡ cameras machine with_one ++ record { id = two; description = office } ∷ []
cameras-add_device_example =
    cameras-add_device machine office two with_one few office-IsText two-IsText second_added

blank-NoNumber : NoNumber machine blank
unfolding found
blank-NoNumber n = refl

-- The camera exists.
remove_camera-fails_example : (remove_camera machine one with_one).1 ≡ false
remove_camera-fails_example =
    remove_camera-fails machine one with_one
      (NoNumber-add_device machine office one blank blank-NoNumber)

abbrev wide : StoredFormat
wide = record { format = codes "RGB24"; width = 1280; height = 720; fps = codes "30/1" }

no_default : Absent machine cameras_path [] with_one
unfolding add_device new_camera write_all write split_sub_key at_last make_key put same_key
    same_root same_text same_value str_eq lower int_to_string to_string digits read_int read_value
    int_from found
no_default = refl

overwritten : (add_camera machine [] two office (wide ∷ []) with_one).1 ≡ two
unfolding add_camera add_device new_camera write_all write split_sub_key at_last make_key put
    same_key same_root same_text same_value str_eq lower int_to_string to_string digits read_int
    read_value int_from found camera_exists camera_from camera_id cameras_count read_string text_of
    until_nul size_of_int format_values
overwritten = refl

-- The first camera is lost.
cameras-add_camera_example :
    cameras machine (add_camera machine [] two office (wide ∷ []) with_one).0
    ≡ record { id = two; description = office } ∷ []
cameras-add_camera_example =
    cameras-add_camera machine [] two office (wide ∷ []) with_one no_default office-IsText
      two-IsText overwritten

direct_set : (set_camera_direct_mode machine one true with_one).1 ≡ true
unfolding set_camera_direct_mode camera_from_id add_device new_camera write_all write split_sub_key
    at_last make_key put same_key same_root same_text same_value str_eq lower int_to_string
    to_string digits read_int read_value int_from found camera_from camera_id cameras_count
    read_string text_of until_nul size_of_int
direct_set = refl

wide-HasTexts : HasTexts wide
wide-HasTexts = (
  record {
    fits = omega arith;
    not_empty = refl;
    no_nul = (omega arith, (omega arith, (omega arith, (omega arith, (omega arith, tt)))));
  },
  record {
    fits = omega arith;
    not_empty = refl;
    no_nul = (omega arith, (omega arith, (omega arith, (omega arith, tt))));
  },
)

-- A camera with a key for its formats.
abbrev with_formats : Machine
with_formats = (add_camera machine [] one office (wide ∷ []) blank).0

-- 640 by 480 at 30 frames in a second, and how it is stored.
abbrev thirty : VideoFormat
thirty = record { format = PixelFormat.rgb24; width = 640; height = 480; fps = fraction 30 1 }

thirty-IsStorable : IsStorable thirty
unfolding common_formats
thirty-IsStorable = record {
  common_format = refl;
  num = 30;
  den = 1;
  rate = refl;
  small_num = omega arith;
  some_den = omega arith;
  small_den = omega arith;
}

thirty-HasTexts : HasTexts (texts_of thirty)
unfolding texts_of pixel_format_to_common_string common_by_format common_formats fraction_to_string
    int64_to_string to_string digits
thirty-HasTexts = wide-HasTexts

-- It reads digits, and no sign.
abbrev read_digits : Bytes → ℤ
read_digits s = pos (decimal_value 0 s)

formats_set : (camera_set_formats machine 0 (thirty ∷ thirty ∷ []) with_formats).1 ≡ true
unfolding camera_set_formats set_stored_formats texts_of pixel_format_to_common_string
    common_by_format common_formats fraction_to_string int64_to_string delete_key delete_named
    delete_tree delete_keys delete_values add_camera new_camera write_all write split_sub_key
    at_last make_key put same_key same_root same_text same_value str_eq lower int_to_string
    to_string digits read_int read_value int_from found camera_exists camera_from camera_id
    cameras_count read_string text_of until_nul size_of_int format_values drop_key
formats_set = refl

camera_set_formats-stored_example :
    (formats_count machine 0 (camera_set_formats machine 0 (thirty ∷ thirty ∷ []) with_formats).0
      ≡ 2)
    × (formats_from machine read_digits 0
          (camera_set_formats machine 0 (thirty ∷ thirty ∷ []) with_formats).0
          0
          2
        ≡ thirty ∷ thirty ∷ [])
camera_set_formats-stored_example =
    camera_set_formats-stored machine read_digits 0 (thirty ∷ thirty ∷ []) with_formats
      (λ s h e less. refl) (omega arith) (thirty-IsStorable, (thirty-IsStorable, tt))
      (thirty-HasTexts, (thirty-HasTexts, tt)) formats_set
