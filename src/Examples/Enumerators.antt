-- ===== src/Examples/Enumerators.antt =====
-- The theorems on the enumeration of media types at a concrete one.
use akvirtualcamera.Base.{ℕ, ◌≡◌, ltb, if◌then◌else◌, [], ◌∷◌, Option, none, some, arith}
use akvirtualcamera.Video.Format.{VideoFormat, video_format}
use akvirtualcamera.Enumerator.{EnumMediaTypes}
use akvirtualcamera.Enumerator.Rest.{left, types_of}
use akvirtualcamera.Enumerator.Whole.{fetch_all, fetch_all-left}

-- A media type is its width; one of more than 1000 cannot be made.
abbrev width_type : VideoFormat → Option ℕ
width_type f = if ltb 1000 f.width then none else some f.width

abbrev three : EnumMediaTypes
three = record {
  formats = video_format 1 640 480 ∷ video_format 1 1280 720 ∷ video_format 1 320 240 ∷ [];
  position = 0;
}

fetch_all-left_example : fetch_all width_type 4 2 three ≡ some (types_of width_type (left three))
fetch_all-left_example = fetch_all-left width_type 4 2 three (omega arith) (omega arith)
