-- ===== src/Video/Table/Names.antt =====
-- The names of the pixel formats of VCamUtils/src/videoformat.cpp.
use akvirtualcamera.Base.{ℕ, ◌≡◌, refl, All, str_eq}
use akvirtualcamera.Video.Table.{
  formats, find_format, find_name, by_pixel_format, by_name, c_string, all_pixel_formats,
}

-- The code of every supported format is found again by the name that is found by the code: no two
-- formats share a code or a name.
pub by_name-by_pixel_format :
    All (λ (f : ℕ). (by_name (by_pixel_format f).name).format ≡ f) all_pixel_formats
unfolding all_pixel_formats by_name by_pixel_format find_format find_name formats c_string str_eq
by_name-by_pixel_format = (
  refl,
  (
    refl,
    (
      refl,
      (
        refl,
        (
          refl,
          (
            refl,
            (
              refl,
              (
                refl,
                (refl, (refl, (refl, (refl, (refl, (refl, (refl, (refl, (refl, (refl, tt)))))))))),
              ),
            ),
          ),
        ),
      ),
    ),
  ),
)
