-- ===== src/Video/Frame/Size.antt =====
-- VideoFormat::dataSize is the size of the buffer that VideoFrame allocates.
use akvirtualcamera.Base.{ℕ, ◌+◌, List, [], ◌∷◌, ◌≡◌, refl, ap}
use akvirtualcamera.Number.Algorithm.{wrap64, align_up}
use akvirtualcamera.Video.Spec.{ColorPlane}
use akvirtualcamera.Video.Table.{format_specs}
use akvirtualcamera.Video.Format.{VideoFormat, plane_size, data_size_from, data_size, frame_align}
use akvirtualcamera.Video.Frame.{params_from, update_params, frame_size}

params_from-data_size_from :
    (v : VideoFormat) (offset : ℕ) (ps : List ColorPlane)
    → (params_from v offset ps).1 ≡ data_size_from v offset ps
unfolding params_from data_size_from
params_from-data_size_from v offset [] = refl
params_from-data_size_from v offset (p ∷ ps) =
    params_from-data_size_from v (wrap64 (offset + plane_size v p)) ps

-- For every format, supported or not, the size that VideoFormat::dataSize computes is the size of
-- the buffer that the VideoFrame of the format allocates.
pub frame_size-data_size : (v : VideoFormat) → frame_size v ≡ data_size v
unfolding frame_size data_size update_params
frame_size-data_size v =
    ap (λ (n : ℕ). align_up n frame_align)
      (params_from-data_size_from v 0 (format_specs v.format).planes)
