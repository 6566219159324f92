-- ===== src/Video/Frame.antt =====
-- The buffer of a VideoFrame in VCamUtils/src/videoframe.cpp: `updateParams`, the constructor from a
-- format, and the address of a line.
pub mod Size
pub mod Layout
use akvirtualcamera.Base.{
  ℕ, ◌+◌, ◌*◌, ◌/◌, ◌^◌, List, [], ◌∷◌, Bytes, replicate, Bool, if◌then◌else◌,
}
use akvirtualcamera.Number.Algorithm.{wrap64, align_up}
use akvirtualcamera.Video.Spec.{ColorPlane}
use akvirtualcamera.Video.Table.{format_specs}
use akvirtualcamera.Video.Format.{
  VideoFormat, bytes_used, line_size, plane_size, default_format, frame_align,
}

-- What `updateParams` stores for one plane.
pub record PlaneParams : Type 0 where
  pub pixel_size : ℕ
  pub line_size : ℕ
  pub bytes_used : ℕ
  pub plane_size : ℕ
  pub plane_offset : ℕ
  pub width_div : ℕ
  pub height_div : ℕ

abbrev pub plane_params : VideoFormat → ℕ → ColorPlane → PlaneParams
plane_params v offset p = record {
  pixel_size = p.pixel_size;
  line_size = line_size v p;
  bytes_used = bytes_used v p;
  plane_size = plane_size v p;
  plane_offset = offset;
  width_div = p.width_div;
  height_div = p.height_div;
}

-- The loop of `updateParams`: the planes, and `m_dataSize` behind the last of them.
unfoldable pub params_from : VideoFormat → ℕ → List ColorPlane → List PlaneParams × ℕ
params_from v offset [] = ([], offset)
params_from v offset (p ∷ ps) =
    let l = plane_params v offset p in
    let (ls, total) = params_from v (wrap64 (offset + l.plane_size)) ps in (l ∷ ls, total)

unfoldable pub update_params : VideoFormat → List ColorPlane → List PlaneParams × ℕ
unfolding params_from
update_params v ps = let (ls, total) = params_from v 0 ps in (ls, align_up total frame_align)

-- `bytes` is `m_data`, and its length `m_dataSize`.
pub record VideoFrame : Type 0 where
  pub format : VideoFormat
  pub params : List PlaneParams
  pub bytes : Bytes

abbrev pub default_frame : VideoFrame
default_frame = record { format = default_format; params = []; bytes = [] }

-- The size of the buffer that the constructor allocates.
unfoldable pub frame_size : VideoFormat → ℕ
unfolding update_params format_specs
frame_size v = (update_params v (format_specs v.format).planes).1

-- VideoFrame(format, initialized). `heap n` stands for the contents of `n` new bytes.
unfoldable pub video_frame : (ℕ → Bytes) → VideoFormat → Bool → VideoFrame
unfolding update_params format_specs
video_frame heap v initialized =
    let (params, size) = update_params v (format_specs v.format).planes in
    record {
      format = v;
      params = params;
      bytes = if initialized then replicate size 0 else heap size;
    }

-- `line`: where line `y` of a plane starts in the buffer.
unfoldable pub line_offset : PlaneParams → ℕ → ℕ
line_offset l y = l.plane_offset + y / 2 ^ l.height_div * l.line_size
