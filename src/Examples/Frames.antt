-- ===== src/Examples/Frames.antt =====
-- The theorems on frames at concrete formats.
use akvirtualcamera.Base.{◌+◌, ◌≤◌, refl, inr, [], arith}
use akvirtualcamera.Video.PixelFormat
use akvirtualcamera.Video.Spec.{ColorPlane}
use akvirtualcamera.Video.Table.{format_specs}
use akvirtualcamera.Video.Format.{VideoFormat, video_format, line_size, plane_size}
use akvirtualcamera.Video.Frame.{plane_params, update_params, frame_size, line_offset}
use akvirtualcamera.Video.Frame.Layout.{IsModest}
use akvirtualcamera.Video.Frame.Layout.Planes.{Stacked}
use akvirtualcamera.Video.Frame.Layout.Supported.{planes-Stacked}
use akvirtualcamera.Video.Frame.Layout.Lines.{line_offset-bounds}

-- 640 × 480 in two planes.
abbrev vga : VideoFormat
vga = video_format PixelFormat.nv12 640 480

vga-IsModest : IsModest vga
vga-IsModest = record { width_small = omega arith; height_small = omega arith }

planes-Stacked_example :
    Stacked 0 (update_params vga (format_specs PixelFormat.nv12).planes).0 (frame_size vga)
planes-Stacked_example = planes-Stacked vga vga-IsModest

-- Two lines of the picture share a line of this plane.
abbrev chroma : ColorPlane
chroma = record { components = []; bits_size = 8; pixel_size = 2; width_div = 1; height_div = 1 }

line_offset-bounds_example :
    (307200 ≤ line_offset (plane_params vga 307200 chroma) 479)
    × (line_offset (plane_params vga 307200 chroma) 479 + line_size vga chroma
        ≤ 307200 + plane_size vga chroma)
line_offset-bounds_example =
    line_offset-bounds vga vga-IsModest chroma (omega arith) 479 307200 (omega arith)
      (inr (refl, refl))
