-- ===== src/Message/Frames/RoundTrip.antt =====
-- What the encoders write of a frame is what the decoders read.
use akvirtualcamera.Base.{
  ℕ, ◌+◌, ◌^◌, ◌<◌, ◌≡◌, refl, ap, ◌∙◌, ◌++◌, none, some, arith, Bytes, length, length-append,
  append_assoc, append-nil, drop_all,
}
use akvirtualcamera.Base.Buffer.{
  le_bytes, read_bytes, read_uint, length-le_bytes, read_uint-at, read_bytes-at,
}
use akvirtualcamera.Video.Frame.{VideoFrame, video_frame, frame_size}
use akvirtualcamera.Message.Frames.{
  Header, write_frame, read_header, read_all, read_bounded, received, overwrite, FieldsFit,
  sent_format,
}

abbrev pub header_of : VideoFrame → Header
header_of f = record { format = sent_format f; data_size = length f.bytes }

pub length-write_frame : (f : VideoFrame) → length (write_frame f) ≡ 20 + length f.bytes
unfolding write_frame
length-write_frame f = omega (arith, length-append {0}, length-le_bytes)

module _ (pre post : Bytes) (f : VideoFrame) (v : FieldsFit f)
    (fits : length f.bytes < 2 ^ 64) where
  abbrev after_height : Bytes
  after_height = le_bytes 8 (length f.bytes) ++ (f.bytes ++ post)

  abbrev after_width : Bytes
  after_width = le_bytes 4 f.format.height ++ after_height

  abbrev after_format : Bytes
  after_format = le_bytes 4 f.format.width ++ after_width

  buffer : Bytes
  buffer = pre ++ (write_frame f ++ post)

  read_format : read_uint buffer (length pre) 4 ≡ some f.format.format
  unfolding buffer write_frame
  read_format =
      read_uint-at pre after_format f.format.format 4 (simp append_assoc) refl v.format_fits

  read_width : read_uint buffer (length pre + 4) 4 ≡ some f.format.width
  unfolding buffer write_frame
  read_width =
      read_uint-at (pre ++ le_bytes 4 f.format.format) after_width f.format.width 4
        (simp append_assoc) (omega (arith, length-append {0}, length-le_bytes)) v.width_fits

  read_height : read_uint buffer (length pre + 4 + 4) 4 ≡ some f.format.height
  unfolding buffer write_frame
  read_height =
      read_uint-at (pre ++ (le_bytes 4 f.format.format ++ le_bytes 4 f.format.width)) after_height
        f.format.height 4 (simp append_assoc) (omega (arith, length-append {0}, length-le_bytes))
        v.height_fits

  pub read_size :
      read_uint (pre ++ (write_frame f ++ post)) (length pre + 4 + 4 + 4) 8 ≡ some (length f.bytes)
  unfolding write_frame
  read_size =
      read_uint-at
        (pre
          ++ (le_bytes 4 f.format.format
              ++ (le_bytes 4 f.format.width ++ le_bytes 4 f.format.height)))
        (f.bytes ++ post) (length f.bytes) 8 (simp append_assoc)
        (omega (arith, length-append {0}, length-le_bytes)) fits

  pub read_header-write_frame :
      read_header (pre ++ (write_frame f ++ post)) (length pre) ≡ some (header_of f)
  unfolding read_header buffer
  read_header-write_frame = rw (read_format, read_width, read_height, read_size)

  pub read_data :
      read_bytes (pre ++ (write_frame f ++ post)) (length pre + 20) (length f.bytes) ≡ some f.bytes
  unfolding write_frame
  read_data =
      read_bytes-at
        (pre
          ++ (le_bytes 4 f.format.format
              ++ (le_bytes 4 f.format.width
                  ++ (le_bytes 4 f.format.height ++ le_bytes 8 (length f.bytes)))))
        f.bytes post (simp append_assoc) (omega (arith, length-append {0}, length-le_bytes)) refl

  module _ (heap : ℕ → Bytes) (sized : (n : ℕ) → length (heap n) ≡ n) where
    module _ (exact : 0 < length f.bytes → length f.bytes ≡ frame_size (sent_format f)) where
      buffer_size :
          0 < length f.bytes → length (heap (frame_size (header_of f).format)) ≡ length f.bytes
      buffer_size some_data =
          omega (arith, sized (frame_size (header_of f).format), exact some_data)

      overwrite_all :
          0 < length f.bytes → overwrite (heap (frame_size (header_of f).format)) f.bytes ≡ f.bytes
      overwrite_all some_data =
          ap (◌++◌ f.bytes) (drop_all (length f.bytes) _ (buffer_size some_data))
          ∙ append-nil f.bytes

      pub read_all-write_frame :
          read_all heap (pre ++ (write_frame f ++ post)) (length pre + 20) (header_of f)
          ≡ some (received heap f)
      unfolding read_all received video_frame frame_size
      read_all-write_frame = ground (arith, read_data, buffer_size, overwrite_all)

      pub read_bounded-write_frame :
          read_bounded heap (pre ++ (write_frame f ++ post)) (length pre + 20) (header_of f)
          ≡ some (received heap f)
      unfolding read_bounded received video_frame frame_size
      read_bounded-write_frame = ground (arith, read_data, buffer_size, overwrite_all)

    -- With more data than the frame's buffer holds, MsgFrameReady writes past its end.
    pub read_all_overflow :
        0 < length f.bytes
        → frame_size (sent_format f) < length f.bytes
        → read_all heap (pre ++ (write_frame f ++ post)) (length pre + 20) (header_of f) ≡ none
    unfolding read_all video_frame frame_size
    read_all_overflow some_data h = ground (arith, read_data, sized (frame_size (sent_format f)))
