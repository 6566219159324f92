-- ===== src/Message/Frames.antt =====
-- The frame in a MsgFrameReady or a MsgBroadcast of VCamUtils/src/message.cpp: four bytes of pixel
-- format, four each of width and height, the size of the data and the data. The frame rate is not
-- sent.
pub mod RoundTrip
use akvirtualcamera.Base.{
  ℕ, ◌+◌, ◌^◌, ◌≤◌, ◌<◌, ◌≡◌, refl, false, List, [], ◌∷◌, ◌++◌, Option, none, some, ◌>>=◌, arith,
  Bytes, ltb, leb, ◌==◌, if◌then◌else◌, length, drop, min,
}
use akvirtualcamera.Base.Buffer.{le_bytes, read_bytes, read_uint}
use akvirtualcamera.Video.Format.{VideoFormat, video_format}
use akvirtualcamera.Video.Frame.{VideoFrame, default_frame, video_frame, frame_size}

-- What both encoders write of a frame.
unfoldable pub write_frame : VideoFrame → Bytes
write_frame f =
    le_bytes 4 f.format.format
    ++ (le_bytes 4 f.format.width
        ++ (le_bytes 4 f.format.height ++ (le_bytes 8 (length f.bytes) ++ f.bytes)))

-- The fields before the data, read from `off` on.
pub record Header : Type 0 where
  pub format : VideoFormat
  pub data_size : ℕ

unfoldable pub read_header : Bytes → ℕ → Option Header
read_header buf off = do
  fourcc ← read_uint buf off 4
  width ← read_uint buf (off + 4) 4
  height ← read_uint buf (off + 4 + 4) 4
  data_size ← read_uint buf (off + 4 + 4 + 4) 8
  some (record { format = video_format fourcc width height; data_size = data_size })

-- memcpy to the beginning of a buffer that is large enough.
abbrev pub overwrite : Bytes → Bytes → Bytes
overwrite buf src = src ++ drop (length src) buf

-- `heap n` stands for the contents of `n` bytes from operator new.
module _ (heap : ℕ → Bytes) where
  -- MsgFrameReady copies all the data; past the end of the frame's buffer that is undefined.
  unfoldable pub read_all : Bytes → ℕ → Header → Option VideoFrame
  unfolding video_frame
  read_all buf off h =
      if ltb 0 h.data_size
      then (do
        let f = video_frame heap h.format false
        src ← read_bytes buf off h.data_size
        if leb h.data_size (length f.bytes)
            then some (record f { bytes = overwrite f.bytes src })
            else none)
      else some default_frame

  -- MsgBroadcast copies no more than the frame's buffer holds.
  unfoldable pub read_bounded : Bytes → ℕ → Header → Option VideoFrame
  unfolding video_frame
  read_bounded buf off h =
      if ltb 0 h.data_size
      then (do
        let f = video_frame heap h.format false
        src ←
            if ltb 0 (length f.bytes)
            then read_bytes buf off (min h.data_size (length f.bytes))
            else some []
        some (record f { bytes = overwrite f.bytes src }))
      else some default_frame

  -- A frame as the other side sees it: without its frame rate, and with nothing of it where it has no
  -- data.
  unfoldable pub received : VideoFrame → VideoFrame
  unfolding video_frame
  received f =
      if ltb 0 (length f.bytes)
      then record (video_frame heap (video_format f.format.format f.format.width f.format.height)
          false) { bytes = f.bytes }
      else default_frame

-- The fields of a frame fit their types.
pub record FieldsFit (f : VideoFrame) : Type 0 where
  pub format_fits : f.format.format < 2 ^ 32
  pub width_fits : f.format.width < 2 ^ 32
  pub height_fits : f.format.height < 2 ^ 32

-- The data of a frame is as long as the buffer that its format asks for.
abbrev pub sent_format : VideoFrame → VideoFormat
sent_format f = video_format f.format.format f.format.width f.format.height

pub record IsSendable (f : VideoFrame) : Type 0 where
  pub fields : FieldsFit f
  pub size_exact : 0 < length f.bytes → length f.bytes ≡ frame_size (sent_format f)
