-- ===== src/Message/FrameReady.antt =====
-- MsgFrameReady of VCamUtils/src/message.cpp: the service's answer to a listen request.
use akvirtualcamera.Base.{
  ℕ, Bool, true, false, not, ◌+◌, ◌^◌, ◌<◌, ◌≡◌, refl, ◌&&◌, [], ◌++◌, Option, none, some, ◌>>=◌,
  arith, Bytes, ◌==◌, if◌then◌else◌, length, length-append, append_assoc, append-nil,
}
use akvirtualcamera.Base.Buffer.{le_bytes, read_uint, length-le_bytes, read_uint-at}
use akvirtualcamera.Number.Algorithm.{wrap64}
use akvirtualcamera.Video.Frame.{VideoFrame, default_frame, frame_size}
use akvirtualcamera.Message.{Message, msg_frame_ready}
use akvirtualcamera.Message.Wire.{read_device, read_size, read_device-middle}
use akvirtualcamera.Message.Frames.{
  write_frame, read_header, read_all, received, FieldsFit, sent_format,
}
use akvirtualcamera.Message.Frames.RoundTrip.{
  header_of, length-write_frame, read_header-write_frame, read_all-write_frame, read_all_overflow,
}
use akvirtualcamera.Message.Frames.RoundTrip

pub record MsgFrameReady : Type 0 where
  pub query_id : ℕ
  pub device : Bytes
  pub frame : VideoFrame
  pub is_active : Bool

-- A bool is one byte, 0 or 1.
abbrev bool_byte : Bool → ℕ
bool_byte true = 1
bool_byte false = 0

unfoldable pub to_message : MsgFrameReady → Message
unfolding write_frame
to_message b = record {
  id = msg_frame_ready;
  query_id = b.query_id;
  data_bytes =
      le_bytes 8 (length b.device)
      ++ (b.device ++ (write_frame b.frame ++ le_bytes 1 (bool_byte b.is_active)));
}

-- Where the size of the frame's data stands, as the decoder computes it first.
abbrev size_offset : ℕ → ℕ
size_offset device_size = wrap64 (8 + device_size + 4 + 4 + 4)

module _ (heap : ℕ → Bytes) where
  unfoldable pub read_fields : Message → ℕ → Option MsgFrameReady
  read_fields m device_size = do
    device ← read_device m.data_bytes device_size
    h ← read_header m.data_bytes (8 + device_size)
    frame ← read_all heap m.data_bytes (8 + device_size + 20) h
    active ← read_uint m.data_bytes (8 + device_size + 20 + h.data_size) 1
    some (record {
      query_id = m.query_id;
      device = device;
      frame = frame;
      is_active = not (active == 0);
    })

  -- The constructor from a Message: both sizes are read before the id and the length are checked.
  unfoldable pub from_message : Message → Option MsgFrameReady
  from_message m = do
    device_size ← read_uint m.data_bytes 0 8
    data_size ← read_uint m.data_bytes (size_offset device_size) 8
    if m.id == msg_frame_ready
          && length m.data_bytes == wrap64 (size_offset device_size + 8 + data_size + 1)
        then read_fields m device_size
        else some (record {
          query_id = m.query_id;
          device = [];
          frame = default_frame;
          is_active = false;
        })

-- Its fields fit their types, and the message fits the memory.
pub record IsValid (b : MsgFrameReady) : Type 0 where
  pub message_fits : length b.device + 29 + length b.frame.bytes < 2 ^ 64
  pub fields : FieldsFit b.frame

message_query_id : (b : MsgFrameReady) → (to_message b).query_id ≡ b.query_id
unfolding to_message
message_query_id b = refl

message_id : (b : MsgFrameReady) → (to_message b).id ≡ msg_frame_ready
unfolding to_message
message_id b = refl

module _ (b : MsgFrameReady) (v : IsValid b) where
  abbrev prefix : Bytes
  prefix = le_bytes 8 (length b.device) ++ b.device

  abbrev flag : Bytes
  flag = le_bytes 1 (bool_byte b.is_active)

  length-prefix : length prefix ≡ 8 + length b.device
  length-prefix = omega (arith, length-append {0}, length-le_bytes)

  split_data : (to_message b).data_bytes ≡ prefix ++ (write_frame b.frame ++ flag)
  unfolding to_message
  split_data = simp append_assoc

  length-data : length (to_message b).data_bytes ≡ 29 + length b.device + length b.frame.bytes
  unfolding to_message
  length-data = omega (arith, length-append {0}, length-le_bytes, length-write_frame)

  read-device_size : read_uint (to_message b).data_bytes 0 8 ≡ some (length b.device)
  unfolding to_message
  read-device_size = read_size b.device _ (omega (arith, v.message_fits))

  read-device : read_device (to_message b).data_bytes (length b.device) ≡ some b.device
  unfolding to_message
  read-device = read_device-middle b.device _

  read-data_size :
      read_uint (to_message b).data_bytes (8 + length b.device + 4 + 4 + 4) 8
      ≡ some (length b.frame.bytes)
  read-data_size =
      rw (← length-prefix, split_data)
        (RoundTrip.read_size prefix flag b.frame v.fields (omega (arith, v.message_fits)))

  read-header :
      read_header (to_message b).data_bytes (8 + length b.device) ≡ some (header_of b.frame)
  read-header =
      rw (← length-prefix, split_data)
        (read_header-write_frame prefix flag b.frame v.fields (omega (arith, v.message_fits)))

  flag_fits : bool_byte b.is_active < 256
  flag_fits = ground arith

  read-active :
      read_uint (to_message b).data_bytes (8 + length b.device + 20 + length b.frame.bytes) 1
      ≡ some (bool_byte b.is_active)
  read-active =
      read_uint-at (prefix ++ write_frame b.frame) [] (bool_byte b.is_active) 1
        (rw split_data (simp (append_assoc, append-nil)))
        (omega (arith, length-append {0}, length-le_bytes, length-write_frame)) flag_fits

  module _ (heap : ℕ → Bytes) (sized : (n : ℕ) → length (heap n) ≡ n) where
    read-frame :
        (0 < length b.frame.bytes → length b.frame.bytes ≡ frame_size (sent_format b.frame))
        → read_all heap (to_message b).data_bytes (8 + length b.device + 20) (header_of b.frame)
          ≡ some (received heap b.frame)
    read-frame exact =
        rw (← length-prefix, split_data)
          (read_all-write_frame prefix flag b.frame v.fields (omega (arith, v.message_fits)) heap
            sized exact)

    read_fields-to_message :
        (0 < length b.frame.bytes → length b.frame.bytes ≡ frame_size (sent_format b.frame))
        → read_fields heap (to_message b) (length b.device)
          ≡ some (record b { frame = received heap b.frame })
    unfolding read_fields
    read_fields-to_message exact =
        ground (arith, message_query_id b, read-device, read-header, read-frame exact, read-active)

    read_fields_overflow :
        frame_size (sent_format b.frame) < length b.frame.bytes
        → read_fields heap (to_message b) (length b.device) ≡ none
    unfolding read_fields
    read_fields_overflow h =
        let overflow =
          read_all_overflow prefix flag b.frame v.fields (omega (arith, v.message_fits)) heap sized
            (omega arith) h in
        rw (read-device, read-header, ← length-prefix, split_data, overflow)

-- An answer whose fields fit their types, whose message fits the memory, and whose frame has no data
-- or as much as its format asks for, is decoded to what was sent, but for what `received` says of the
-- frame. New memory of any contents may be given to the decoder.
pub frame_ready_round_trip :
    (heap : ℕ → Bytes)
    → ((n : ℕ) → length (heap n) ≡ n)
    → (b : MsgFrameReady) → IsValid b
    → (0 < length b.frame.bytes → length b.frame.bytes ≡ frame_size (sent_format b.frame))
    → from_message heap (to_message b) ≡ some (record b { frame = received heap b.frame })
unfolding from_message
frame_ready_round_trip heap sized b v exact = ground (
  arith,
  read-device_size b v,
  read-data_size b v,
  length-data b v,
  message_id b,
  read_fields-to_message b v heap sized exact,
)

-- An answer whose fields fit their types, whose message fits the memory, and whose frame has more
-- data than its format asks for makes the decoder write past the end of the frame's buffer.
pub frame_ready_overflow :
    (heap : ℕ → Bytes)
    → ((n : ℕ) → length (heap n) ≡ n)
    → (b : MsgFrameReady) → IsValid b
    → frame_size (sent_format b.frame) < length b.frame.bytes
    → from_message heap (to_message b) ≡ none
unfolding from_message
frame_ready_overflow heap sized b v h = ground (
  arith,
  read-device_size b v,
  read-data_size b v,
  length-data b v,
  message_id b,
  read_fields_overflow b v heap sized h,
)
