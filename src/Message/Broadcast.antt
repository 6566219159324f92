-- ===== src/Message/Broadcast.antt =====
-- MsgBroadcast of VCamUtils/src/message.cpp: a client sends a frame of a device.
use akvirtualcamera.Base.{
  ℕ, ◌+◌, ◌^◌, ◌<◌, ◌≡◌, refl, ◌&&◌, [], ◌++◌, Option, none, some, ◌>>=◌, arith, Bytes, ◌==◌,
  if◌then◌else◌, length, length-append, append_assoc, append-nil,
}
use akvirtualcamera.Base.Buffer.{le_bytes, read_uint, length-le_bytes, read_uint-at, read_uint-past}
use akvirtualcamera.Number.Algorithm.{wrap64}
use akvirtualcamera.Video.Frame.{VideoFrame, default_frame}
use akvirtualcamera.Message.{Message, msg_broadcast}
use akvirtualcamera.Message.Wire.{read_device, read_size, read_device-middle}
use akvirtualcamera.Message.Frames.{write_frame, read_header, read_bounded, received, IsSendable}
use akvirtualcamera.Message.Frames.RoundTrip.{
  header_of, length-write_frame, read_header-write_frame, read_bounded-write_frame,
}
use akvirtualcamera.Message.Frames.RoundTrip

pub record MsgBroadcast : Type 0 where
  pub query_id : ℕ
  pub device : Bytes
  pub pid : ℕ
  pub frame : VideoFrame

unfoldable pub to_message : MsgBroadcast → Message
unfolding write_frame
to_message b = record {
  id = msg_broadcast;
  query_id = b.query_id;
  data_bytes =
      le_bytes 8 (length b.device) ++ (b.device ++ (le_bytes 8 b.pid ++ write_frame b.frame));
}

-- Where the size of the frame's data stands, as the decoder computes it first.
abbrev size_offset : ℕ → ℕ
size_offset device_size = wrap64 (8 + device_size + 8 + 4 + 4 + 4)

module _ (heap : ℕ → Bytes) where
  unfoldable pub read_fields : Message → ℕ → Option MsgBroadcast
  read_fields m device_size = do
    device ← read_device m.data_bytes device_size
    pid ← read_uint m.data_bytes (8 + device_size) 8
    h ← read_header m.data_bytes (8 + device_size + 8)
    frame ← read_bounded heap m.data_bytes (8 + device_size + 8 + 20) h
    some (record { query_id = m.query_id; device = device; pid = pid; frame = frame })

  -- The constructor from a Message: both sizes are read before the id and the length are checked.
  unfoldable pub from_message : Message → Option MsgBroadcast
  from_message m = do
    device_size ← read_uint m.data_bytes 0 8
    data_size ← read_uint m.data_bytes (size_offset device_size) 8
    if m.id == msg_broadcast
          && length m.data_bytes == wrap64 (size_offset device_size + 8 + data_size)
        then read_fields m device_size
        else some (record { query_id = m.query_id; device = []; pid = 0; frame = default_frame })

-- Its fields fit their types, and the message fits the memory.
pub record IsValid (b : MsgBroadcast) : Type 0 where
  pub message_fits : length b.device + 36 + length b.frame.bytes < 2 ^ 64
  pub pid_fits : b.pid < 2 ^ 64
  pub frame_sendable : IsSendable b.frame

message_query_id : (b : MsgBroadcast) → (to_message b).query_id ≡ b.query_id
unfolding to_message
message_query_id b = refl

message_id : (b : MsgBroadcast) → (to_message b).id ≡ msg_broadcast
unfolding to_message
message_id b = refl

module _ (b : MsgBroadcast) (v : IsValid b) where
  abbrev prefix : Bytes
  prefix = le_bytes 8 (length b.device) ++ (b.device ++ le_bytes 8 b.pid)

  length-prefix : length prefix ≡ 8 + length b.device + 8
  length-prefix = omega (arith, length-append {0}, length-le_bytes)

  split_data : (to_message b).data_bytes ≡ prefix ++ (write_frame b.frame ++ [])
  unfolding to_message
  split_data = simp (append_assoc, append-nil)

  length-data : length (to_message b).data_bytes ≡ 36 + length b.device + length b.frame.bytes
  unfolding to_message
  length-data = omega (arith, length-append {0}, length-le_bytes, length-write_frame)

  read-device_size : read_uint (to_message b).data_bytes 0 8 ≡ some (length b.device)
  unfolding to_message
  read-device_size = read_size b.device _ (omega (arith, v.message_fits))

  read-device : read_device (to_message b).data_bytes (length b.device) ≡ some b.device
  unfolding to_message
  read-device = read_device-middle b.device _

  read-pid : read_uint (to_message b).data_bytes (8 + length b.device) 8 ≡ some b.pid
  unfolding to_message
  read-pid =
      read_uint-at (le_bytes 8 (length b.device) ++ b.device) (write_frame b.frame) b.pid 8
        (simp append_assoc) (omega (arith, length-append {0}, length-le_bytes)) v.pid_fits

  read-data_size :
      read_uint (to_message b).data_bytes (8 + length b.device + 8 + 4 + 4 + 4) 8
      ≡ some (length b.frame.bytes)
  read-data_size =
      rw (← length-prefix, split_data)
        (RoundTrip.read_size prefix [] b.frame v.frame_sendable.fields
          (omega (arith, v.message_fits)))

  read-header :
      read_header (to_message b).data_bytes (8 + length b.device + 8) ≡ some (header_of b.frame)
  read-header =
      rw (← length-prefix, split_data)
        (read_header-write_frame prefix [] b.frame v.frame_sendable.fields
          (omega (arith, v.message_fits)))

  module _ (heap : ℕ → Bytes) (sized : (n : ℕ) → length (heap n) ≡ n) where
    read-frame :
        read_bounded heap
          (to_message b).data_bytes
          (8 + length b.device + 8 + 20)
          (header_of b.frame)
        ≡ some (received heap b.frame)
    read-frame =
        rw (← length-prefix, split_data)
          (read_bounded-write_frame prefix [] b.frame v.frame_sendable.fields
            (omega (arith, v.message_fits)) heap sized v.frame_sendable.size_exact)

    read_fields-to_message :
        read_fields heap (to_message b) (length b.device)
        ≡ some (record b { frame = received heap b.frame })
    unfolding read_fields
    read_fields-to_message =
        ground (arith, message_query_id b, read-device, read-pid, read-header, read-frame)

-- A broadcast whose fields fit their types, whose message fits the memory, and whose frame has no data
-- or as much as its format asks for, is decoded to what was sent, but for what `received` says of the
-- frame. New memory of any contents may be given to the decoder.
pub broadcast_round_trip :
    (heap : ℕ → Bytes)
    → ((n : ℕ) → length (heap n) ≡ n)
    → (b : MsgBroadcast) → IsValid b
    → from_message heap (to_message b) ≡ some (record b { frame = received heap b.frame })
unfolding from_message
broadcast_round_trip heap sized b v = ground (
  arith,
  read-device_size b v,
  read-data_size b v,
  length-data b v,
  message_id b,
  read_fields-to_message b v heap sized,
)

-- A message whose stated device size leaves no room for the rest is read past its end, whatever its
-- id and its length: the size of the data is read before they are checked.
pub broadcast_overread :
    (heap : ℕ → Bytes) (m : Message) (device_size : ℕ)
    → read_uint m.data_bytes 0 8 ≡ some device_size
    → device_size + 28 < 2 ^ 64
    → length m.data_bytes < device_size + 36
    → from_message heap m ≡ none
unfolding from_message
broadcast_overread heap m device_size e small h =
    let wrapped : size_offset device_size ≡ device_size + 28 = omega arith in
    let past = read_uint-past m.data_bytes (size_offset device_size) 8 (omega (arith, wrapped)) in
    rw (e, past)
