-- ===== src/Message.antt =====
-- VCamUtils/src/message.cpp: the messages between the clients and the service, and their layout as
-- bytes on a 64-bit little-endian machine (8 bytes for a size_t, 4 for an int or an enum, 1 for a
-- bool). The decoders read sizes from the message before they check them; a read that leaves the
-- data is undefined behaviour, and the result is `none`.
mod Wire
pub mod Status
pub mod Clients
pub mod Listen
pub mod Broadcast
pub mod FrameReady
pub mod Frames
use akvirtualcamera.Base.{ℕ, Bool, ◌&&◌, Bytes, ◌==◌, str_eq}

-- Message: `id` is the 32-bit pattern of an int.
pub record Message : Type 0 where
  pub id : ℕ
  pub query_id : ℕ
  pub data_bytes : Bytes

-- operator ==.
unfoldable pub message_eq : Message → Message → Bool
unfolding str_eq
message_eq a b = a.id == b.id && (a.query_id == b.query_id && str_eq a.data_bytes b.data_bytes)

-- VCamUtils/src/servicemsg.h.
abbrev pub msg_clients : ℕ
msg_clients = 0x001

abbrev pub msg_status : ℕ
msg_status = 0x101

abbrev pub msg_frame_ready : ℕ
msg_frame_ready = 0x102

abbrev pub msg_broadcast : ℕ
msg_broadcast = 0x201

abbrev pub msg_listen : ℕ
msg_listen = 0x202
