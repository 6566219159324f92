-- ===== src/Examples/Messages.antt =====
-- The theorems on messages at concrete messages.
use akvirtualcamera.Base.{
  ℕ, ◌+◌, ◌<◌, ◌≡◌, refl, true, List, [], ◌∷◌, ◌++◌, none, some, arith, Bytes, codes, length,
  replicate, length-replicate,
}
use akvirtualcamera.Base.Buffer.{le_bytes, read_uint, read_bytes, le_value}
use akvirtualcamera.Number.Algorithm.{align_up}
use akvirtualcamera.Video.PixelFormat
use akvirtualcamera.Video.Format.{video_format, plane_size}
use akvirtualcamera.Video.Frame.{VideoFrame, frame_size}
use akvirtualcamera.Message.{Message, msg_listen, msg_clients}
use akvirtualcamera.Message.Frames.{FieldsFit, IsSendable, received}
use akvirtualcamera.Message.Listen.{MsgListen, listen_round_trip, listen_short, listen_safe}
use akvirtualcamera.Message.Listen
use akvirtualcamera.Message.Status.{MsgStatus, minus_one}
use akvirtualcamera.Message.Clients.{
  MsgClients, no_clients, clients_round_trip, clients_lossy, clients_overread,
}
use akvirtualcamera.Message.Clients
use akvirtualcamera.Message.Broadcast.{MsgBroadcast, broadcast_round_trip, broadcast_overread}
use akvirtualcamera.Message.Broadcast
use akvirtualcamera.Message.FrameReady.{MsgFrameReady, frame_ready_round_trip, frame_ready_overflow}
use akvirtualcamera.Message.FrameReady

abbrev camera : Bytes
camera = codes "cam"

abbrev request : MsgListen
request = record { query_id = 7; device = camera; pid = 42 }

abbrev short_message : Message
short_message = record { id = msg_listen; query_id = 7; data_bytes = 3 ∷ 0 ∷ [] }

listen_short_example : Listen.from_message short_message ≡ none
listen_short_example = listen_short short_message (omega arith)

-- A request without its process id.
abbrev truncated : Message
truncated = record { id = msg_listen; query_id = 7; data_bytes = le_bytes 8 3 ++ camera }

truncated_size : read_uint truncated.data_bytes 0 8 ≡ some 3
unfolding read_uint le_bytes read_bytes le_value
truncated_size = refl

abbrev failure : MsgStatus
failure = record { query_id = 7; status = minus_one }

abbrev client_list : List ℕ → MsgClients
client_list cs = record { query_id = 7; client_type = 1; clients = cs }

clients_lossy_example :
    Clients.from_message (Clients.to_message (client_list (42 ∷ 43 ∷ []))) ≡ some (no_clients 7)
clients_lossy_example = clients_lossy (client_list (42 ∷ 43 ∷ [])) (omega arith)

-- One client, and a count of two.
abbrev miscounted : Message
miscounted = record {
  id = msg_clients;
  query_id = 7;
  data_bytes = le_bytes 4 1 ++ (le_bytes 8 2 ++ le_bytes 8 42);
}

miscounted_length : length miscounted.data_bytes ≡ 20
unfolding le_bytes
miscounted_length = refl

miscounted_count : read_uint miscounted.data_bytes 4 8 ≡ some 2
unfolding read_uint le_bytes read_bytes le_value
miscounted_count = refl

-- New memory that happens to hold zeros.
abbrev pub zeros : ℕ → Bytes
zeros n = replicate n 0

pub zeros_sized : (n : ℕ) → length (zeros n) ≡ n
zeros_sized n = length-replicate n 0

-- One pixel of RGB24: a line of three bytes, aligned to 32.
abbrev pub pixel : ℕ → VideoFrame
pixel n = record { format = video_format PixelFormat.rgb24 1 1; params = []; bytes = replicate n 9 }

pixel_size : frame_size (video_format PixelFormat.rgb24 1 1) ≡ 32
unfolding frame_size align_up plane_size
pixel_size = refl

pixel_fields : (n : ℕ) → FieldsFit (pixel n)
pixel_fields n = record {
  format_fits = omega arith;
  width_fits = omega arith;
  height_fits = omega arith;
}

pixel-IsSendable : IsSendable (pixel 32)
pixel-IsSendable = record { fields = pixel_fields 32; size_exact = λ _. omega (arith, pixel_size) }

abbrev pub sent_pixel : MsgBroadcast
sent_pixel = record { query_id = 7; device = camera; pid = 42; frame = pixel 32 }

pub sent_pixel-IsValid : Broadcast.IsValid sent_pixel
sent_pixel-IsValid = record {
  message_fits = omega arith;
  pid_fits = omega arith;
  frame_sendable = pixel-IsSendable;
}

broadcast_round_trip_example :
    Broadcast.from_message zeros (Broadcast.to_message sent_pixel)
    ≡ some (record sent_pixel { frame = received zeros (pixel 32) })
broadcast_round_trip_example = broadcast_round_trip zeros zeros_sized sent_pixel sent_pixel-IsValid

truncated_length : length truncated.data_bytes < 3 + 36
unfolding le_bytes
truncated_length = omega arith

abbrev answered : ℕ → MsgFrameReady
answered n = record { query_id = 7; device = camera; frame = pixel n; is_active = true }

answered-IsValid : (n : ℕ) → n < 100 → FrameReady.IsValid (answered n)
answered-IsValid n h = record {
  message_fits = omega (arith, length-replicate {A = ℕ} n 9);
  fields = pixel_fields n;
}
