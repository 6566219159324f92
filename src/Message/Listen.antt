-- ===== src/Message/Listen.antt =====
-- MsgListen of VCamUtils/src/message.cpp: a client asks for the frames of a device.
use akvirtualcamera.Base.{
  ℕ, inl, inr, Bool-cases, ◌+◌, ◌^◌, ◌<◌, ◌≡◌, refl, ◌&&◌, [], ◌++◌, Option, none, some, ◌>>=◌,
  arith, Bytes, ◌==◌, if◌then◌else◌, length, length-append, append_assoc, append-nil,
}
use akvirtualcamera.Base.Buffer.{
  le_bytes, read_uint, length-le_bytes, read_uint-at, read_uint-past, read_uint-within,
}
use akvirtualcamera.Number.Algorithm.{wrap64}
use akvirtualcamera.Message.{Message, msg_listen}
use akvirtualcamera.Message.Wire.{read_device, read_size, read_device-middle, read_device-within}

pub record MsgListen : Type 0 where
  pub query_id : ℕ
  pub device : Bytes
  pub pid : ℕ

unfoldable pub to_message : MsgListen → Message
to_message l = record {
  id = msg_listen;
  query_id = l.query_id;
  data_bytes = le_bytes 8 (length l.device) ++ (l.device ++ le_bytes 8 l.pid);
}

unfoldable pub read_fields : Message → ℕ → Option MsgListen
read_fields m device_size = do
  device ← read_device m.data_bytes device_size
  pid ← read_uint m.data_bytes (8 + device_size) 8
  some (record { query_id = m.query_id; device = device; pid = pid })

-- The constructor from a Message.
unfoldable pub from_message : Message → Option MsgListen
unfolding read_fields
from_message m = do
  device_size ← read_uint m.data_bytes 0 8
  if m.id == msg_listen && length m.data_bytes == wrap64 (8 + device_size + 8)
      then read_fields m device_size
      else some (record { query_id = m.query_id; device = []; pid = 0 })

length_total :
    (device : Bytes) (pid : ℕ)
    → length (le_bytes 8 (length device) ++ (device ++ le_bytes 8 pid)) ≡ 8 + length device + 8
length_total device pid = omega (arith, length-append {0}, length-le_bytes)

read_pid :
    (device : Bytes) (pid : ℕ)
    → pid < 2 ^ 64
    → read_uint (le_bytes 8 (length device) ++ (device ++ le_bytes 8 pid)) (8 + length device) 8
      ≡ some pid
read_pid device pid fits =
    read_uint-at (le_bytes 8 (length device) ++ device) [] pid 8 (simp (append_assoc, append-nil))
      (omega (arith, length-append {0}, length-le_bytes)) fits

-- Its fields fit their types, and the message fits the memory.
pub record IsValid (l : MsgListen) : Type 0 where
  pub device_fits : length l.device + 16 < 2 ^ 64
  pub pid_fits : l.pid < 2 ^ 64

-- A listen request whose process id fits 64 bits, and whose message fits the memory, is decoded to
-- what was sent.
pub listen_round_trip : (l : MsgListen) → IsValid l → from_message (to_message l) ≡ some l
unfolding from_message to_message
listen_round_trip l v = ground (
  arith,
  read_size l.device (le_bytes 8 l.pid) v.device_fits,
  read_device-middle l.device (le_bytes 8 l.pid),
  read_pid l.device l.pid v.pid_fits,
  length_total l.device l.pid,
)

-- A message without room for the size of the device's name is read past its end, whatever its id:
-- the decoder reads the size before it checks the length.
pub listen_short : (m : Message) → length m.data_bytes < 8 → from_message m ≡ none
unfolding from_message
listen_short m h = ground (arith, read_uint-past m.data_bytes 0 8 h)

read_fields_within :
    (m : Message) (device_size : ℕ)
    → length m.data_bytes ≡ 8 + device_size + 8
    → (l : MsgListen) × (read_fields m device_size ≡ some l) × (l.query_id ≡ m.query_id)
unfolding read_fields
read_fields_within m device_size n =
    let (device, ed) = read_device-within m.data_bytes device_size (omega arith) in
    let (pid, ep) = read_uint-within m.data_bytes (8 + device_size) 8 (omega arith) in
    (record { query_id = m.query_id; device = device; pid = pid }, rw (ed, ep), refl)

-- Any other message is decoded with no read past its end, if the size that it states for the name
-- does not overflow the total: a request of the right id and length yields its fields, and any other
-- message the empty request under its query id.
pub listen_safe :
    (m : Message) (device_size : ℕ)
    → read_uint m.data_bytes 0 8 ≡ some device_size
    → device_size + 16 < 2 ^ 64
    → (l : MsgListen) × (from_message m ≡ some l) × (l.query_id ≡ m.query_id)
unfolding from_message
listen_safe m device_size e fits =
    elim (Bool-cases (m.id == msg_listen && length m.data_bytes == wrap64 (8 + device_size + 8))) [
      | inl t ↦
          let n : length m.data_bytes ≡ 8 + device_size + 8 = ground arith in
          let (l, el, q) = read_fields_within m device_size n in (l, rw (e, t) el, q)
      | inr f ↦ (record { query_id = m.query_id; device = []; pid = 0 }, rw (e, f), refl)
    ]
