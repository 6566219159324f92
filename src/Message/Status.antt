-- ===== src/Message/Status.antt =====
-- MsgStatus of VCamUtils/src/message.cpp: the answer to a broadcast. A status is the 32-bit pattern
-- of an int.
use akvirtualcamera.Base.{
  ℕ, ◌⊎◌, inl, inr, ◌-◌, ◌^◌, ◌<◌, ◌≡◌, refl, ◌||◌, not, Option, some, ◌>>=◌, arith, ◌==◌,
  if◌then◌else◌, length, append-nil, [],
}
use akvirtualcamera.Base.Buffer.{
  le_bytes, read_uint, length-le_bytes, read_uint-at, read_uint-within,
}
use akvirtualcamera.Message.{Message, msg_status}

pub record MsgStatus : Type 0 where
  pub query_id : ℕ
  pub status : ℕ

-- -1, as the bits of an int.
abbrev pub minus_one : ℕ
minus_one = 2 ^ 32 - 1

unfoldable pub to_message : MsgStatus → Message
to_message s = record { id = msg_status; query_id = s.query_id; data_bytes = le_bytes 4 s.status }

unfoldable pub from_message : Message → Option MsgStatus
from_message m =
    if not (m.id == msg_status) || not (length m.data_bytes == 4)
    then some (record { query_id = m.query_id; status = 0 })
    else do
      status ← read_uint m.data_bytes 0 4
      some (record { query_id = m.query_id; status = status })

-- A status of 32 bits is decoded to what was sent.
pub status_round_trip : (s : MsgStatus) → s.status < 2 ^ 32 → from_message (to_message s) ≡ some s
unfolding from_message to_message
status_round_trip s fits = ground (
  arith,
  length-le_bytes 4 s.status,
  read_uint-at {buf = le_bytes 4 s.status} [] [] s.status 4 {off = 0} (rw append-nil) refl fits,
)

status_cases :
    (m : Message)
    → (from_message m ≡ some (record { query_id = m.query_id; status = 0 }))
      ⊎ ((length m.data_bytes ≡ 4)
          × (from_message m ≡ (
              read_uint m.data_bytes 0 4 >>= λ status.
              some (record { query_id = m.query_id; status = status }))))
unfolding from_message
status_cases m = ground arith

-- No message makes the decoder read past its end, and the query id is kept.
pub status_safe :
    (m : Message) → (s : MsgStatus) × (from_message m ≡ some s) × (s.query_id ≡ m.query_id)
status_safe m = elim (status_cases m) [
  | inl e ↦ (record { query_id = m.query_id; status = 0 }, e, refl)
  | inr (n, e) ↦
      let (status, r) = read_uint-within m.data_bytes 0 4 (omega arith) in
      (record { query_id = m.query_id; status = status }, rw (e, r), refl)
]
