-- ===== src/Sockets.antt =====
-- VCamUtils/src/sockets.cpp and sockets.h: whole values over a socket that transfers parts of them,
-- and the three values of a message, as VCamUtils/src/messageclient.cpp and messageserver.cpp send and
-- receive them.
pub mod Transfer
pub mod Framing
use akvirtualcamera.Base.{
  ℕ, zero, suc, ◌+◌, ◌-◌, ◌≤◌, ◌<◌, ◌≡◌, ◌≢◌, List, [], ◌∷◌, ◌++◌, Option, none, some, ◌>>=◌, ltb,
  ◌==◌, if◌then◌else◌, Bytes, length, take, drop, is_empty,
}
use akvirtualcamera.Base.Buffer.{le_bytes, le_value}
use akvirtualcamera.Message.{Message}

-- A connected socket of the system. `receive n` is ::recv of at most `n` bytes, and `transmit` is
-- ::send, which says how many of the bytes it took; `none` is a result below 0. `pending` are the
-- bytes that the other side has sent and that are not received yet, `outbox` those sent to it.
pub record Socket (S : Type 0) : Type 0 where
  pub receive : ℕ → S → Option (Bytes × S)
  pub transmit : Bytes → S → Option (ℕ × S)
  pub pending : S → Bytes
  pub outbox : S → Bytes
  pub received_in_order :
      (n : ℕ) (s t : S) (bytes : Bytes)
      → receive n s ≡ some (bytes, t)
      → (length bytes ≤ n) × (pending s ≡ bytes ++ pending t) × (outbox t ≡ outbox s)
  pub receives :
      (n : ℕ) (s : S)
      → 0 < n
      → 0 < length (pending s)
      → (bytes : Bytes) × (t : S) × (receive n s ≡ some (bytes, t)) × (0 < length bytes)
  pub sent_in_order :
      (bytes : Bytes) (s t : S) (n : ℕ)
      → transmit bytes s ≡ some (n, t)
      → (n ≤ length bytes) × (outbox t ≡ outbox s ++ take n bytes) × (pending t ≡ pending s)

module _ {S : Type 0} (k : Socket S) where
  -- recv(socket, data, dataSize): the bytes that are still to be received are the second argument. A
  -- round receives a byte at least, so that as much fuel is enough.
  unfoldable pub recv_loop : ℕ → ℕ → S → Option (Bytes × S)
  recv_loop fuel zero s = some ([], s)
  recv_loop zero (suc n) s = none
  recv_loop (suc fuel) (suc n) s = do
    (bytes, t) ← k.receive (suc n) s
    let rest = recv_loop fuel (suc n - length bytes) t
    if ltb (length bytes) 1 then none else (do (more, u) ← rest; some (bytes ++ more, u))

  unfoldable pub recv_bytes : ℕ → S → Option (Bytes × S)
  unfolding recv_loop
  recv_bytes n s = recv_loop n n s

  -- send(socket, data, dataSize), of the bytes that are still to be sent.
  unfoldable pub send_loop : ℕ → Bytes → S → Option S
  send_loop fuel [] s = some s
  send_loop zero (b ∷ data_left) s = none
  send_loop (suc fuel) (b ∷ data_left) s = do
    (n, t) ← k.transmit (b ∷ data_left) s
    let rest = send_loop fuel (drop n (b ∷ data_left)) t
    if ltb n 1 then none else rest

  unfoldable pub send_bytes : Bytes → S → Option S
  unfolding send_loop
  send_bytes bytes s = send_loop (length bytes) bytes s

  -- recv(socket, value) of a number of `size` bytes.
  unfoldable pub recv_uint : ℕ → S → Option (ℕ × S)
  recv_uint size s = do (bytes, t) ← recv_bytes size s; some (le_value bytes, t)

  -- recv(socket, std::vector<char>).
  unfoldable pub recv_vector : S → Option (Bytes × S)
  recv_vector s = do
    (size, t) ← recv_uint 8 s
    if ltb 0 size then recv_bytes size t else some ([], t)

  -- send(socket, std::vector<char>).
  unfoldable pub send_vector : Bytes → S → Option S
  send_vector bytes s = do
    t ← send_bytes (le_bytes 8 (length bytes)) s
    if ltb 0 (length bytes) then send_bytes bytes t else some t

  unfoldable pub send_message : Message → S → Option S
  send_message m s = do
    t ← send_bytes (le_bytes 4 m.id) s
    u ← send_bytes (le_bytes 8 m.query_id) t
    send_vector m.data_bytes u

  unfoldable pub recv_message : S → Option (Message × S)
  recv_message s = do
    (id, t) ← recv_uint 4 s
    (query_id, u) ← recv_uint 8 t
    (data_bytes, v) ← recv_vector u
    some (record { id = id; query_id = query_id; data_bytes = data_bytes }, v)
