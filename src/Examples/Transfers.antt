-- ===== src/Examples/Transfers.antt =====
-- The theorems on the sockets and the client at a concrete socket, which takes and gives one byte at
-- a time, and at a concrete client and server.
use akvirtualcamera.Base.{
  ◌+◌, ◌<◌, ◌-◌, ◌≤◌, ℕ, zero, suc, ◌≡◌, refl, sym, subst, true, [], ◌∷◌, ◌++◌, Option, none, some,
  ltb, arith, take, length, Bytes, append-nil,
}
use akvirtualcamera.Base.Buffer.{le_bytes}
use akvirtualcamera.Message.{Message, msg_clients}
use akvirtualcamera.Server.{handle, find_handler, Round}
use akvirtualcamera.Sockets.{Socket, send_loop, send_bytes, recv_message, send_message, send_vector}
use akvirtualcamera.Sockets.Framing.{Fits, wire, recv_message-send_message}
use akvirtualcamera.Client.{Callbacks, Outcome, finish_round, exchange}
use akvirtualcamera.Client.Ends.{BringsDown, exchange_ends}
use akvirtualcamera.Client.Exchange.{Link, Server, serve, new_link}
use akvirtualcamera.Examples.Connections.{counting}

-- The bytes that are still to be received, and those that were sent.
abbrev Ends : Type 0
Ends = Bytes × Bytes

unfoldable receive_byte : ℕ → Ends → Option (Bytes × Ends)
receive_byte zero s = some ([], s)
receive_byte (suc n) ([], sent) = none
receive_byte (suc n) (b ∷ bytes, sent) = some (b ∷ [], (bytes, sent))

unfoldable transmit_byte : Bytes → Ends → Option (ℕ × Ends)
transmit_byte [] s = some (0, s)
transmit_byte (b ∷ bytes) (waiting, sent) = some (1, (waiting, sent ++ b ∷ []))

abbrev Received : ℕ → Ends → Bytes × Ends → Type 0
Received n s r = (length r.0 ≤ n) × (s.0 ≡ r.0 ++ r.1.0) × (r.1.1 ≡ s.1)

abbrev Transmitted : Bytes → Ends → ℕ × Ends → Type 0
Transmitted bytes s r = (r.0 ≤ length bytes) × (r.1.1 ≡ s.1 ++ take r.0 bytes) × (r.1.0 ≡ s.0)

receive_byte-order :
    (n : ℕ) (s t : Ends) (bytes : Bytes)
    → receive_byte n s ≡ some (bytes, t)
    → (length bytes ≤ n) × (s.0 ≡ bytes ++ t.0) × (t.1 ≡ s.1)
unfolding receive_byte
receive_byte-order zero s t bytes e =
    let same : ([], s) ≡ (bytes, t) = ground (arith, e) in
    subst (Received 0 s) same (omega arith, refl, refl)
receive_byte-order (suc n) ([], sent) t bytes e = absurd (ground (arith, e))
receive_byte-order (suc n) (b ∷ waiting, sent) t bytes e =
    let same : (b ∷ [], (waiting, sent)) ≡ (bytes, t) = ground (arith, e) in
    subst (Received (suc n) (b ∷ waiting, sent)) same (omega arith, refl, refl)

receive_byte-more :
    (n : ℕ) (s : Ends)
    → 0 < n
    → 0 < length s.0
    → (bytes : Bytes) × (t : Ends) × (receive_byte n s ≡ some (bytes, t)) × (0 < length bytes)
unfolding receive_byte
receive_byte-more zero s h h' = absurd (omega arith)
receive_byte-more (suc n) ([], sent) h h' = absurd (omega arith)
receive_byte-more (suc n) (b ∷ waiting, sent) h h' = (b ∷ [], (waiting, sent), refl, omega arith)

transmit_byte-order :
    (bytes : Bytes) (s t : Ends) (n : ℕ)
    → transmit_byte bytes s ≡ some (n, t)
    → (n ≤ length bytes) × (t.1 ≡ s.1 ++ take n bytes) × (t.0 ≡ s.0)
unfolding transmit_byte
transmit_byte-order [] s t n e =
    let same : (0, s) ≡ (n, t) = ground (arith, e) in
    subst (Transmitted [] s) same (omega arith, sym (append-nil s.1), refl)
transmit_byte-order (b ∷ bytes) (waiting, sent) t n e =
    let same : (1, (waiting, sent ++ b ∷ [])) ≡ (n, t) = ground (arith, e) in
    subst (Transmitted (b ∷ bytes) (waiting, sent)) same (omega arith, refl, refl)

abbrev by_bytes : Socket Ends
by_bytes = record {
  receive = receive_byte;
  transmit = transmit_byte;
  pending = λ s. s.0;
  outbox = λ s. s.1;
  received_in_order = receive_byte-order;
  receives = receive_byte-more;
  sent_in_order = transmit_byte-order;
}

-- Seven bytes of the other side, none sent.
abbrev seven : Ends
seven = (1 ∷ 2 ∷ 3 ∷ 4 ∷ 5 ∷ 6 ∷ 7 ∷ [], [])

abbrev both : Ends
both = (seven.0, 8 ∷ 9 ∷ [])

two_sent : send_bytes by_bytes (8 ∷ 9 ∷ []) seven ≡ some both
unfolding send_bytes send_loop transmit_byte
two_sent = refl

abbrev letter : Message
letter = record { id = msg_clients; query_id = 7; data_bytes = 10 ∷ 20 ∷ 30 ∷ [] }

letter-Fits : Fits letter
letter-Fits = record { id_fits = omega arith; query_id_fits = omega arith; size_fits = omega arith }

-- The two ends of one connection, behind the letter.
abbrev sender : Ends
sender = ([], wire letter)

abbrev receiver : Ends
receiver = (wire letter, [])

letter_sent : send_message by_bytes letter ([], []) ≡ some sender
unfolding send_message send_vector send_bytes send_loop transmit_byte le_bytes
letter_sent = refl

recv_message-send_message_example :
    (w : Ends) × (recv_message by_bytes receiver ≡ some (letter, w)) × (w.0 ≡ [])
recv_message-send_message_example =
    recv_message-send_message by_bytes letter ([], []) sender receiver letter-Fits refl letter_sent
      refl

-- It asks the same twice.
abbrev twice : Callbacks ℕ
twice = record { read_data = λ n. (n + 1, letter, true); write_data = λ answer n. (n, ltb n 2) }

abbrev round : Round
round = record { message = letter; fresh = 40; sendable = true }

abbrev link : Link ℕ
link = record { state = 2; rounds = round ∷ round ∷ []; answers = letter ∷ letter ∷ [] }

abbrev asked_twice : Outcome ℕ (Server ℕ)
asked_twice = record { callbacks = 2; connection = some link; ok = true }

exchanged :
    exchange twice (serve counting 5 (λ n. 40)) 3 0 (some (new_link counting 5 (λ n. 40) 0))
    ≡ some asked_twice
unfolding exchange finish_round serve handle find_handler
exchanged = refl

-- It is asked twice at most.
twice-BringsDown : BringsDown twice (serve counting 5 (λ n. 40)) (λ n. 2 - n)
twice-BringsDown n answer go_on =
    let less : n + 1 < 2 = ground (arith, go_on) in omega (arith, less)

exchange_ends_example :
    (o : Outcome ℕ (Server ℕ)) × (exchange twice
        (serve counting 5 (λ n. 40))
        3
        0
        (some (new_link counting 5 (λ n. 40) 0))
      ≡ some o)
exchange_ends_example =
    exchange_ends twice (serve counting 5 (λ n. 40)) (λ n. 2 - n) 3 0
      (some (new_link counting 5 (λ n. 40) 0)) twice-BringsDown (omega arith)
