-- ===== src/Sockets/Framing.antt =====
-- A message over a socket: what one side sends, the other receives.
use akvirtualcamera.Base.{
  ℕ, ◌^◌, ◌<◌, ◌≡◌, refl, sym, ap, ◌∙◌, [], ◌∷◌, ◌++◌, some, ltb, if◌then◌else◌, Bytes, length,
  arith, append_assoc, append-nil, inl, inr, Option-cases,
}
use akvirtualcamera.Base.Buffer.{le_bytes, length-le_bytes, le_value-le_bytes}
use akvirtualcamera.Message.{Message}
use akvirtualcamera.Sockets.{
  Socket, send_bytes, recv_uint, recv_vector, send_vector, send_message, recv_message,
}
use akvirtualcamera.Sockets.Transfer.{recv_bytes-front, send_bytes-outbox}

-- The bytes of a message on the wire.
abbrev pub wire : Message → Bytes
wire m =
    le_bytes 4 m.id ++ (le_bytes 8 m.query_id ++ (le_bytes 8 (length m.data_bytes) ++ m.data_bytes))

-- Its fields fit their types.
pub record Fits (m : Message) : Type 0 where
  pub id_fits : m.id < 2 ^ 32
  pub query_id_fits : m.query_id < 2 ^ 64
  pub size_fits : length m.data_bytes < 2 ^ 64

module _ {S : Type 0} (k : Socket S) where
  recv_uint-front :
      (size v : ℕ) (s : S) (rest : Bytes)
      → k.pending s ≡ le_bytes size v ++ rest
      → v < 256 ^ size
      → (t : S) × (recv_uint k size s ≡ some (v, t))
        × (k.pending t ≡ rest)
        × (k.outbox t ≡ k.outbox s)
  unfolding recv_uint
  recv_uint-front size v s rest e small =
      let (t, run, after, out) =
        recv_bytes-front k size s (le_bytes size v) rest e (length-le_bytes size v) in
      (t, ground (arith, run, le_value-le_bytes size v small), after, out)

  recv_vector-front :
      (bytes : Bytes) (s : S) (rest : Bytes)
      → k.pending s ≡ le_bytes 8 (length bytes) ++ (bytes ++ rest)
      → length bytes < 2 ^ 64
      → (t : S) × (recv_vector k s ≡ some (bytes, t))
        × (k.pending t ≡ rest)
        × (k.outbox t ≡ k.outbox s)
  unfolding recv_vector
  recv_vector-front [] s rest e small =
      let (t, run, after, out) = recv_uint-front 8 0 s rest e (omega arith) in
      (t, ground (arith, run), after, out)
  recv_vector-front (b ∷ bytes) s rest e small =
      let (t, run, after, out) =
        recv_uint-front 8 (length (b ∷ bytes)) s (b ∷ bytes ++ rest) e (omega arith) in
      let (u, run', after', out') =
        recv_bytes-front k (length (b ∷ bytes)) t (b ∷ bytes) rest after refl in
      (u, ground (arith, run, run'), after', out' ∙ out)

  -- Whatever parts the system transfers at once: where the bytes of a message stand first among those
  -- pending, and its fields fit their types, that message is received, and exactly its bytes.
  pub recv_message-wire :
      (m : Message) (s : S) (rest : Bytes)
      → Fits m
      → k.pending s ≡ wire m ++ rest
      → (t : S) × (recv_message k s ≡ some (m, t))
        × (k.pending t ≡ rest)
        × (k.outbox t ≡ k.outbox s)
  unfolding recv_message
  recv_message-wire m s rest v e =
      let size_field = le_bytes 8 (length m.data_bytes) in
      let split : wire m ++ rest
          ≡ le_bytes 4 m.id ++ (le_bytes 8 m.query_id ++ (size_field ++ (m.data_bytes ++ rest))) =
        simp append_assoc in
      let (t, run, after, out) =
        recv_uint-front 4 m.id s _ (e ∙ split) (omega (arith, v.id_fits)) in
      let (u, run', after', out') =
        recv_uint-front 8 m.query_id t _ after (omega (arith, v.query_id_fits)) in
      let (w, run'', after'', out'') = recv_vector-front m.data_bytes u rest after' v.size_fits in
      (w, ground (arith, run, run', run''), after'', out'' ∙ out' ∙ out)

  -- Behind a step that sent `bytes` and received nothing.
  abbrev pub Sent : Bytes → S → S → Type 0
  Sent bytes s t = (k.outbox t ≡ k.outbox s ++ bytes) × (k.pending t ≡ k.pending s)

  Sent-append : (a b : Bytes) (s t u : S) → Sent a s t → Sent b t u → Sent (a ++ b) s u
  Sent-append a b s t u h h' =
      (h'.0 ∙ ap (λ (o : Bytes). o ++ b) h.0 ∙ append_assoc (k.outbox s) a b, h'.1 ∙ h.1)

  send_vector-Sent :
      (bytes : Bytes) (s t : S)
      → send_vector k bytes s ≡ some t
      → Sent (le_bytes 8 (length bytes) ++ bytes) s t
  unfolding send_vector
  send_vector-Sent bytes s t e = elim (Option-cases (send_bytes k (le_bytes 8 (length bytes)) s)) [
    | inl h ↦ absurd (ground (arith, h))
    | inr (u, h) ↦
        Sent-append (le_bytes 8 (length bytes)) bytes s u t
          (send_bytes-outbox k (le_bytes 8 (length bytes)) s u h)
          (data_sent bytes u t (ground (arith, h)))
  ]
    where
      data_sent :
          (bs : Bytes) (u t : S)
          → (if ltb 0 (length bs) then send_bytes k bs u else some u) ≡ some t
          → Sent bs u t
      data_sent [] u t h =
          let same : u ≡ t = ground (arith, h) in
          (sym (ap k.outbox same) ∙ sym (append-nil (k.outbox u)), sym (ap k.pending same))
      data_sent (b ∷ bs) u t h = send_bytes-outbox k (b ∷ bs) u t (ground (arith, h))

  -- Where a message is sent without a failure, its bytes are sent, each once and in their order, and
  -- nothing is received.
  pub send_message-Sent : (m : Message) (s t : S) → send_message k m s ≡ some t → Sent (wire m) s t
  unfolding send_message
  send_message-Sent m s t e = elim (Option-cases (send_bytes k (le_bytes 4 m.id) s)) [
    | inl h ↦ absurd (ground (arith, h))
    | inr (u, h) ↦ elim (Option-cases (send_bytes k (le_bytes 8 m.query_id) u)) [
      | inl h' ↦ absurd (ground (arith, h, h'))
      | inr (w, h') ↦
          Sent-append (le_bytes 4 m.id) _ s u t (send_bytes-outbox k (le_bytes 4 m.id) s u h) (
            Sent-append (le_bytes 8 m.query_id) _ u w t
              (send_bytes-outbox k (le_bytes 8 m.query_id) u w h')
              (send_vector-Sent m.data_bytes w t (ground (arith, h, h'))))
    ]
  ]

  -- Over two sockets of one connection, where what the one sends is what the other has pending, a
  -- message whose fields fit their types is received as it was sent, if it is sent without a failure,
  -- in whatever parts the system transfers it.
  pub recv_message-send_message :
      (m : Message) (s t u : S)
      → Fits m
      → k.outbox s ≡ []
      → send_message k m s ≡ some t
      → k.pending u ≡ k.outbox t
      → (w : S) × (recv_message k u ≡ some (m, w)) × (k.pending w ≡ [])
  recv_message-send_message m s t u v empty sent connected =
      let out = send_message-Sent m s t sent in
      let (w, run, after, _) =
        recv_message-wire m u [] v
          (connected ∙ out.0 ∙ ap (λ (o : Bytes). o ++ wire m) empty ∙ sym (append-nil (wire m))) in
      (w, run, after)
