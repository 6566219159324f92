-- ===== src/Sockets/Transfer.antt =====
-- The loops of VCamUtils/src/sockets.cpp, whatever parts the system transfers at once.
use akvirtualcamera.Base.{
  ℕ, zero, suc, ◌+◌, ◌-◌, ◌≤◌, ◌<◌, ◌≡◌, refl, sym, ap, ◌∙◌, subst, [], ◌∷◌, ◌++◌, some, Bytes,
  length, take, drop, arith, append_assoc, append-nil, length-append, length-drop, take-append,
  drop-append, inl, inr, Option-cases,
}
use akvirtualcamera.Sockets.{Socket, recv_loop, recv_bytes, send_loop, send_bytes}

take-drop : (n : ℕ) (xs : Bytes) → take n xs ++ drop n xs ≡ xs
take-drop zero xs = refl
take-drop (suc n) [] = refl
take-drop (suc n) (x ∷ xs) = ap (λ (t : Bytes). x ∷ t) (take-drop n xs)

module _ {S : Type 0} (k : Socket S) where
  -- What one round receives of `n` wanted bytes, where as many are pending.
  first_part :
      (n : ℕ) (s : S)
      → suc n ≤ length (k.pending s)
      → (bytes : Bytes) × (t : S) × (k.receive (suc n) s ≡ some (bytes, t))
        × (0 < length bytes)
        × (length bytes ≤ suc n)
        × (k.pending s ≡ bytes ++ k.pending t)
        × (k.outbox t ≡ k.outbox s)
  first_part n s enough =
      let (bytes, t, e, some_more) = k.receives (suc n) s (omega arith) (omega arith) in
      let order = k.received_in_order (suc n) s t bytes e in
      (bytes, t, e, some_more, order.0, order.1, order.2)

  recv_loop-take :
      (fuel n : ℕ) (s : S)
      → n ≤ fuel
      → n ≤ length (k.pending s)
      → (bytes : Bytes) × (t : S) × (recv_loop k fuel n s ≡ some (bytes, t))
        × (length bytes ≡ n)
        × (k.pending s ≡ bytes ++ k.pending t)
        × (k.outbox t ≡ k.outbox s)
  unfolding recv_loop
  recv_loop-take fuel zero s f enough = ([], s, refl, refl, refl, refl)
  recv_loop-take zero (suc n) s f enough = absurd (omega arith)
  recv_loop-take (suc fuel) (suc n) s f enough =
      let (part, t, e, pos, small, split, out) = first_part n s enough in
      let total : length (k.pending s) ≡ length part + length (k.pending t) =
        ap length split ∙ length-append part (k.pending t) in
      let (more, u, e', size, split', out') =
        recv_loop-take fuel (suc n - length part) t (omega arith) (omega (arith, total)) in
      (
        part ++ more,
        u,
        ground (arith, e, e'),
        omega (arith, length-append part more),
        split ∙ ap (λ (b : Bytes). part ++ b) split' ∙ sym (append_assoc part more (k.pending u)),
        out' ∙ out,
      )

  -- However the system splits what it transfers: where `n` bytes are pending, recv receives exactly
  -- the first `n` of them, and ends.
  pub recv_bytes-take :
      (n : ℕ) (s : S)
      → n ≤ length (k.pending s)
      → (bytes : Bytes) × (t : S) × (recv_bytes k n s ≡ some (bytes, t))
        × (length bytes ≡ n)
        × (k.pending s ≡ bytes ++ k.pending t)
        × (k.outbox t ≡ k.outbox s)
  unfolding recv_bytes
  recv_bytes-take n s = recv_loop-take n n s (omega arith)

  -- Of `n` bytes that stand first among those pending, recv receives those.
  pub recv_bytes-front :
      (n : ℕ) (s : S) (front rest : Bytes)
      → k.pending s ≡ front ++ rest
      → length front ≡ n
      → (t : S) × (recv_bytes k n s ≡ some (front, t))
        × (k.pending t ≡ rest)
        × (k.outbox t ≡ k.outbox s)
  recv_bytes-front n s front rest e size =
      let enough : n ≤ length (k.pending s) =
        omega (arith, ap length e, length-append front rest) in
      let (bytes, t, run, size', split, out) = recv_bytes-take n s enough in
      let whole : bytes ++ k.pending t ≡ front ++ rest = sym split ∙ e in
      let same : bytes ≡ front =
        sym (take-append n bytes (k.pending t) size')
        ∙ ap (take n) whole
        ∙ take-append n front rest size in
      let after : k.pending t ≡ rest =
        sym (drop-append n bytes (k.pending t) size')
        ∙ ap (drop n) whole
        ∙ drop-append n front rest size in
      (t, subst (λ (b : Bytes). recv_bytes k n s ≡ some (b, t)) same run, after, out)

  send_loop-outbox :
      (fuel : ℕ) (bytes : Bytes) (s t : S)
      → send_loop k fuel bytes s ≡ some t
      → (k.outbox t ≡ k.outbox s ++ bytes) × (k.pending t ≡ k.pending s)
  unfolding send_loop
  send_loop-outbox fuel [] s t e =
      let same : s ≡ t = ground (arith, e) in
      (sym (ap k.outbox same) ∙ sym (append-nil (k.outbox s)), sym (ap k.pending same))
  send_loop-outbox zero (b ∷ bytes) s t e = absurd (ground (arith, e))
  send_loop-outbox (suc fuel) (b ∷ bytes) s t e = elim (Option-cases (k.transmit (b ∷ bytes) s)) [
    | inl h ↦ absurd (ground (arith, h))
    | inr ((n, u), h) ↦
        let rest : send_loop k fuel (drop n (b ∷ bytes)) u ≡ some t = ground (arith, h) in
        let (more, kept) = send_loop-outbox fuel (drop n (b ∷ bytes)) u t rest in
        let (small, first, same) = k.sent_in_order (b ∷ bytes) s u n h in
        (
          more
              ∙ ap (λ (o : Bytes). o ++ drop n (b ∷ bytes)) first
              ∙ append_assoc (k.outbox s) (take n (b ∷ bytes)) (drop n (b ∷ bytes))
              ∙ ap (λ (o : Bytes). k.outbox s ++ o) (take-drop n (b ∷ bytes)),
          kept ∙ same,
        )
  ]

  -- However the system splits what it transfers: where send does not fail, it has sent all the bytes,
  -- each once and in their order, and has received nothing.
  pub send_bytes-outbox :
      (bytes : Bytes) (s t : S)
      → send_bytes k bytes s ≡ some t
      → (k.outbox t ≡ k.outbox s ++ bytes) × (k.pending t ≡ k.pending s)
  unfolding send_bytes
  send_bytes-outbox bytes = send_loop-outbox (length bytes) bytes

  recv_loop-same : (f g n : ℕ) (s : S) → n ≤ f → n ≤ g → recv_loop k f n s ≡ recv_loop k g n s
  unfolding recv_loop
  recv_loop-same f g zero s h h' = refl
  recv_loop-same zero g (suc n) s h h' = absurd (omega arith)
  recv_loop-same (suc f) zero (suc n) s h h' = absurd (omega arith)
  recv_loop-same (suc f) (suc g) (suc n) s h h' = elim (Option-cases (k.receive (suc n) s)) [
    | inl e ↦ rw e
    | inr (([], t), e) ↦ rw e
    | inr ((b ∷ bytes, t), e) ↦
        ground
          (arith, e, recv_loop-same f g (suc n - length (b ∷ bytes)) t (omega arith) (omega arith))
  ]

  send_loop-same :
      (f g : ℕ) (bytes : Bytes) (s : S)
      → length bytes ≤ f
      → length bytes ≤ g
      → send_loop k f bytes s ≡ send_loop k g bytes s
  unfolding send_loop
  send_loop-same f g [] s h h' = refl
  send_loop-same zero g (b ∷ bytes) s h h' = absurd (omega arith)
  send_loop-same (suc f) zero (b ∷ bytes) s h h' = absurd (omega arith)
  send_loop-same (suc f) (suc g) (b ∷ bytes) s h h' =
      elim (Option-cases (k.transmit (b ∷ bytes) s)) [
        | inl e ↦ rw e
        | inr ((zero, t), e) ↦ rw e
        | inr ((suc n, t), e) ↦ rw (
          e,
          send_loop-same f g (drop n bytes) t (omega (arith, length-drop n bytes))
              (omega (arith, length-drop n bytes)),
        )
      ]

  -- The loops of recv and send end, whatever the system transfers: a round that transfers nothing
  -- ends them, so that no more rounds than bytes are ever needed, and more fuel changes no result.
  pub transfers_end :
      (fuel n : ℕ) (bytes : Bytes) (s : S)
      → n ≤ fuel
      → length bytes ≤ fuel
      → (recv_loop k fuel n s ≡ recv_bytes k n s)
        × (send_loop k fuel bytes s ≡ send_bytes k bytes s)
  unfolding recv_bytes send_bytes
  transfers_end fuel n bytes s h h' = (
    recv_loop-same fuel n n s h (omega arith),
    send_loop-same fuel (length bytes) bytes s h' (omega arith),
  )
