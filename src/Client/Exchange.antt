-- ===== src/Client/Exchange.antt =====
-- A client of VCamUtils/src/messageclient.cpp connected to a server of messageserver.cpp: the two
-- loops run in step, a round of the one for a round of the other.
use akvirtualcamera.Base.{
  ℕ, zero, suc, ◌≡◌, refl, sym, ap, ◌∙◌, ◌⊎◌, subst, Bool, true, false, ◌&&◌, List, [], ◌∷◌, ◌++◌,
  Option, none, some, ◌>>=◌, if◌then◌else◌, arith, length, append_assoc, append-nil, inl, inr,
  Option-cases, Bool-cases,
}
use akvirtualcamera.Message.{Message}
use akvirtualcamera.Server.{Handlers, Round, handle, connection}
use akvirtualcamera.Client.{Callbacks, Outcome, finish_round, exchange, Transport}

-- The server's side of a connection: the state of the handlers, the rounds so far, and the answers
-- that were sent.
pub record Link (S : Type 0) : Type 0 where
  pub state : S
  pub rounds : List Round
  pub answers : List Message

-- The link is lost where a handler is undefined behaviour.
abbrev pub Server : Type 0 → Type 0
Server S = Option (Link S)

module _ {S : Type 0} (hs : Handlers S) (client : ℕ) (fresh : ℕ → ℕ) where
  abbrev pub round_of : Message → Link S → Round
  round_of m l = record { message = m; fresh = fresh (length l.rounds); sendable = true }

  -- A request sent to the server, and its answer. A handler that fails ends the connection.
  unfoldable pub serve : Transport (Server S)
  serve m none = (none, none)
  serve m (some l) = elim (handle hs client (round_of m l) l.state) [
    | none ↦ (none, none)
    | some (s, answer, ok) ↦
        let l' : Link S = record {
          state = s;
          rounds = l.rounds ++ round_of m l ∷ [];
          answers = l.answers;
        } in
        if ok
        then (some answer, some (record l' { answers = l.answers ++ answer ∷ [] }))
        else (none, some l')
  ]

  -- The server's loop comes through the rounds of the link to its state, and goes on from there.
  abbrev pub Open : S → Link S → Type 0
  Open s l =
      (more : List Round)
      → connection hs client (l.rounds ++ more) s
        ≡ (do (t, later) ← connection hs client more l.state; some (t, l.answers ++ later))

  -- The loop of the server on the rounds of the link ends in its state, with its answers.
  abbrev pub Ran : S → Server S → Type 0
  Ran s none = Unit
  Ran s (some l) = connection hs client l.rounds s ≡ some (l.state, l.answers)

  Open-Ran : (s : S) (l : Link S) → Open s l → Ran s (some l)
  unfolding connection
  Open-Ran s l h =
      ap (λ (rs : List Round). connection hs client rs s) (sym (append-nil l.rounds))
      ∙ h []
      ∙ ap (λ (as' : List Message). some (l.state, as')) (append-nil l.answers)

  module _ (s : S) (l : Link S) (m : Message) (t : S) (answer : Message) (h : Open s l) where
    abbrev extended : List Message → Link S
    extended answers = record {
      state = t;
      rounds = l.rounds ++ round_of m l ∷ [];
      answers = answers;
    }

    answered-Open :
        handle hs client (round_of m l) l.state ≡ some (t, answer, true)
        → Open s (extended (l.answers ++ answer ∷ []))
    unfolding connection
    answered-Open e more =
        ap (λ (rs : List Round). connection hs client rs s)
          (append_assoc l.rounds (round_of m l ∷ []) more)
        ∙ h (round_of m l ∷ more)
        ∙ elim (Option-cases (connection hs client more t)) [
          | inl none_later ↦ rw (e, none_later)
          | inr ((u, later), run) ↦
              rw (e, run)
                (ap (λ (as' : List Message). some (u, as'))
                  (sym (append_assoc l.answers (answer ∷ []) later)))
        ]

    refused-Ran :
        handle hs client (round_of m l) l.state ≡ some (t, answer, false)
        → Ran s (some (extended l.answers))
    unfolding connection
    refused-Ran e =
        h (round_of m l ∷ [])
        ∙ rw e (ap (λ (as' : List Message). some (t, as')) (append-nil l.answers))

  -- The part of a round that goes over the connection.
  serve_cases :
      (s : S) (l : Link S) (m : Message)
      → Open s l
      → ((serve m (some l)).0 ≡ none) × Ran s (serve m (some l)).1
        ⊎ ((answer : Message) × (l' : Link S) × (serve m (some l) ≡ (some answer, some l'))
            × Open s l')
  unfolding serve
  serve_cases s l m h = elim (Option-cases (handle hs client (round_of m l) l.state)) [
    | inl e ↦ rw (e, serve) (inl (refl, tt))
    | inr ((t, answer, true), e) ↦
        rw (e, serve) (inr (answer, _, refl, answered-Open s l m t answer h e))
    | inr ((t, answer, false), e) ↦ rw (e, serve) (inl (refl, refused-Ran s l m t answer h e))
  ]

  -- A link on which nothing was sent.
  abbrev pub new_link : S → Link S
  new_link s = record { state = s; rounds = []; answers = [] }

  new_link-Open : (s : S) → Open s (new_link s)
  new_link-Open s more = elim (Option-cases (connection hs client more s)) [
    | inl e ↦ rw e
    | inr (r, e) ↦ rw e
  ]

  module _ {C : Type 0} (k : Callbacks C) (s : S) where
    lost :
        (rest : C → Server S → Option (Outcome C (Server S))) (more : Bool) (c : C) (t : Server S)
        (o : Outcome C (Server S))
        → finish_round k serve rest more c (none, t) ≡ some o
        → t ≡ o.connection
    unfolding finish_round
    lost rest more c t o e = cc

    stopped :
        (c : C) (t : Server S) (o : Outcome C (Server S))
        → some (record { callbacks = c; connection = t; ok = true }) ≡ some o
        → t ≡ o.connection
    stopped c t o e = cc

    Open-exchange :
        (fuel : ℕ) (c : C) (l : Link S) (o : Outcome C (Server S))
        → Open s l
        → exchange k serve fuel c (some l) ≡ some o
        → Ran s o.connection
    unfolding exchange
    Open-exchange zero c l o h e = absurd (ground (arith, e))
    Open-exchange (suc fuel) c l o h e =
        let (c', request, more) = k.read_data c in
        let finish = finish_round k serve (exchange k serve fuel) more c' in
        elim (serve_cases s l request h) [
          | inl (failed, ran) ↦
              subst (Ran s)
                (lost (exchange k serve fuel) more c' (serve request (some l)).1 o (
                  sym (ap (λ (a : Option Message). finish (a, (serve request (some l)).1)) failed)
                  ∙ e))
                ran
          | inr (answer, l', answered, open_still) ↦
              let e' : finish (some answer, some l') ≡ some o = sym (ap finish answered) ∙ e in
              elim (Bool-cases (more && (k.write_data answer c').1)) [
                | inl go_on ↦
                    Open-exchange fuel (k.write_data answer c').0 l' o open_still (rw go_on at e')
                | inr stop ↦
                    subst (Ran s) (stopped (k.write_data answer c').0 (some l') o (rw stop at e'))
                      (Open-Ran s l' open_still)
              ]
        ]

    -- A client's loop that ends, from a new link to a server: the server's loop, on the requests of the
    -- client in their order, ends in the state in which the client leaves the server, and sends the
    -- answers that the client got, whatever the callbacks of the client and the handlers of the server
    -- are.
    pub connection-exchange :
        (fuel : ℕ) (c : C) (o : Outcome C (Server S)) (l : Link S)
        → exchange k serve fuel c (some (new_link s)) ≡ some o
        → o.connection ≡ some l
        → connection hs client l.rounds s ≡ some (l.state, l.answers)
    connection-exchange fuel c o l e linked =
        subst (Ran s) linked (Open-exchange fuel c (new_link s) o (new_link-Open s) e)
