-- ===== src/Server/Sessions.antt =====
-- The handlers of a service, as Service/src/service.cpp subscribes them, and a client's connection
-- from its first message to its close.
use akvirtualcamera.Base.{
  ℕ, ◌≡◌, ◌⊎◌, subst, Bool, true, false, List, [], ◌∷◌, Option, some, ◌>>=◌, arith, inl, inr,
  Option-cases, Bool-cases, ◌==◌, Bytes, All, length, take, map,
}
use akvirtualcamera.Base.StdMap.{IsSorted}
use akvirtualcamera.Message.{Message, msg_clients, msg_broadcast, msg_listen}
use akvirtualcamera.Message.Broadcast.{MsgBroadcast}
use akvirtualcamera.Message.Broadcast
use akvirtualcamera.Message.Status
use akvirtualcamera.Message.Clients
use akvirtualcamera.Message.Listen
use akvirtualcamera.Message.FrameReady
use akvirtualcamera.Service.{
  Broadcasts, broadcast, listen, clients, broadcast_slots, remove_client, enter_listen,
  leave_listen, slot_answer,
}
use akvirtualcamera.Service.Remove.{remove_client-IsSorted}
use akvirtualcamera.Service.Broadcasting.{broadcast_slots-IsSorted}
use akvirtualcamera.Service.Listening.{enter_listen-IsSorted}
use akvirtualcamera.Service.Waiting.Invariant.{leave_listen-IsSorted}
use akvirtualcamera.Server.{
  MessageHandler, Handlers, Round, no_answer, find_handler, insert_handler, handle, connection,
  subscribe,
}
use akvirtualcamera.Server.Replies.{KeepsId, connection-query_ids, connection-keeps}

-- `clients` and `listen` always return true.
unfoldable pub clients_handler : MessageHandler Broadcasts
clients_handler c m slots = do answer ← clients m slots; some (slots, answer, true)

unfoldable pub listen_handler : MessageHandler Broadcasts
listen_handler c m slots = do (slots', answer) ← listen c m slots; some (slots', answer, true)

module _ (heap : ℕ → Bytes) where
  -- The constructor of ServicePrivate.
  unfoldable pub service_handlers : Handlers Broadcasts
  unfolding subscribe
  service_handlers =
      (subscribe msg_listen listen_handler
        (subscribe msg_broadcast (broadcast heap) (subscribe msg_clients clients_handler []).0).0).0

  -- A connection and its close.
  unfoldable pub session : ℕ → List Round → Broadcasts → Option (Broadcasts × List Message)
  session c rs slots = do
    (slots', answers) ← connection service_handlers c rs slots
    some (remove_client c slots', answers)

  clients-query_id :
      (m : Message) (slots : Broadcasts) (answer : Message)
      → clients m slots ≡ some answer
      → answer.query_id ≡ m.query_id
  unfolding clients Clients.to_message
  clients-query_id m slots answer e = ground (arith, e)

  broadcast-query_id :
      (c : ℕ) (m : Message) (slots t : Broadcasts) (answer : Message) (ok : Bool)
      → broadcast heap c m slots ≡ some (t, answer, ok)
      → answer.query_id ≡ m.query_id
  unfolding broadcast Status.to_message
  broadcast-query_id c m slots t answer ok e = ground (arith, e)

  listen-query_id :
      (c : ℕ) (m : Message) (slots t : Broadcasts) (answer : Message)
      → listen c m slots ≡ some (t, answer)
      → answer.query_id ≡ m.query_id
  unfolding listen leave_listen slot_answer FrameReady.to_message
  listen-query_id c m slots t answer e = ground (arith, e)

  -- A message that the service has a handler for.
  abbrev pub IsServed : Round → Type 0
  IsServed r =
      (r.message.id ≡ msg_clients) ⊎ ((r.message.id ≡ msg_broadcast) ⊎ (r.message.id ≡ msg_listen))

  -- Which handler a round calls.
  handle_cases {ℓ} :
      (P : Option (Broadcasts × Message × Bool) → Type ℓ) (c : ℕ) (r : Round) (s : Broadcasts)
      → P (clients_handler c r.message s)
      → P (broadcast heap c r.message s)
      → P (listen_handler c r.message s)
      → ((IsServed r → ⊥) → P (some (s, no_answer r.fresh, true)))
      → P (handle service_handlers c r s)
  unfolding service_handlers handle find_handler insert_handler
  handle_cases P c r s on_clients on_broadcast on_listen otherwise =
      elim (Bool-cases (msg_clients == r.message.id)) [
        | inl e ↦ rw (e, handle) on_clients
        | inr e ↦ elim (Bool-cases (msg_broadcast == r.message.id)) [
          | inl f ↦ rw (e, f, handle) on_broadcast
          | inr f ↦ elim (Bool-cases (msg_listen == r.message.id)) [
            | inl g ↦ rw (e, f, g, handle) on_listen
            | inr g ↦ rw (e, f, g, handle) (otherwise (λ served. ground arith))
          ]
        ]
      ]

  abbrev Answers : Message → Option (Broadcasts × Message × Bool) → Type 0
  Answers m result =
      (t : Broadcasts) (answer : Message) (ok : Bool)
      → result ≡ some (t, answer, ok)
      → answer.query_id ≡ m.query_id

  IsServed-KeepsId : (c : ℕ) (r : Round) → IsServed r → KeepsId service_handlers c r
  unfolding clients_handler listen_handler
  IsServed-KeepsId c r served s =
      handle_cases (Answers r.message) c r s
        (λ t answer ok e. ground (arith, e, clients-query_id r.message s answer))
        (λ t answer ok e. broadcast-query_id c r.message s t answer ok e)
        (λ t answer ok e. ground (arith, e, listen-query_id c r.message s t answer))
        (λ not_served. absurd (not_served served))

  All-KeepsId : (c : ℕ) (rs : List Round) → All IsServed rs → All (KeepsId service_handlers c) rs
  All-KeepsId c [] served = tt
  All-KeepsId c (r ∷ rs) served = (IsServed-KeepsId c r served.0, All-KeepsId c rs served.1)

  clients_handler-same :
      (c : ℕ) (m : Message) (s t : Broadcasts) (answer : Message) (ok : Bool)
      → clients_handler c m s ≡ some (t, answer, ok)
      → s ≡ t
  unfolding clients_handler
  clients_handler-same c m s t answer ok e = ground (arith, e)

  broadcast-IsSorted :
      (c : ℕ) (m : Message) (s t : Broadcasts) (answer : Message) (ok : Bool)
      → IsSorted s
      → broadcast heap c m s ≡ some (t, answer, ok)
      → IsSorted t
  unfolding broadcast
  broadcast-IsSorted c m s t answer ok sorted e =
      elim (Option-cases (Broadcast.from_message heap m)) [
        | inl h ↦ absurd (ground (arith, h))
        | inr (b, h) ↦
            let same : (broadcast_slots c b s).0 ≡ t = ground (arith, h) in
            subst IsSorted same (broadcast_slots-IsSorted c b s sorted)
      ]

  listen_handler-IsSorted :
      (c : ℕ) (m : Message) (s t : Broadcasts) (answer : Message) (ok : Bool)
      → IsSorted s
      → listen_handler c m s ≡ some (t, answer, ok)
      → IsSorted t
  unfolding listen_handler listen
  listen_handler-IsSorted c m s t answer ok sorted e = elim (Option-cases (Listen.from_message m)) [
    | inl h ↦ absurd (ground (arith, h))
    | inr (l, h) ↦
        let left : leave_listen l m.query_id (enter_listen c l s) ≡ some (t, answer) =
          ground (arith, h) in
        leave_listen-IsSorted l m.query_id (enter_listen c l s) t answer
          (enter_listen-IsSorted c l s sorted) left
  ]

  abbrev Sorts : Broadcasts → Message → Bool → Option (Broadcasts × Message × Bool) → Type 0
  Sorts t answer ok result = result ≡ some (t, answer, ok) → IsSorted t

  handle-IsSorted :
      (c : ℕ) (r : Round) (s t : Broadcasts) (answer : Message) (ok : Bool)
      → IsSorted s
      → handle service_handlers c r s ≡ some (t, answer, ok)
      → IsSorted t
  handle-IsSorted c r s t answer ok sorted =
      handle_cases (Sorts t answer ok) c r s
        (λ e. subst IsSorted (clients_handler-same c r.message s t answer ok e) sorted)
        (broadcast-IsSorted c r.message s t answer ok sorted)
        (listen_handler-IsSorted c r.message s t answer ok sorted)
        (λ _ e. (let same : s ≡ t = ground (arith, e) in subst IsSorted same sorted))

  -- The parts of a session that ends well.
  session-parts :
      (c : ℕ) (rs : List Round) (slots t : Broadcasts) (answers : List Message)
      → session c rs slots ≡ some (t, answers)
      → (u : Broadcasts) × (connection service_handlers c rs slots ≡ some (u, answers))
        × (remove_client c u ≡ t)
  unfolding session
  session-parts c rs slots t answers e =
      elim (Option-cases (connection service_handlers c rs slots)) [
        | inl h ↦ absurd (ground (arith, h))
        | inr ((u, later), h) ↦ (u, ground (arith, h), ground (arith, h))
      ]

  -- Slots in the order of their devices are in that order after a connection that ran with defined
  -- behaviour, and its close.
  pub session-IsSorted :
      (c : ℕ) (rs : List Round) (slots t : Broadcasts) (answers : List Message)
      → IsSorted slots
      → session c rs slots ≡ some (t, answers)
      → IsSorted t
  session-IsSorted c rs slots t answers sorted e =
      let (u, run, closed) = session-parts c rs slots t answers e in
      subst IsSorted closed (
        remove_client-IsSorted c u (
          connection-keeps service_handlers c IsSorted (handle-IsSorted c) rs slots u answers sorted
            run))

  -- The answers that a client of the service gets are to its first requests, one each and in their
  -- order, each under the query id of its request, where every request is a message that the service
  -- has a handler for.
  pub session-query_ids :
      (c : ℕ) (rs : List Round) (slots t : Broadcasts) (answers : List Message)
      → All IsServed rs
      → session c rs slots ≡ some (t, answers)
      → map (λ m. m.query_id) answers ≡ take (length answers) (map (λ r. r.message.query_id) rs)
  session-query_ids c rs slots t answers served e =
      let (u, run, closed) = session-parts c rs slots t answers e in
      connection-query_ids service_handlers c rs slots u answers (All-KeepsId c rs served) run

  -- A client whose frame is not taken gets no answer, although `broadcast` has one for it: the
  -- connection ends there, whatever the client sent behind that request, and the slots are what the
  -- refused request and the close leave.
  pub refused_unanswered :
      (c : ℕ) (r : Round) (rs : List Round) (slots : Broadcasts) (b : MsgBroadcast)
      → r.message.id ≡ msg_broadcast
      → Broadcast.from_message heap r.message ≡ some b
      → (broadcast_slots c b slots).1 ≡ false
      → session c (r ∷ rs) slots ≡ some (remove_client c (broadcast_slots c b slots).0, [])
  unfolding session connection service_handlers handle find_handler insert_handler broadcast
  refused_unanswered c r rs slots b i decoded refused = ground (arith, decoded, refused)
