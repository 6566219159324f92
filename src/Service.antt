-- ===== src/Service.antt =====
-- Service/src/service.cpp: the slots of the devices, and the handlers of the messages. A handler's
-- result is `none` where decoding the message is undefined behaviour.
pub mod Peers
pub mod Remove
pub mod Broadcasting
pub mod Listening
pub mod Stale
pub mod Pids
pub mod Idle
pub mod Waiting
use akvirtualcamera.Base.{
  ℕ, ◌+◌, Bool, true, false, not, ◌&&◌, ◌||◌, List, [], ◌∷◌, ◌++◌, Option, none, some, ◌>>=◌, Bytes,
  ◌==◌, if◌then◌else◌, is_empty,
}
use akvirtualcamera.Base.StdMap.{StdMap, find, find_or, assign, erase, ensure}
use akvirtualcamera.Video.Frame.{VideoFrame, default_frame}
use akvirtualcamera.Message.{Message}
use akvirtualcamera.Message.Broadcast.{MsgBroadcast}
use akvirtualcamera.Message.Broadcast
use akvirtualcamera.Message.Listen.{MsgListen}
use akvirtualcamera.Message.Listen
use akvirtualcamera.Message.Clients.{MsgClients, client_type_any}
use akvirtualcamera.Message.Clients
use akvirtualcamera.Message.FrameReady
use akvirtualcamera.Message.Status.{minus_one}
use akvirtualcamera.Message.Status

pub record Peer : Type 0 where
  pub client_id : ℕ
  pub pid : ℕ

abbrev pub peer : ℕ → ℕ → Peer
peer client_id pid = record { client_id = client_id; pid = pid }

pub record BroadcastSlot : Type 0 where
  pub broadcaster : Peer
  pub listeners : List Peer
  pub frame : VideoFrame
  pub frame_ready : Bool

abbrev pub empty_slot : BroadcastSlot
empty_slot = record {
  broadcaster = peer 0 0;
  listeners = [];
  frame = default_frame;
  frame_ready = false;
}

abbrev pub Broadcasts : Type 0
Broadcasts = StdMap BroadcastSlot

-- The listeners without the first of a client, if there is one.
unfoldable pub erase_listener : ℕ → List Peer → Option (List Peer)
erase_listener c [] = none
erase_listener c (p ∷ ps) =
    if p.client_id == c
    then some ps
    else elim (erase_listener c ps) [ none ↦ none | some qs ↦ some (p ∷ qs) ]

-- The loop of `removeClientById`: the slots, and `removeDevice`.
unfoldable pub remove_from : ℕ → Broadcasts → Broadcasts × Bytes
remove_from c [] = ([], [])
remove_from c ((d, s) ∷ m) =
    let rest = remove_from c m in
    if s.broadcaster.client_id == c
    then ((d, record s { broadcaster = peer 0 0 }) ∷ m, if is_empty s.listeners then d else [])
    else elim (erase_listener c s.listeners) [
      | some ls ↦ (
        (d, record s { listeners = ls }) ∷ m,
        if s.broadcaster.pid == 0 && is_empty ls then d else [],
      )
      | none ↦ ((d, s) ∷ rest.0, rest.1)
    ]

unfoldable pub remove_client : ℕ → Broadcasts → Broadcasts
remove_client c m =
    let (m', remove_device) = remove_from c m in
    if is_empty remove_device then m' else erase remove_device m'

-- The body of `broadcast` on the slots; the result says whether the frame was taken.
unfoldable pub take_frame : ℕ → MsgBroadcast → BroadcastSlot → BroadcastSlot × Bool
take_frame c b s =
    let claimed : BroadcastSlot =
      if s.broadcaster.pid == 0 then record s { broadcaster = peer c b.pid } else s in
    if claimed.broadcaster.pid == b.pid && claimed.broadcaster.client_id == c
    then (record claimed { frame = b.frame; frame_ready = true }, true)
    else (claimed, false)

unfoldable pub broadcast_slots : ℕ → MsgBroadcast → Broadcasts → Broadcasts × Bool
broadcast_slots c b m =
    let m' = ensure b.device (record empty_slot { broadcaster = peer c b.pid }) m in
    let (s, taken) = take_frame c b (find_or empty_slot b.device m') in
    (assign b.device s m', taken)

-- `broadcast`: the slots, the answer and the handler's result.
unfoldable pub broadcast :
    (ℕ → Bytes) → ℕ → Message → Broadcasts → Option (Broadcasts × Message × Bool)
broadcast heap c m slots = do
  b ← Broadcast.from_message heap m
  let (slots', taken) = broadcast_slots c b slots
  some (
    slots',
    Status.to_message (record { query_id = m.query_id; status = if taken then 0 else minus_one }),
    taken,
  )

-- `listen` as far as the test of `frameReady`: the slot exists and the client is among its listeners.
unfoldable pub enter_listen : ℕ → MsgListen → Broadcasts → Broadcasts
enter_listen c l m =
    let m' = ensure l.device empty_slot m in
    let s = find_or empty_slot l.device m' in
    assign l.device (record s { listeners = s.listeners ++ peer c l.pid ∷ [] }) m'

-- The answer to a listener, from the slot that it holds a reference to.
unfoldable pub slot_answer : MsgListen → ℕ → BroadcastSlot → Message
slot_answer l query_id s = FrameReady.to_message (record {
  query_id = query_id;
  device = l.device;
  frame = s.frame;
  is_active = not (s.broadcaster.pid == 0);
})

-- The rest of `listen`. The reference to the slot dangles if the slot is gone.
unfoldable pub leave_listen : MsgListen → ℕ → Broadcasts → Option (Broadcasts × Message)
leave_listen l query_id m = elim (find l.device m) [
  | none ↦ none
  | some s ↦ some (assign l.device (record s { frame_ready = false }) m, slot_answer l query_id s)
]

-- `listen` with nothing in between.
unfoldable pub listen : ℕ → Message → Broadcasts → Option (Broadcasts × Message)
listen c m slots = do l ← Listen.from_message m; leave_listen l m.query_id (enter_listen c l slots)

-- std::find over the collected process ids.
unfoldable pub has_pid : ℕ → List ℕ → Bool
has_pid p [] = false
has_pid p (q ∷ qs) = if q == p then true else has_pid p qs

abbrev pub add_pid : ℕ → List ℕ → List ℕ
add_pid p ps = if has_pid p ps then ps else ps ++ p ∷ []

unfoldable pub add_listeners : List Peer → List ℕ → List ℕ
add_listeners [] ps = ps
add_listeners (l ∷ ls) ps = add_listeners ls (add_pid l.pid ps)

-- The loop of `clients`.
unfoldable pub collect : ℕ → Broadcasts → List ℕ → List ℕ
collect client_type [] ps = ps
collect client_type ((d, s) ∷ m) ps =
    let p = s.broadcaster.pid in
    collect client_type m (
      add_listeners s.listeners
        (if client_type == client_type_any && not (p == 0) then add_pid p ps else ps))

unfoldable pub clients : Message → Broadcasts → Option Message
clients m slots = do
  c ← Clients.from_message m
  some (
      Clients.to_message (record {
        query_id = m.query_id;
        client_type = c.client_type;
        clients = collect c.client_type slots [];
      }))
