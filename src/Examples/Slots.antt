-- ===== src/Examples/Slots.antt =====
-- The theorems on the service at concrete slots.
use akvirtualcamera.Base.{
  ℕ, ◌+◌, ◌-◌, ◌≡◌, ◌↔◌, ◌⊎◌, refl, true, false, [], ◌∷◌, some, arith, Bytes, codes, str_eq, str_lt,
}
use akvirtualcamera.Base.StdMap.{find, find_or, assign, ensure, contains, IsSorted}
use akvirtualcamera.Video.Frame.{default_frame}
use akvirtualcamera.Message.{Message}
use akvirtualcamera.Message.Broadcast.{MsgBroadcast}
use akvirtualcamera.Message.Listen.{MsgListen}
use akvirtualcamera.Service.{
  Peer, peer, BroadcastSlot, Broadcasts, remove_client, broadcast_slots, take_frame, enter_listen,
  leave_listen, slot_answer, has_pid, collect,
}
use akvirtualcamera.Service.Peers.{count_peers}
use akvirtualcamera.Service.Remove.{count-remove_client}
use akvirtualcamera.Service.Broadcasting.{broadcast_taken_iff}
use akvirtualcamera.Service.Listening.{joined}
use akvirtualcamera.Service.Stale.{listen_times, stale_listeners}
use akvirtualcamera.Service.Pids.{Distinct, connected, collect_exact}
use akvirtualcamera.Service.Idle.{used, AllUsed}
use akvirtualcamera.Service.Waiting.{Reach, here, next, start, State, waiting, waits}
use akvirtualcamera.Service.Waiting.Invariant.{waiting_can_wake}
use akvirtualcamera.Service.Waiting.Unserved.{begins, waiting_unserved}

abbrev camera : Bytes
camera = codes "cam"

abbrev desk : Bytes
desk = codes "desk"

abbrev slot : Peer → Peer → BroadcastSlot
slot b l = record {
  broadcaster = b;
  listeners = l ∷ [];
  frame = default_frame;
  frame_ready = false;
}

-- Client 1 sends to "cam" and client 2 listens; client 2 also sends to "desk", where 3 listens.
abbrev pub two_slots : Broadcasts
two_slots = (camera, slot (peer 1 10) (peer 2 20)) ∷ (desk, slot (peer 2 20) (peer 3 30)) ∷ []

pub two_slots-IsSorted : IsSorted two_slots
unfolding str_lt
two_slots-IsSorted = ((refl, tt), (tt, tt))

two_slots-AllUsed : AllUsed two_slots
unfolding used
two_slots-AllUsed = (refl, (refl, tt))

count-remove_client_example :
    count_peers 2 (remove_client 2 two_slots) ≡ count_peers 2 two_slots - 1
count-remove_client_example = count-remove_client 2 two_slots two_slots-IsSorted (omega arith)

-- A slot that lost its broadcaster, before one where client 0 listens.
abbrev unowned : Broadcasts
unowned = (desk, slot (peer 1 10) (peer 0 5)) ∷ []

abbrev frame_of : ℕ → MsgBroadcast
frame_of pid = record { query_id = 7; device = camera; pid = pid; frame = default_frame }

found : find camera two_slots ≡ some (slot (peer 1 10) (peer 2 20))
unfolding find str_eq
found = refl

broadcast_taken_iff_example :
    ((broadcast_slots 1 (frame_of 10) two_slots).1 ≡ true)
    ↔ (((slot (peer 1 10) (peer 2 20)).broadcaster.pid ≡ 0) ⊎ (peer 1 10 ≡ peer 1 10))
broadcast_taken_iff_example =
    broadcast_taken_iff 1 (frame_of 10) two_slots (slot (peer 1 10) (peer 2 20)) found

taken_is_true : (broadcast_slots 1 (frame_of 10) two_slots).1 ≡ true
unfolding broadcast_slots take_frame find_or ensure contains find assign str_eq
taken_is_true = refl

taken_is_false : (broadcast_slots 3 (frame_of 30) two_slots).1 ≡ false
unfolding broadcast_slots take_frame find_or ensure contains find assign str_eq
taken_is_false = refl

abbrev request : MsgListen
request = record { query_id = 7; device = camera; pid = 40 }

stale_listeners_example :
    (m' : Broadcasts) × (listen_times 3 4 request two_slots ≡ some m')
    × (count_peers 4 (remove_client 4 m') ≡ count_peers 4 two_slots + 2)
stale_listeners_example = stale_listeners 2 4 request two_slots two_slots-IsSorted (omega arith)

collect_exact_example :
    Distinct (collect 0 two_slots [])
    × ((p : ℕ) → has_pid p (collect 0 two_slots []) ≡ connected 0 p two_slots)
collect_exact_example = collect_exact 0 two_slots

-- Client 4 begins to wait in a service that has just started.
abbrev while_waiting : State
while_waiting = record { slots = enter_listen 4 request []; handler = waiting 4 request }

entered : find camera (enter_listen 4 request []) ≡ some (joined 4 request [])
unfolding find find_or enter_listen ensure contains assign str_eq
entered = refl

not_ready : (joined 4 request []).frame_ready ≡ false
unfolding find_or find
not_ready = refl

reached : Reach start while_waiting
reached = next here (waits 4 request (joined 4 request []) refl entered not_ready refl)

waiting_can_wake_example :
    (m' : Broadcasts) × (answer : Message) × (leave_listen request 7 (enter_listen 4 request [])
      ≡ some (m', answer))
waiting_can_wake_example = waiting_can_wake 4 request 7 reached refl

waiting_unserved_example :
    (last : BroadcastSlot) × (waiting_can_wake_example.1 ≡ slot_answer request 7 last)
    × (last.frame ≡ (joined 4 request []).frame)
waiting_unserved_example =
    waiting_unserved 4 request 7 (joined 4 request []) waiting_can_wake_example.0
      waiting_can_wake_example.1 reached refl entered begins waiting_can_wake_example.2
