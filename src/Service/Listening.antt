-- ===== src/Service/Listening.antt =====
-- `listen` of Service/src/service.cpp: what a listener gets, and what a connection that listens
-- again and again leaves behind.
use akvirtualcamera.Base.{
  ℕ, ◌+◌, ◌≡◌, ◌≢◌, false, [], ◌∷◌, ◌++◌, none, some, arith, Bytes, if◌then◌else◌, str_eq,
  str_eq_iff, str_eq_refl, inl, inr, Option-cases,
}
use akvirtualcamera.Base.StdMap.{
  find, find_or, assign, ensure, contains-find, find-assign, find-ensure, IsSorted, assign-IsSorted,
  ensure-IsSorted, find-Above, Above-trans,
}
use akvirtualcamera.Message.Listen.{MsgListen}
use akvirtualcamera.Service.{
  peer, BroadcastSlot, Broadcasts, empty_slot, enter_listen, leave_listen, slot_answer,
}
use akvirtualcamera.Service.Peers.{count_listeners, count_slot, count_peers, count_listeners-append}

-- The slot in which a listener waits: the device's, with the listener behind the others.
abbrev pub joined : ℕ → MsgListen → Broadcasts → BroadcastSlot
joined c l m =
    let s = find_or empty_slot l.device m in
    record s { listeners = s.listeners ++ peer c l.pid ∷ [] }

pub find-enter_listen :
    (c : ℕ) (l : MsgListen) (m : Broadcasts) (d : Bytes)
    → find d (enter_listen c l m) ≡ (if str_eq l.device d then some (joined c l m) else find d m)
unfolding enter_listen find_or
find-enter_listen c l m d = ground (
  arith,
  find-assign l.device d (joined c l m) (ensure l.device empty_slot m),
  find-ensure l.device d empty_slot m,
  find-ensure l.device l.device empty_slot m,
  str_eq_refl l.device,
)

pub enter_listen-IsSorted :
    (c : ℕ) (l : MsgListen) (m : Broadcasts) → IsSorted m → IsSorted (enter_listen c l m)
unfolding enter_listen
enter_listen-IsSorted c l m s =
    assign-IsSorted l.device _ (ensure l.device empty_slot m)
      (ensure-IsSorted l.device empty_slot m s)

-- What a listener gets when nothing happens in between: the frame of the slot, whether the slot has
-- a broadcaster, and the query id of the request; the frame is no longer new, and the other devices'
-- slots are as they were.
pub listen_answer :
    (c : ℕ) (l : MsgListen) (q : ℕ) (m : Broadcasts) (d : Bytes)
    → (m' : Broadcasts) × (leave_listen l q (enter_listen c l m)
        ≡ some (m', slot_answer l q (joined c l m)))
      × (find d m' ≡ (
          if str_eq l.device d
          then some (record (joined c l m) { frame_ready = false })
          else find d m))
unfolding leave_listen
listen_answer c l q m d =
    let m' = assign l.device (record (joined c l m) { frame_ready = false }) (enter_listen c l m) in
    (
      m',
      ground (arith, find-enter_listen c l m l.device, str_eq_refl l.device),
      ground (
        arith,
        find-assign l.device d (record (joined c l m) { frame_ready = false }) (enter_listen c l m),
        find-enter_listen c l m d,
      ),
    )

-- The counts under the operations of the map.
pub count-assign :
    (c : ℕ) (d : Bytes) (s t : BroadcastSlot) (m : Broadcasts)
    → IsSorted m
    → find d m ≡ some s
    → count_peers c (assign d t m) + count_slot c s ≡ count_peers c m + count_slot c t
unfolding count_peers assign find
count-assign c d s t [] h e = ground arith
count-assign c d s t ((j, w) ∷ m) h e =
    ground (arith, str_eq_iff j d, count-assign c d s t m h.1, find-Above d m, Above-trans d j m)

count-assign_new :
    (c : ℕ) (d : Bytes) (t : BroadcastSlot) (m : Broadcasts)
    → find d m ≡ none
    → count_peers c (assign d t m) ≡ count_peers c m + count_slot c t
unfolding count_peers assign find
count-assign_new c d t [] e = omega arith
count-assign_new c d t ((j, w) ∷ m) e = ground (arith, count-assign_new c d t m)

count-empty_slot : (c : ℕ) → c ≢ 0 → count_slot c empty_slot ≡ 0
unfolding count_slot count_listeners
count-empty_slot c z = ground arith

count-joined :
    (c : ℕ) (s : BroadcastSlot) (p : ℕ)
    → count_slot c (record s { listeners = s.listeners ++ peer c p ∷ [] }) ≡ count_slot c s + 1
unfolding count_slot count_listeners
count-joined c s p = ground (arith, count_listeners-append c s.listeners (peer c p ∷ []))

count-ensure :
    (c : ℕ) (d : Bytes) (m : Broadcasts)
    → c ≢ 0
    → count_peers c (ensure d empty_slot m) ≡ count_peers c m
unfolding ensure
count-ensure c d m z = elim (Option-cases (find d m)) [
  | inl e ↦
      ground
        (arith, contains-find d m, e, count-assign_new c d empty_slot m e, count-empty_slot c z)
  | inr (s, e) ↦ ground (arith, contains-find d m, e)
]

-- Every request adds an entry for the client, also where it listens already.
pub count-enter_listen :
    (c : ℕ) (l : MsgListen) (m : Broadcasts)
    → IsSorted m
    → c ≢ 0
    → count_peers c (enter_listen c l m) ≡ count_peers c m + 1
unfolding enter_listen find_or
count-enter_listen c l m h z = ground (
  arith,
  find-ensure l.device l.device empty_slot m,
  str_eq_refl l.device,
  count-assign c l.device (find_or empty_slot l.device m) (joined c l m)
      (ensure l.device empty_slot m) (ensure-IsSorted l.device empty_slot m h),
  count-joined c (find_or empty_slot l.device m) l.pid,
  count-ensure c l.device m z,
)
