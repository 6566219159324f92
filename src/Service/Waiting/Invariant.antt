-- ===== src/Service/Waiting/Invariant.antt =====
-- Every history of a service that has just started.
use akvirtualcamera.Base.{
  ℕ, ◌<◌, ◌≡◌, refl, sym, subst, false, [], ◌∷◌, some, arith, str_eq_refl, inl, inr, Option-cases,
}
use akvirtualcamera.Base.StdMap.{find, find_or, assign, IsSorted, assign-IsSorted}
use akvirtualcamera.Video.Frame.{VideoFrame}
use akvirtualcamera.Message.{Message}
use akvirtualcamera.Message.Listen.{MsgListen}
use akvirtualcamera.Service.{
  peer, BroadcastSlot, Broadcasts, empty_slot, enter_listen, leave_listen, slot_answer,
  remove_client,
}
use akvirtualcamera.Service.Peers.{count_listeners, count_listeners-append}
use akvirtualcamera.Service.Remove.{remove_client-IsSorted}
use akvirtualcamera.Service.Broadcasting.{broadcast_slots-IsSorted}
use akvirtualcamera.Service.Listening.{joined, find-enter_listen, enter_listen-IsSorted}
use akvirtualcamera.Service.Waiting.{
  Handler, idle, waiting, State, Step, broadcasts, listens, waits, closes, wakes, Reach, here, next,
  CanClose, start,
}
use akvirtualcamera.Service.Waiting.Safety.{Holds, remove_client-Holds}

-- While `listen` waits, its slot is there, with the listener in it and no new frame.
abbrev pub HandlerInv : Handler → Broadcasts → Type 0
HandlerInv idle m = Unit {0}
HandlerInv (waiting c l) m = (f : VideoFrame) × Holds c l.device f false m

pub record Inv (s : State) : Type 0 where
  pub sorted : IsSorted s.slots
  pub slot_held : HandlerInv s.handler s.slots

pub leave_listen-IsSorted :
    (l : MsgListen) (q : ℕ) (m m' : Broadcasts) (answer : Message)
    → IsSorted m
    → leave_listen l q m ≡ some (m', answer)
    → IsSorted m'
unfolding leave_listen
leave_listen-IsSorted l q m m' answer h e = elim (Option-cases (find l.device m)) [
  | inl missing ↦ absurd (ground (arith, missing))
  | inr (s, found) ↦
      let same : assign l.device (record s { frame_ready = false }) m ≡ m' =
        ground (arith, found) in
      subst IsSorted same (assign-IsSorted l.device (record s { frame_ready = false }) m h)
]

entered : (c : ℕ) (l : MsgListen) (m : Broadcasts) → 0 < count_listeners c (joined c l m).listeners
unfolding count_listeners
entered c l m =
    ground (
      arith,
      count_listeners-append c (find_or empty_slot l.device m).listeners (peer c l.pid ∷ []),
    )

-- The slot as it is found at the beginning of a wait.
entered-Holds :
    (c : ℕ) (l : MsgListen) (m : Broadcasts) (slot : BroadcastSlot)
    → find l.device (enter_listen c l m) ≡ some slot
    → slot.frame_ready ≡ false
    → Holds c l.device (joined c l m).frame false (enter_listen c l m)
entered-Holds c l m slot found ready = record {
  slot = joined c l m;
  found = at_device;
  listed = entered c l m;
  same_frame = refl;
  same_ready = ground (arith, at_device, found, ready);
}
  where
    at_device : find l.device (enter_listen c l m) ≡ some (joined c l m)
    at_device = ground (arith, find-enter_listen c l m l.device, str_eq_refl l.device)

closed-HandlerInv :
    (c : ℕ) (h : Handler) (m : Broadcasts)
    → CanClose c h
    → IsSorted m
    → HandlerInv h m
    → HandlerInv h (remove_client c m)
closed-HandlerInv c idle m ok s i = tt
closed-HandlerInv c (waiting w l) m ok s (f, held) =
    (f, remove_client-Holds w c ok l.device f false m s held)

pub Step-Inv : {s t : State} → Step s t → Inv s → Inv t
Step-Inv {s} {t} (broadcasts c b h e) v =
    subst Inv (sym e)
      (record { sorted = broadcast_slots-IsSorted c b s.slots v.sorted; slot_held = tt })
Step-Inv {s} {t} (listens c l slot q answer h found ready e i) v = record {
  sorted =
      leave_listen-IsSorted l q (enter_listen c l s.slots) t.slots answer
        (enter_listen-IsSorted c l s.slots v.sorted) e;
  slot_held = subst (λ k. HandlerInv k t.slots) (sym i) tt;
}
Step-Inv {s} {t} (waits c l slot h found ready e) v = subst Inv (sym e) (record {
  sorted = enter_listen-IsSorted c l s.slots v.sorted;
  slot_held = ((joined c l s.slots).frame, entered-Holds c l s.slots slot found ready);
})
Step-Inv {s} {t} (closes c ok e) v = subst Inv (sym e) (record {
  sorted = remove_client-IsSorted c s.slots v.sorted;
  slot_held = closed-HandlerInv c s.handler s.slots ok v.sorted v.slot_held;
})
Step-Inv {s} {t} (wakes c l q answer h e i) v = record {
  sorted = leave_listen-IsSorted l q s.slots t.slots answer v.sorted e;
  slot_held = subst (λ k. HandlerInv k t.slots) (sym i) tt;
}

-- In every state that a service can reach the slots are in the order of their devices, and while a
-- listener waits its slot is there, holds the listener and has no new frame.
pub Reach-Inv : {s : State} → Reach start s → Inv s
Reach-Inv here = record { sorted = tt; slot_held = tt }
Reach-Inv (next r st) = Step-Inv st (Reach-Inv r)

wake_from :
    (c : ℕ) (l : MsgListen) (q : ℕ) (f : VideoFrame) (m : Broadcasts)
    → Holds c l.device f false m
    → (m' : Broadcasts) × (answer : Message) × (leave_listen l q m ≡ some (m', answer))
unfolding leave_listen
wake_from c l q f m held = (
  assign l.device (record (held.slot) { frame_ready = false }) m,
  slot_answer l q held.slot,
  ground (arith, held.found),
)

-- In every state that a service can reach a listener that waits can end its wait: the reference to
-- its slot is good, whichever connections were closed meanwhile.
pub waiting_can_wake :
    {s : State} (c : ℕ) (l : MsgListen) (q : ℕ)
    → Reach start s
    → s.handler ≡ waiting c l
    → (m' : Broadcasts) × (answer : Message) × (leave_listen l q s.slots ≡ some (m', answer))
waiting_can_wake {s} c l q r h =
    let (f, held) = subst (λ k. HandlerInv k s.slots) h ((Reach-Inv r).slot_held) in
    wake_from c l q f s.slots held
