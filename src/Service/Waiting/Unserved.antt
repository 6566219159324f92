-- ===== src/Service/Waiting/Unserved.antt =====
-- What happens to the frame of a slot while a listener waits for a new one.
use akvirtualcamera.Base.{ℕ, ◌≡◌, sym, subst, ◌∙◌, ap, false, some, arith}
use akvirtualcamera.Base.StdMap.{find, IsSorted}
use akvirtualcamera.Video.Frame.{VideoFrame}
use akvirtualcamera.Message.{Message}
use akvirtualcamera.Message.Listen.{MsgListen}
use akvirtualcamera.Service.{BroadcastSlot, Broadcasts, leave_listen, slot_answer}
use akvirtualcamera.Service.Remove.{remove_client-IsSorted}
use akvirtualcamera.Service.Waiting.{
  Handler, idle, waiting, State, Step, broadcasts, listens, waits, closes, wakes, Reach, CanClose,
  start,
}
use akvirtualcamera.Service.Waiting.Safety.{Holds, remove_client-Holds}
use akvirtualcamera.Service.Waiting.Invariant.{HandlerInv, Reach-Inv}

-- Steps from a wait to a later moment of the same wait.
pub data Waits (c : ℕ) (l : MsgListen) (s : State) : State → Type 0 where
  begins : Waits c l s s
  goes_on : {t u : State} → Waits c l s t → Step t u → u.handler ≡ waiting c l → Waits c l s u

-- The slot of the listener, unchanged in frame.
record Unserved (c : ℕ) (l : MsgListen) (f : VideoFrame) (s : State) : Type 0 where
  sorted : IsSorted s.slots
  busy : s.handler ≡ waiting c l
  held : Holds c l.device f false s.slots

not_idle : (c : ℕ) (l : MsgListen) (h : Handler) → h ≡ waiting c l → h ≡ idle → ⊥
not_idle c l h e i = cc

Step-Unserved :
    (c : ℕ) (l : MsgListen) (f : VideoFrame) {s t : State}
    → Step s t
    → t.handler ≡ waiting c l
    → Unserved c l f s
    → Unserved c l f t
Step-Unserved c l f {s} {t} (broadcasts e b h _) k v = absurd (not_idle c l s.handler v.busy h)
Step-Unserved c l f {s} {t} (listens _ _ _ _ _ h _ _ _ _) k v =
    absurd (not_idle c l s.handler v.busy h)
Step-Unserved c l f {s} {t} (waits _ _ _ h _ _ _) k v = absurd (not_idle c l s.handler v.busy h)
Step-Unserved c l f {s} {t} (wakes _ _ _ _ _ _ i) k v = absurd (not_idle c l t.handler k i)
Step-Unserved c l f {s} {t} (closes e ok same) k v = subst (Unserved c l f) (sym same) (record {
  sorted = remove_client-IsSorted e s.slots v.sorted;
  busy = v.busy;
  held =
      remove_client-Holds c e (subst (CanClose e) v.busy ok) l.device f false s.slots v.sorted
        v.held;
})

Waits-Unserved :
    (c : ℕ) (l : MsgListen) (f : VideoFrame) {s t : State}
    → Waits c l s t
    → Unserved c l f s
    → Unserved c l f t
Waits-Unserved c l f begins v = v
Waits-Unserved c l f (goes_on w st k) v = Step-Unserved c l f st k (Waits-Unserved c l f w v)

answered :
    (l : MsgListen) (q : ℕ) (m m' : Broadcasts) (answer : Message) (slot : BroadcastSlot)
    → find l.device m ≡ some slot
    → leave_listen l q m ≡ some (m', answer)
    → answer ≡ slot_answer l q slot
unfolding leave_listen
answered l q m m' answer slot found e = ground arith

found_frame :
    (c : ℕ) (l : MsgListen) (f : VideoFrame) (m : Broadcasts) (slot : BroadcastSlot)
    → Holds c l.device f false m
    → find l.device m ≡ some slot
    → f ≡ slot.frame
found_frame c l f m slot held found =
    let same : held.slot ≡ slot = ground (arith, held.found) in
    sym held.same_frame ∙ ap (λ (s : BroadcastSlot). s.frame) same

-- A listener that waits is not served by a broadcast: whenever its wait ends, the answer has the
-- frame that its slot held when the wait began, since no broadcast can be handled before.
pub waiting_unserved :
    {s t : State} (c : ℕ) (l : MsgListen) (q : ℕ) (slot : BroadcastSlot) (m' : Broadcasts)
    (answer : Message)
    → Reach start s
    → s.handler ≡ waiting c l
    → find l.device s.slots ≡ some slot
    → Waits c l s t
    → leave_listen l q t.slots ≡ some (m', answer)
    → (last : BroadcastSlot) × (answer ≡ slot_answer l q last) × (last.frame ≡ slot.frame)
waiting_unserved {s} {t} c l q slot m' answer r h found w e =
    let v = Reach-Inv r in
    let (f, held) = subst (λ k. HandlerInv k s.slots) h (v.slot_held) in
    let u = Waits-Unserved c l f w (record { sorted = v.sorted; busy = h; held = held }) in
    (
      u.held.slot,
      answered l q t.slots m' answer u.held.slot u.held.found e,
      u.held.same_frame ∙ found_frame c l f s.slots slot held found,
    )
