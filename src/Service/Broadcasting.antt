-- ===== src/Service/Broadcasting.antt =====
-- `broadcast` of Service/src/service.cpp: who may send the frames of a device.
use akvirtualcamera.Base.{
  ℕ, ◌≡◌, ◌⊎◌, ◌↔◌, ◌∙◌, ap, refl, true, false, none, some, arith, Bytes, if◌then◌else◌, str_eq,
  str_eq_iff, str_eq_refl, inl, inr, Option-cases,
}
use akvirtualcamera.Base.StdMap.{
  find, find_or, find-assign, find-ensure, ensure, IsSorted, assign-IsSorted, ensure-IsSorted,
}
use akvirtualcamera.Message.Broadcast.{MsgBroadcast}
use akvirtualcamera.Service.{
  peer, BroadcastSlot, Broadcasts, empty_slot, take_frame, broadcast_slots,
}

-- What `broadcast` makes of the slot of its device, if there is one.
abbrev pub slot_before : ℕ → MsgBroadcast → Broadcasts → BroadcastSlot
slot_before c b = find_or (record empty_slot { broadcaster = peer c b.pid }) b.device

abbrev broadcast_slot : ℕ → MsgBroadcast → Broadcasts → BroadcastSlot
broadcast_slot c b m = (take_frame c b (slot_before c b m)).0

-- A broadcast changes the slot of its device alone, and makes one where there was none.
pub find-broadcast_slots :
    (c : ℕ) (b : MsgBroadcast) (m : Broadcasts) (d : Bytes)
    → find d (broadcast_slots c b m).0
      ≡ (if str_eq b.device d then some (take_frame c b (slot_before c b m)).0 else find d m)
unfolding broadcast_slots find_or
find-broadcast_slots c b m d =
    let new : BroadcastSlot = record empty_slot { broadcaster = peer c b.pid } in
    ground (
      arith,
      find-assign b.device d (broadcast_slot c b m) (ensure b.device new m),
      find-ensure b.device d new m,
      find-ensure b.device b.device new m,
      str_eq_refl b.device,
    )

broadcast_slots-taken :
    (c : ℕ) (b : MsgBroadcast) (m : Broadcasts)
    → (broadcast_slots c b m).1 ≡ (take_frame c b (slot_before c b m)).1
unfolding broadcast_slots find_or
broadcast_slots-taken c b m =
    let new : BroadcastSlot = record empty_slot { broadcaster = peer c b.pid } in
    ground (arith, find-ensure b.device b.device new m, str_eq_refl b.device)

-- A frame for a device that has a slot is taken exactly if the slot has no broadcaster or its
-- broadcaster is the sender: the same connection and the same process id.
pub broadcast_taken_iff :
    (c : ℕ) (b : MsgBroadcast) (m : Broadcasts) (s : BroadcastSlot)
    → find b.device m ≡ some s
    → ((broadcast_slots c b m).1 ≡ true)
      ↔ ((s.broadcaster.pid ≡ 0) ⊎ (s.broadcaster ≡ peer c b.pid))
unfolding take_frame find_or
broadcast_taken_iff c b m s e = (forward, backward)
  where
    before : slot_before c b m ≡ s
    before = rw (e, find_or) refl

    taken : (broadcast_slots c b m).1 ≡ (take_frame c b s).1
    taken = broadcast_slots-taken c b m ∙ ap (λ (t : BroadcastSlot). (take_frame c b t).1) before

    forward :
        (broadcast_slots c b m).1 ≡ true → (s.broadcaster.pid ≡ 0) ⊎ (s.broadcaster ≡ peer c b.pid)
    forward h = ground (arith, taken, h)

    backward :
        (s.broadcaster.pid ≡ 0) ⊎ (s.broadcaster ≡ peer c b.pid) → (broadcast_slots c b m).1 ≡ true
    backward h = ground (arith, taken, h)

-- A frame for a device with no slot is always taken.
pub broadcast_new_taken :
    (c : ℕ) (b : MsgBroadcast) (m : Broadcasts)
    → find b.device m ≡ none
    → (broadcast_slots c b m).1 ≡ true
unfolding take_frame find_or
broadcast_new_taken c b m e = ground (arith, broadcast_slots-taken c b m, e)

-- A frame that is not taken changes no slot.
pub broadcast_refused :
    (c : ℕ) (b : MsgBroadcast) (m : Broadcasts) (d : Bytes)
    → (broadcast_slots c b m).1 ≡ false
    → find d (broadcast_slots c b m).0 ≡ find d m
unfolding take_frame find_or
broadcast_refused c b m d h = elim (Option-cases (find b.device m)) [
  | inl e ↦ ground (arith, h, broadcast_new_taken c b m e)
  | inr (s, e) ↦ ground (
    arith,
    h,
    e,
    broadcast_slots-taken c b m,
    find-broadcast_slots c b m d,
    str_eq_iff b.device d,
  )
]

-- A frame that is taken is in the slot, marked as new, and the sender is the slot's broadcaster.
pub broadcast_stored :
    (c : ℕ) (b : MsgBroadcast) (m : Broadcasts)
    → (broadcast_slots c b m).1 ≡ true
    → (s : BroadcastSlot) × (find b.device (broadcast_slots c b m).0 ≡ some s)
      × (s.frame ≡ b.frame)
      × (s.frame_ready ≡ true)
      × (s.broadcaster ≡ peer c b.pid)
      × (s.listeners ≡ (slot_before c b m).listeners)
unfolding take_frame
broadcast_stored c b m h = (
  broadcast_slot c b m,
  ground (arith, find-broadcast_slots c b m b.device, str_eq_refl b.device),
  ground (arith, broadcast_slots-taken c b m, h),
  ground (arith, broadcast_slots-taken c b m, h),
  ground (arith, broadcast_slots-taken c b m, h),
  ground (arith, broadcast_slots-taken c b m, h),
)

pub broadcast_slots-IsSorted :
    (c : ℕ) (b : MsgBroadcast) (m : Broadcasts) → IsSorted m → IsSorted (broadcast_slots c b m).0
unfolding broadcast_slots
broadcast_slots-IsSorted c b m s =
    let new : BroadcastSlot = record empty_slot { broadcaster = peer c b.pid } in
    assign-IsSorted b.device _ (ensure b.device new m) (ensure-IsSorted b.device new m s)
