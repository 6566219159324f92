-- ===== src/Service/Idle.antt =====
-- Slots that nobody uses: `removeClientById` of Service/src/service.cpp erases the slot of which it
-- removes the last peer.
use akvirtualcamera.Base.{
  ℕ, ◌≡◌, ◌≢◌, refl, Bool, true, false, not, ◌&&◌, ◌||◌, [], ◌∷◌, arith, Bytes, ◌==◌, if◌then◌else◌,
  str_eq, str_eq_refl, is_empty,
}
use akvirtualcamera.Base.StdMap.{find_or, assign, erase, ensure}
use akvirtualcamera.Message.Broadcast.{MsgBroadcast}
use akvirtualcamera.Service.{
  peer, BroadcastSlot, Broadcasts, empty_slot, remove_from, remove_client, take_frame,
  broadcast_slots,
}
use akvirtualcamera.Service.Remove.{remove_from_cases}

-- A slot is in use if it has a broadcaster or a listener. (A device with no name is never erased.)
unfoldable pub used : Bytes → BroadcastSlot → Bool
used d s = is_empty d || (not (s.broadcaster.pid == 0) || not (is_empty s.listeners))

abbrev pub AllUsed : Broadcasts → Type 0
AllUsed [] = Unit
AllUsed ((d, s) ∷ m) = (used d s ≡ true) × AllUsed m

-- All but those of a device.
abbrev AllBut : Bytes → Broadcasts → Type 0
AllBut d [] = Unit
AllBut d ((j, s) ∷ m) = ((used j s || str_eq j d) ≡ true) × AllBut d m

AllUsed-AllBut : (d : Bytes) (m : Broadcasts) → AllUsed m → AllBut d m
AllUsed-AllBut d [] u = tt
AllUsed-AllBut d ((j, s) ∷ m) u = (ground (arith, u.0), AllUsed-AllBut d m u.1)

erase-AllUsed : (d : Bytes) (m : Broadcasts) → AllBut d m → AllUsed (erase d m)
unfolding erase
erase-AllUsed d [] u = tt
erase-AllUsed d ((j, s) ∷ m) u = ground (arith, erase-AllUsed d m u.1)

AllBut-nil : (m : Broadcasts) → AllBut [] m → AllUsed m
unfolding used str_eq
AllBut-nil [] u = tt
AllBut-nil (([], s) ∷ m) u = (refl, AllBut-nil m u.1)
AllBut-nil ((b ∷ j, s) ∷ m) u = (ground (arith, u.0), AllBut-nil m u.1)

abbrev Cleared : Broadcasts × Bytes → Type 0
Cleared r = AllBut r.1 r.0

Cleared-head :
    (d : Bytes) (s : BroadcastSlot) (m : Broadcasts) (b : Bool)
    → AllUsed m
    → (b ≡ false → used d s ≡ true)
    → Cleared ((d, s) ∷ m, if b then d else [])
Cleared-head d s m true u h = (ground (arith, str_eq_refl d), AllUsed-AllBut d m u)
Cleared-head d s m false u h = (ground (arith, h), AllUsed-AllBut [] m u)

remove_from-Cleared : (c : ℕ) (m : Broadcasts) → AllUsed m → Cleared (remove_from c m)
unfolding used
remove_from-Cleared c [] u = unfold remove_from in tt
remove_from-Cleared c ((d, s) ∷ m) u =
    remove_from_cases Cleared c d s m
      (λ _.
        Cleared-head d (record s { broadcaster = peer 0 0 }) m (is_empty s.listeners) u.1
          (λ e. ground (arith, e)))
      (λ _ _. (ground (arith, u.0), remove_from-Cleared c m u.1))
      (λ ls _ _.
        Cleared-head d (record s { listeners = ls }) m (s.broadcaster.pid == 0 && is_empty ls) u.1
          (λ e. ground (arith, e)))

-- When every slot with a name is in use, every slot still is after any connection is closed.
pub remove_client-AllUsed : (c : ℕ) (m : Broadcasts) → AllUsed m → AllUsed (remove_client c m)
unfolding remove_client
remove_client-AllUsed c m u = finish (remove_from c m) (remove_from-Cleared c m u)
  where
    finish :
        (r : Broadcasts × Bytes) → Cleared r → AllUsed (if is_empty r.1 then r.0 else erase r.1 r.0)
    finish (m', []) k = AllBut-nil m' k
    finish (m', b ∷ d) k = erase-AllUsed (b ∷ d) m' k

assign-AllUsed :
    (d : Bytes) (t : BroadcastSlot) (m : Broadcasts)
    → AllUsed m
    → used d t ≡ true
    → AllUsed (assign d t m)
unfolding assign
assign-AllUsed d t [] u h = (h, tt)
assign-AllUsed d t ((j, s) ∷ m) u h = ground (arith, assign-AllUsed d t m u.1 h)

ensure-AllUsed :
    (d : Bytes) (t : BroadcastSlot) (m : Broadcasts)
    → AllUsed m
    → used d t ≡ true
    → AllUsed (ensure d t m)
unfolding ensure
ensure-AllUsed d t m u h = ground (arith, assign-AllUsed d t m u h)

used-take_frame :
    (d : Bytes) (c : ℕ) (b : MsgBroadcast) (s : BroadcastSlot)
    → b.pid ≢ 0
    → used d (take_frame c b s).0 ≡ true
unfolding used take_frame
used-take_frame d c b s z = ground arith

used-new :
    (d : Bytes) (c p : ℕ) → p ≢ 0 → used d (record empty_slot { broadcaster = peer c p }) ≡ true
unfolding used
used-new d c p z = ground arith

-- So is every slot after a broadcast whose process id is not 0.
pub broadcast_slots-AllUsed :
    (c : ℕ) (b : MsgBroadcast) (m : Broadcasts)
    → b.pid ≢ 0
    → AllUsed m
    → AllUsed (broadcast_slots c b m).0
unfolding broadcast_slots
broadcast_slots-AllUsed c b m z u =
    let new : BroadcastSlot = record empty_slot { broadcaster = peer c b.pid } in
    assign-AllUsed b.device _ (ensure b.device new m)
      (ensure-AllUsed b.device new m u (used-new b.device c b.pid z))
      (used-take_frame b.device c b (find_or empty_slot b.device (ensure b.device new m)) z)
