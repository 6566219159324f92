-- ===== src/Service/Remove.antt =====
-- `removeClientById` of Service/src/service.cpp: what the close of a connection leaves of its client.
use akvirtualcamera.Base.{
  ℕ, ◌-◌, ◌≡◌, ◌≢◌, ◌⊎◌, refl, ap, ◌∙◌, Bool, true, false, List, [], ◌∷◌, none, some, arith, Bytes,
  ◌==◌, ◌&&◌, if◌then◌else◌, inl, inr, Option-cases, Bool-cases, is_empty, str_eq, str_lt,
  str_eq_iff,
}
use akvirtualcamera.Base.StdMap.{erase, Above, IsSorted, erase-IsSorted, str_lt_irrefl}
use akvirtualcamera.Service.{
  Peer, peer, BroadcastSlot, Broadcasts, erase_listener, remove_from, remove_client,
}
use akvirtualcamera.Service.Peers.{
  count_listeners, count_slot, count_peers, erase_listener-none, erase_listener-some,
}

-- The loop changes no key.
Above-remove_from : (c : ℕ) (k : Bytes) (m : Broadcasts) → Above k m → Above k (remove_from c m).0
unfolding remove_from
Above-remove_from c k [] a = tt
Above-remove_from c k ((d, s) ∷ m) a = ground (arith, Above-remove_from c k m a.1)

remove_from-IsSorted : (c : ℕ) (m : Broadcasts) → IsSorted m → IsSorted (remove_from c m).0
unfolding remove_from
remove_from-IsSorted c [] h = tt
remove_from-IsSorted c ((d, s) ∷ m) h =
    ground (arith, Above-remove_from c d m h.0, remove_from-IsSorted c m h.1)

-- One entry of the client goes.
count-remove_from :
    (c : ℕ) (m : Broadcasts) → c ≢ 0 → count_peers c (remove_from c m).0 ≡ count_peers c m - 1
unfolding remove_from count_peers
count-remove_from c [] h = refl
count-remove_from c ((d, s) ∷ m) h = elim (Option-cases (erase_listener c s.listeners)) [
  | inl missing ↦
      ground (arith, missing, erase_listener-none c s.listeners missing, count-remove_from c m h)
  | inr (ls, found) ↦ ground (arith, found, erase_listener-some c c s.listeners ls found)
]

-- `removeDevice` names a device behind `k`, or none.
pub removed-Above :
    (c : ℕ) (k : Bytes) (m : Broadcasts)
    → Above k m
    → ((remove_from c m).1 ≡ []) ⊎ (str_lt k (remove_from c m).1 ≡ true)
unfolding remove_from
removed-Above c k [] a = inl refl
removed-Above c k ((d, s) ∷ m) a = ground (arith, removed-Above c k m a.1)

-- The client stands in no slot of the device.
abbrev Free : ℕ → Bytes → Broadcasts → Type 0
Free c d [] = Unit
Free c d ((j, s) ∷ m) = (str_eq j d ≡ true → count_slot c s ≡ 0) × Free c d m

key_ne : (d j : Bytes) → str_lt d j ≡ true → str_eq j d ≡ true → ⊥
key_ne d j h e = ground (arith, str_eq_iff j d, str_lt_irrefl d)

Free-Above : (c : ℕ) (d : Bytes) (m : Broadcasts) → Above d m → Free c d m
Free-Above c d [] a = tt
Free-Above c d ((j, s) ∷ m) a = (λ e. absurd (key_ne d j a.0 e), Free-Above c d m a.1)

count-erase :
    (c : ℕ) (d : Bytes) (m : Broadcasts) → Free c d m → count_peers c (erase d m) ≡ count_peers c m
unfolding erase count_peers
count-erase c d [] f = refl
count-erase c d ((j, s) ∷ m) f = ground (arith, f.0, count-erase c d m f.1)

is_empty-eq : (ps : List Peer) → is_empty ps ≡ true → ps ≡ []
is_empty-eq [] h = refl
is_empty-eq (p ∷ ps) h = cc

-- The four ways in which the loop treats a slot.
pub remove_from_cases {ℓ} :
    (P : Broadcasts × Bytes → Type ℓ) (c : ℕ) (d : Bytes) (s : BroadcastSlot) (m : Broadcasts)
    → ((s.broadcaster.client_id == c) ≡ true
        → P ((d, record s { broadcaster = peer 0 0 }) ∷ m, if is_empty s.listeners then d else []))
    → ((s.broadcaster.client_id == c) ≡ false
        → erase_listener c s.listeners ≡ none
        → P ((d, s) ∷ (remove_from c m).0, (remove_from c m).1))
    → ((ls : List Peer)
        → (s.broadcaster.client_id == c) ≡ false
        → erase_listener c s.listeners ≡ some ls
        → P (
          (d, record s { listeners = ls }) ∷ m,
          if s.broadcaster.pid == 0 && is_empty ls then d else [],
        ))
    → P (remove_from c ((d, s) ∷ m))
unfolding remove_from
remove_from_cases P c d s m own missing found = elim (Bool-cases (s.broadcaster.client_id == c)) [
  | inl e ↦ rw e (own e)
  | inr ne ↦ elim (Option-cases (erase_listener c s.listeners)) [
    | inl e ↦ rw (ne, e) (missing ne e)
    | inr (ls, e) ↦ rw (ne, e) (found ls ne e)
  ]
]

abbrev FreeResult : ℕ → Broadcasts × Bytes → Type 0
FreeResult c r = r.1 ≢ [] → Free c r.1 r.0

-- A slot in front of the removed device's is another one.
Free-cons :
    (c : ℕ) (d : Bytes) (s : BroadcastSlot) (r : Broadcasts × Bytes)
    → (r.1 ≡ []) ⊎ (str_lt d r.1 ≡ true)
    → FreeResult c r
    → FreeResult c ((d, s) ∷ r.0, r.1)
Free-cons c d s r (inl e) f n = absurd (n e)
Free-cons c d s r (inr below) f n = (λ e. absurd (key_ne' below e), f n)
  where
    key_ne' : str_lt d r.1 ≡ true → str_eq d r.1 ≡ true → ⊥
    key_ne' h e = ground (arith, str_eq_iff d r.1, str_lt_irrefl d)

count-unset :
    (c : ℕ) (s : BroadcastSlot)
    → c ≢ 0
    → is_empty s.listeners ≡ true
    → count_slot c (record s { broadcaster = peer 0 0 }) ≡ 0
unfolding count_slot count_listeners
count-unset c s z e = ground (arith, ap (count_listeners c) (is_empty-eq s.listeners e))

count_other :
    (c : ℕ) (s : BroadcastSlot) (ls : List Peer)
    → (s.broadcaster.client_id == c) ≡ false
    → is_empty ls ≡ true
    → count_slot c (record s { listeners = ls }) ≡ 0
unfolding count_slot count_listeners
count_other c s ls ne e = ground (arith, ap (count_listeners c) (is_empty-eq ls e))

Free-remove_from : (c : ℕ) (m : Broadcasts) → IsSorted m → c ≢ 0 → FreeResult c (remove_from c m)
Free-remove_from c [] h z = λ n. unfold remove_from in tt
Free-remove_from c ((d, s) ∷ m) h z =
    remove_from_cases (FreeResult c) c d s m
      (λ own. head (record s { broadcaster = peer 0 0 }) (is_empty s.listeners) (count-unset c s z))
      (λ ne missing.
        Free-cons c d s (remove_from c m) (removed-Above c d m h.0) (Free-remove_from c m h.1 z))
      (λ ls ne found.
        head (record s { listeners = ls }) (s.broadcaster.pid == 0 && is_empty ls)
          (λ e. count_other c s ls ne (and_right _ _ e)))
  where
    and_right : (a b : Bool) → (a && b) ≡ true → b ≡ true
    and_right a b e = ground arith

    head :
        (t : BroadcastSlot) (b : Bool)
        → (b ≡ true → count_slot c t ≡ 0)
        → FreeResult c ((d, t) ∷ m, if b then d else [])
    head t true f n = (λ _. f refl, Free-Above c d m h.0)
    head t false f n = absurd (n refl)

-- Of the entries of a client in slots in the order of their devices, exactly one goes when its
-- connection is closed, if there is one and the client's id is not 0.
pub count-remove_client :
    (c : ℕ) (m : Broadcasts)
    → IsSorted m
    → c ≢ 0
    → count_peers c (remove_client c m) ≡ count_peers c m - 1
unfolding remove_client
count-remove_client c m h z = elim (Bool-cases (is_empty (remove_from c m).1)) [
  | inl e ↦ rw e (count-remove_from c m z)
  | inr ne ↦ rw ne (
      count-erase c (remove_from c m).1 (remove_from c m).0
        (Free-remove_from c m h z (λ e. cc (ap is_empty e)))
      ∙ count-remove_from c m z)
]

-- Slots in the order of their devices are in that order after any connection is closed.
pub remove_client-IsSorted : (c : ℕ) (m : Broadcasts) → IsSorted m → IsSorted (remove_client c m)
unfolding remove_client
remove_client-IsSorted c m h = ground (
  arith,
  remove_from-IsSorted c m h,
  erase-IsSorted (remove_from c m).1 (remove_from c m).0 (remove_from-IsSorted c m h),
)

-- The first client of a service has the id 0, as has the broadcaster of a slot that has none. When it
-- is closed, the first slot with no broadcaster ends the loop with nothing changed if it has a
-- listener, whether or not the client listens there or on another device.
pub remove_client_zero :
    (d : Bytes) (s : BroadcastSlot) (p : Peer) (ps : List Peer) (m : Broadcasts)
    → s.broadcaster ≡ peer 0 0
    → s.listeners ≡ p ∷ ps
    → remove_client 0 ((d, s) ∷ m) ≡ (d, s) ∷ m
unfolding remove_client remove_from
remove_client_zero d s p ps m b l = ground arith
