-- ===== src/Service/Peers.antt =====
-- How often a client stands in the slots: as a broadcaster and as a listener.
use akvirtualcamera.Base.{
  ℕ, ◌+◌, ◌≡◌, refl, List, [], ◌∷◌, ◌++◌, none, some, arith, inl, inr, Option-cases, ◌==◌,
  if◌then◌else◌,
}
use akvirtualcamera.Service.{Peer, BroadcastSlot, Broadcasts, erase_listener}

unfoldable pub count_listeners : ℕ → List Peer → ℕ
count_listeners c [] = 0
count_listeners c (p ∷ ps) = (if p.client_id == c then 1 else 0) + count_listeners c ps

unfoldable pub count_slot : ℕ → BroadcastSlot → ℕ
unfolding count_listeners
count_slot c s = (if s.broadcaster.client_id == c then 1 else 0) + count_listeners c s.listeners

unfoldable pub count_peers : ℕ → Broadcasts → ℕ
unfolding count_slot
count_peers c [] = 0
count_peers c ((d, s) ∷ m) = count_slot c s + count_peers c m

pub count_listeners-append :
    (c : ℕ) (ps qs : List Peer)
    → count_listeners c (ps ++ qs) ≡ count_listeners c ps + count_listeners c qs
unfolding count_listeners
count_listeners-append c [] qs = omega arith
count_listeners-append c (p ∷ ps) qs = omega (arith, count_listeners-append c ps qs)

-- What becomes of the count of any client when one entry of `c` is erased.
pub erase_listener-none :
    (c : ℕ) (ps : List Peer) → erase_listener c ps ≡ none → count_listeners c ps ≡ 0
unfolding erase_listener count_listeners
erase_listener-none c [] e = refl
erase_listener-none c (p ∷ ps) e = ground (arith, erase_listener-none c ps)

pub erase_listener-some :
    (c e : ℕ) (ps qs : List Peer)
    → erase_listener c ps ≡ some qs
    → count_listeners e ps ≡ (if c == e then 1 else 0) + count_listeners e qs
unfolding erase_listener count_listeners
erase_listener-some c e [] qs h = ground arith
erase_listener-some c e (p ∷ ps) qs h = elim (Option-cases (erase_listener c ps)) [
  | inl missing ↦ ground (arith, missing)
  | inr (rs, found) ↦ ground (arith, found, erase_listener-some c e ps rs found)
]
