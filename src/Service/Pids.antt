-- ===== src/Service/Pids.antt =====
-- `clients` of Service/src/service.cpp: the process ids that it collects.
use akvirtualcamera.Base.{
  ℕ, ◌≡◌, refl, Bool, false, not, ◌&&◌, ◌||◌, List, [], ◌∷◌, ◌++◌, arith, ◌==◌, if◌then◌else◌,
}
use akvirtualcamera.Service.{
  Peer, BroadcastSlot, Broadcasts, has_pid, add_pid, add_listeners, collect,
}
use akvirtualcamera.Message.Clients.{client_type_any}

-- Each process id once.
abbrev pub Distinct : List ℕ → Type 0
Distinct [] = Unit
Distinct (p ∷ ps) = (has_pid p ps ≡ false) × Distinct ps

-- A listener of the process.
unfoldable pub listens : ℕ → List Peer → Bool
listens p [] = false
listens p (l ∷ ls) = l.pid == p || listens p ls

-- The process is connected: it listens to a device, or, where any client is asked for, it
-- broadcasts, and its id is not 0.
unfoldable pub connected : ℕ → ℕ → Broadcasts → Bool
unfolding listens
connected t p [] = false
connected t p ((d, s) ∷ m) =
    (t == client_type_any && (not (s.broadcaster.pid == 0) && s.broadcaster.pid == p))
    || (listens p s.listeners || connected t p m)

has_pid-append : (p q : ℕ) (ps : List ℕ) → has_pid p (ps ++ q ∷ []) ≡ (has_pid p ps || q == p)
unfolding has_pid
has_pid-append p q [] = ground arith
has_pid-append p q (r ∷ ps) = ground (arith, has_pid-append p q ps)

Distinct-append :
    (q : ℕ) (ps : List ℕ) → has_pid q ps ≡ false → Distinct ps → Distinct (ps ++ q ∷ [])
unfolding has_pid
Distinct-append q [] h d = (refl, tt)
Distinct-append q (p ∷ ps) h d = ground (arith, Distinct-append q ps, has_pid-append p q ps)

has_pid-add_pid : (p q : ℕ) (ps : List ℕ) → has_pid p (add_pid q ps) ≡ (has_pid p ps || q == p)
has_pid-add_pid p q ps = ground (arith, has_pid-append p q ps)

Distinct-add_pid : (q : ℕ) (ps : List ℕ) → Distinct ps → Distinct (add_pid q ps)
Distinct-add_pid q ps d = ground (arith, Distinct-append q ps)

has_pid-add_listeners :
    (p : ℕ) (ls : List Peer) (ps : List ℕ)
    → has_pid p (add_listeners ls ps) ≡ (has_pid p ps || listens p ls)
unfolding add_listeners listens
has_pid-add_listeners p [] ps = ground arith
has_pid-add_listeners p (l ∷ ls) ps =
    ground (arith, has_pid-add_listeners p ls (add_pid l.pid ps), has_pid-add_pid p l.pid ps)

Distinct-add_listeners :
    (ls : List Peer) (ps : List ℕ) → Distinct ps → Distinct (add_listeners ls ps)
unfolding add_listeners
Distinct-add_listeners [] ps d = d
Distinct-add_listeners (l ∷ ls) ps d =
    Distinct-add_listeners ls (add_pid l.pid ps) (Distinct-add_pid l.pid ps d)

-- The list after the broadcaster of a slot.
abbrev with_broadcaster : ℕ → BroadcastSlot → List ℕ → List ℕ
with_broadcaster t s ps =
    if t == client_type_any && not (s.broadcaster.pid == 0)
    then add_pid s.broadcaster.pid ps
    else ps

has_pid-with_broadcaster :
    (t p : ℕ) (s : BroadcastSlot) (ps : List ℕ)
    → has_pid p (with_broadcaster t s ps) ≡ (
        has_pid p ps
        || (t == client_type_any && (not (s.broadcaster.pid == 0) && s.broadcaster.pid == p)))
has_pid-with_broadcaster t p s ps = ground (arith, has_pid-add_pid p s.broadcaster.pid ps)

Distinct-with_broadcaster :
    (t : ℕ) (s : BroadcastSlot) (ps : List ℕ) → Distinct ps → Distinct (with_broadcaster t s ps)
Distinct-with_broadcaster t s ps d = ground (arith, Distinct-add_pid s.broadcaster.pid ps)

has_pid-collect :
    (t p : ℕ) (m : Broadcasts) (ps : List ℕ)
    → has_pid p (collect t m ps) ≡ (has_pid p ps || connected t p m)
unfolding collect connected
has_pid-collect t p [] ps = ground arith
has_pid-collect t p ((d, s) ∷ m) ps = ground (
  arith,
  has_pid-collect t p m (add_listeners s.listeners (with_broadcaster t s ps)),
  has_pid-add_listeners p s.listeners (with_broadcaster t s ps),
  has_pid-with_broadcaster t p s ps,
)

Distinct-collect : (t : ℕ) (m : Broadcasts) (ps : List ℕ) → Distinct ps → Distinct (collect t m ps)
unfolding collect
Distinct-collect t [] ps h = h
Distinct-collect t ((d, s) ∷ m) ps h =
    Distinct-collect t m (add_listeners s.listeners (with_broadcaster t s ps)) (
      Distinct-add_listeners s.listeners (with_broadcaster t s ps)
        (Distinct-with_broadcaster t s ps h))

-- The answer to a request for the clients holds each process id once, and exactly those of the
-- connected processes of the requested type.
pub collect_exact :
    (t : ℕ) (m : Broadcasts)
    → Distinct (collect t m []) × ((p : ℕ) → has_pid p (collect t m []) ≡ connected t p m)
unfolding has_pid
collect_exact t m = (Distinct-collect t m [] tt, λ p. has_pid-collect t p m [])
