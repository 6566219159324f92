-- ===== src/Service/Stale.antt =====
-- A connection that asks for the frames of a device again and again, as the clients do, and closes.
use akvirtualcamera.Base.{
  ℕ, zero, suc, ◌+◌, ◌≡◌, ◌≢◌, refl, Option, some, ◌>>=◌, arith, str_eq_refl, false,
}
use akvirtualcamera.Base.StdMap.{assign, IsSorted, assign-IsSorted}
use akvirtualcamera.Message.Listen.{MsgListen}
use akvirtualcamera.Service.{Broadcasts, enter_listen, leave_listen, slot_answer, remove_client}
use akvirtualcamera.Service.Peers.{count_slot, count_peers}
use akvirtualcamera.Service.Remove.{count-remove_client}
use akvirtualcamera.Service.Listening.{
  joined, find-enter_listen, enter_listen-IsSorted, count-enter_listen, count-assign,
}

-- The slots after `n` requests of one connection, one after the other.
unfoldable pub listen_times : ℕ → ℕ → MsgListen → Broadcasts → Option Broadcasts
listen_times zero c l m = some m
listen_times (suc n) c l m = do
  (m', _) ← leave_listen l l.query_id (enter_listen c l m)
  listen_times n c l m'

-- The slots after one request.
abbrev after_listen : ℕ → MsgListen → Broadcasts → Broadcasts
after_listen c l m =
    assign l.device (record (joined c l m) { frame_ready = false }) (enter_listen c l m)

leave_listen-enter_listen :
    (c : ℕ) (l : MsgListen) (m : Broadcasts)
    → leave_listen l l.query_id (enter_listen c l m)
      ≡ some (after_listen c l m, slot_answer l l.query_id (joined c l m))
unfolding leave_listen
leave_listen-enter_listen c l m =
    ground (arith, find-enter_listen c l m l.device, str_eq_refl l.device)

after_listen-IsSorted :
    (c : ℕ) (l : MsgListen) (m : Broadcasts) → IsSorted m → IsSorted (after_listen c l m)
after_listen-IsSorted c l m h =
    assign-IsSorted l.device _ (enter_listen c l m) (enter_listen-IsSorted c l m h)

count-after_listen :
    (c : ℕ) (l : MsgListen) (m : Broadcasts)
    → IsSorted m
    → c ≢ 0
    → count_peers c (after_listen c l m) ≡ count_peers c m + 1
unfolding count_slot
count-after_listen c l m h z = ground (
  arith,
  find-enter_listen c l m l.device,
  str_eq_refl l.device,
  count-assign c l.device (joined c l m) (record (joined c l m) { frame_ready = false })
      (enter_listen c l m) (enter_listen-IsSorted c l m h),
  count-enter_listen c l m h z,
)

listen_times-count :
    (n c : ℕ) (l : MsgListen) (m : Broadcasts)
    → IsSorted m
    → c ≢ 0
    → (m' : Broadcasts) × (listen_times n c l m ≡ some m')
      × (count_peers c m' ≡ count_peers c m + n)
      × IsSorted m'
unfolding listen_times
listen_times-count zero c l m h z = (m, refl, omega arith, h)
listen_times-count (suc n) c l m h z =
    let (m', e, k, s) =
      listen_times-count n c l (after_listen c l m) (after_listen-IsSorted c l m h) z in
    (m', rw (leave_listen-enter_listen c l m) e, omega (arith, k, count-after_listen c l m h z), s)

-- After n + 1 requests of a connection whose client has an id other than 0, with the slots in the
-- order of their devices, its close leaves n entries more for the client than there were before the
-- first request.
pub stale_listeners :
    (n c : ℕ) (l : MsgListen) (m : Broadcasts)
    → IsSorted m
    → c ≢ 0
    → (m' : Broadcasts) × (listen_times (n + 1) c l m ≡ some m')
      × (count_peers c (remove_client c m') ≡ count_peers c m + n)
stale_listeners n c l m h z =
    let (m', e, k, s) = listen_times-count (n + 1) c l m h z in
    (m', e, omega (arith, k, count-remove_client c m' s z))
