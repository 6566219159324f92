-- ===== src/Service/Waiting.antt =====
-- The handlers of Service/src/service.cpp and the close of a connection as interleaved steps.
-- MessageServerPrivate::connection (VCamUtils/src/messageserver.cpp) holds `m_handlersMutex` while a
-- handler runs, so one handler runs at a time, also while `listen` waits for a frame and has given
-- `m_peerMutex` away. `removeClientById` takes only `m_peerMutex`, and runs on the connection's own
-- thread after its last handler: it can run while another connection's listener waits.
pub mod Safety
pub mod Invariant
pub mod Unserved
use akvirtualcamera.Base.{ℕ, ◌≡◌, ◌≢◌, Bool, true, false, some, []}
use akvirtualcamera.Base.StdMap.{find}
use akvirtualcamera.Message.{Message}
use akvirtualcamera.Message.Broadcast.{MsgBroadcast}
use akvirtualcamera.Message.Listen.{MsgListen}
use akvirtualcamera.Service.{
  BroadcastSlot, Broadcasts, broadcast_slots, enter_listen, leave_listen, remove_client,
}

-- The handler that holds `m_handlersMutex`: none, or `listen` inside `wait_for`.
pub data Handler : Type 0 where
  idle : Handler
  waiting : ℕ → MsgListen → Handler

pub record State : Type 0 where
  pub slots : Broadcasts
  pub handler : Handler

-- A connection can close unless its own listener waits.
abbrev pub CanClose : ℕ → Handler → Type 0
CanClose c idle = Unit
CanClose c (waiting w l) = c ≢ w

-- A request for the clients changes nothing here, and has no step.
pub data Step (s t : State) : Type 0 where
  broadcasts :
      (c : ℕ) (b : MsgBroadcast)
      → s.handler ≡ idle
      → t ≡ record { slots = (broadcast_slots c b s.slots).0; handler = idle }
      → Step s t
  listens :
      (c : ℕ) (l : MsgListen) (slot : BroadcastSlot) (q : ℕ) (answer : Message)
      → s.handler ≡ idle
      → find l.device (enter_listen c l s.slots) ≡ some slot
      → slot.frame_ready ≡ true
      → leave_listen l q (enter_listen c l s.slots) ≡ some (t.slots, answer)
      → t.handler ≡ idle
      → Step s t
  waits :
      (c : ℕ) (l : MsgListen) (slot : BroadcastSlot)
      → s.handler ≡ idle
      → find l.device (enter_listen c l s.slots) ≡ some slot
      → slot.frame_ready ≡ false
      → t ≡ record { slots = enter_listen c l s.slots; handler = waiting c l }
      → Step s t
  closes :
      (c : ℕ)
      → CanClose c s.handler
      → t ≡ record { slots = remove_client c s.slots; handler = s.handler }
      → Step s t
  -- The wait is over: by its time, or by a notification.
  wakes :
      (c : ℕ) (l : MsgListen) (q : ℕ) (answer : Message)
      → s.handler ≡ waiting c l
      → leave_listen l q s.slots ≡ some (t.slots, answer)
      → t.handler ≡ idle
      → Step s t

pub data Reach (s : State) : State → Type 0 where
  here : Reach s s
  next : {t u : State} → Reach s t → Step t u → Reach s u

-- A service that has just started.
abbrev pub start : State
start = record { slots = []; handler = idle }
