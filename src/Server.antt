-- ===== src/Server.antt =====
-- VCamUtils/src/messageserver.cpp: the handlers of a MessageServer, and `connection`, the loop that
-- serves one client. `S` is the state that the handlers share. A handler's result is `none` where it
-- is undefined behaviour.
pub mod Subscriptions
pub mod Replies
pub mod Sessions
use akvirtualcamera.Base.{
  ℕ, Bool, true, false, List, [], ◌∷◌, Option, none, some, ◌>>=◌, ltb, ◌==◌, if◌then◌else◌,
}
use akvirtualcamera.Message.{Message}

abbrev pub MessageHandler : Type 0 → Type 0
MessageHandler S = ℕ → Message → S → Option (S × Message × Bool)

abbrev pub Handlers : Type 0 → Type 0
Handlers S = List (ℕ × MessageHandler S)

-- One round of a connection: the message that was received, the query id that the default
-- constructor gives to the answer, and whether the answer could be sent.
pub record Round : Type 0 where
  pub message : Message
  pub fresh : ℕ
  pub sendable : Bool

-- The answer where no handler is subscribed.
abbrev pub no_answer : ℕ → Message
no_answer fresh = record { id = 0; query_id = fresh; data_bytes = [] }

module _ {S : Type 0} where
  unfoldable pub find_handler : ℕ → Handlers S → Option (MessageHandler S)
  find_handler i [] = none
  find_handler i ((j, h) ∷ hs) = if j == i then some h else find_handler i hs

  -- operator [] of the std::map, where the key is missing.
  unfoldable pub insert_handler : ℕ → MessageHandler S → Handlers S → Handlers S
  insert_handler i h [] = (i, h) ∷ []
  insert_handler i h ((j, k) ∷ hs) =
      if ltb i j then (i, h) ∷ (j, k) ∷ hs else (j, k) ∷ insert_handler i h hs

  unfoldable pub erase_handler : ℕ → Handlers S → Handlers S
  erase_handler i [] = []
  erase_handler i ((j, h) ∷ hs) = if j == i then hs else (j, h) ∷ erase_handler i hs

  unfoldable pub subscribe : ℕ → MessageHandler S → Handlers S → Handlers S × Bool
  subscribe i h hs = elim (find_handler i hs) [
    | some k ↦ (hs, false)
    | none ↦ (insert_handler i h hs, true)
  ]

  unfoldable pub unsubscribe : ℕ → Handlers S → Handlers S × Bool
  unsubscribe i hs = elim (find_handler i hs) [
    | none ↦ (hs, false)
    | some k ↦ (erase_handler i hs, true)
  ]

  -- The part of a round under `m_handlersMutex`.
  unfoldable pub handle : Handlers S → ℕ → Round → S → Option (S × Message × Bool)
  handle hs c r s = elim (find_handler r.message.id hs) [
    | none ↦ some (s, no_answer r.fresh, true)
    | some h ↦ h c r.message s
  ]

  -- The loop of `connection`: the state, and the answers that were sent, in order. It ends when no
  -- further message is received, when a handler fails, or when an answer cannot be sent.
  unfoldable pub connection : Handlers S → ℕ → List Round → S → Option (S × List Message)
  connection hs c [] s = some (s, [])
  connection hs c (r ∷ rs) s = do
    (s', answer, ok) ← handle hs c r s
    let rest = connection hs c rs s'
    if ok
        then if r.sendable
          then (do (t, answers) ← rest; some (t, answer ∷ answers))
          else some (s', [])
        else some (s', [])
