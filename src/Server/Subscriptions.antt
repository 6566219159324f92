-- ===== src/Server/Subscriptions.antt =====
-- `subscribe` and `unsubscribe` of VCamUtils/src/messageserver.cpp.
use akvirtualcamera.Base.{
  ℕ, ◌≡◌, ◌<◌, ◌≤◌, refl, true, false, [], ◌∷◌, none, some, arith, ◌==◌, if◌then◌else◌, inl, inr,
  Option-cases,
}
use akvirtualcamera.Server.{
  MessageHandler, Handlers, find_handler, insert_handler, erase_handler, subscribe, unsubscribe,
}

module _ {S : Type 0} where
  -- Each message id once, in rising order, all above `k`.
  abbrev pub KeysAbove : ℕ → Handlers S → Type 0
  KeysAbove k [] = Unit
  KeysAbove k ((j, h) ∷ hs) = (k < j) × KeysAbove j hs

  find-insert :
      (i j : ℕ) (h : MessageHandler S) (hs : Handlers S)
      → find_handler i hs ≡ none
      → find_handler j (insert_handler i h hs) ≡ (if i == j then some h else find_handler j hs)
  unfolding find_handler insert_handler
  find-insert i j h [] free = refl
  find-insert i j h ((k, g) ∷ hs) free = ground (arith, find-insert i j h hs)

  find-below : (i k : ℕ) (hs : Handlers S) → KeysAbove k hs → i ≤ k → find_handler i hs ≡ none
  unfolding find_handler
  find-below i k [] sorted below = refl
  find-below i k ((j, h) ∷ hs) sorted below = ground (arith, find-below i j hs sorted.1)

  -- `subscribe` tells whether it took the handler: it takes it if the message has none, and then the
  -- message's handler is the new one; otherwise the handlers are as before. The handlers of the other
  -- messages never change.
  pub find_handler-subscribe :
      (i j : ℕ) (h : MessageHandler S) (hs : Handlers S)
      → ((subscribe i h hs).1 ≡ (elim (find_handler i hs) [ none ↦ true | some g ↦ false ]))
        × (find_handler j (subscribe i h hs).0 ≡ (
            if (subscribe i h hs).1
            then (if i == j then some h else find_handler j hs)
            else find_handler j hs))
  unfolding subscribe
  find_handler-subscribe i j h hs = elim (Option-cases (find_handler i hs)) [
    | inl e ↦ ground (arith, find-insert i j h hs e)
    | inr (g, e) ↦ ground (arith, e)
  ]

  find-erase-above :
      (i j k : ℕ) (hs : Handlers S)
      → KeysAbove k hs
      → find_handler j (erase_handler i hs) ≡ (if i == j then none else find_handler j hs)
  unfolding find_handler erase_handler
  find-erase-above i j k [] sorted = ground arith
  find-erase-above i j k ((l, h) ∷ hs) sorted =
      ground (arith, find-erase-above i j l hs sorted.1, find-below j l hs sorted.1)

  -- The handlers of a std::map, each message id once, in rising order.
  abbrev pub IsOrdered : Handlers S → Type 0
  IsOrdered [] = Unit
  IsOrdered ((j, h) ∷ hs) = KeysAbove j hs

  find-erase :
      (i j : ℕ) (hs : Handlers S)
      → IsOrdered hs
      → find_handler j (erase_handler i hs) ≡ (if i == j then none else find_handler j hs)
  unfolding find_handler erase_handler
  find-erase i j [] o = ground arith
  find-erase i j ((l, h) ∷ hs) o = ground (arith, find-erase-above i j l hs o, find-below j l hs o)

  insert-KeysAbove :
      (i k : ℕ) (h : MessageHandler S) (hs : Handlers S)
      → KeysAbove k hs
      → k < i
      → find_handler i hs ≡ none
      → KeysAbove k (insert_handler i h hs)
  unfolding insert_handler find_handler
  insert-KeysAbove i k h [] o above free = ground arith
  insert-KeysAbove i k h ((j, g) ∷ hs) o above free =
      ground (arith, o.0, o.1, insert-KeysAbove i j h hs o.1)

  pub subscribe-IsOrdered :
      (i : ℕ) (h : MessageHandler S) (hs : Handlers S)
      → IsOrdered hs
      → IsOrdered (subscribe i h hs).0
  unfolding subscribe insert_handler find_handler
  subscribe-IsOrdered i h [] o = ground arith
  subscribe-IsOrdered i h ((j, g) ∷ hs) o = ground (arith, o, insert-KeysAbove i j h hs o)

  -- In handlers of which each has its own message id, a message whose handler is subscribed where it
  -- had none, and then unsubscribed, has no handler, and every other message has the one it had.
  pub unsubscribe-subscribe :
      (i j : ℕ) (h : MessageHandler S) (hs : Handlers S)
      → IsOrdered hs
      → find_handler i hs ≡ none
      → ((unsubscribe i (subscribe i h hs).0).1 ≡ true)
        × (find_handler j (unsubscribe i (subscribe i h hs).0).0 ≡ find_handler j hs)
  unfolding unsubscribe
  unsubscribe-subscribe i j h hs o free = ground (
    arith,
    free,
    find_handler-subscribe i i h hs,
    find_handler-subscribe i j h hs,
    find-erase i j (subscribe i h hs).0 (subscribe-IsOrdered i h hs o),
  )
