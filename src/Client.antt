-- ===== src/Client.antt =====
-- VCamUtils/src/messageclient.cpp: the loop of `connection`, behind the connect. `C` is the state of
-- the two callbacks, and `T` that of the connection to the server.
pub mod Exchange
pub mod Send
pub mod Ends
use akvirtualcamera.Base.{
  ℕ, zero, suc, ◌+◌, Bool, true, false, ◌&&◌, List, [], ◌∷◌, Option, none, some, if◌then◌else◌,
}
use akvirtualcamera.Message.{Message}

-- `readData`, which gives the next request and whether there is more, and `writeData`, which takes an
-- answer and tells whether to go on.
pub record Callbacks (C : Type 0) : Type 0 where
  pub read_data : C → C × Message × Bool
  pub write_data : Message → C → C × Bool

-- To send a message and receive one: `none` where either fails.
abbrev pub Transport : Type 0 → Type 0
Transport T = Message → T → Option Message × T

-- What `connection` returns, with the states of the callbacks and of the connection.
pub record Outcome (C T : Type 0) : Type 0 where
  pub callbacks : C
  pub connection : T
  pub ok : Bool

module _ {C T : Type 0} (k : Callbacks C) (ask : Transport T) where
  -- The end of a round, behind the answer; `rest` are the rounds to follow.
  unfoldable pub finish_round :
      (C → T → Option (Outcome C T)) → Bool → C → Option Message × T → Option (Outcome C T)
  finish_round rest more c (none, t) = some (record { callbacks = c; connection = t; ok = false })
  finish_round rest more c (some answer, t) =
      let (c', go_on) = k.write_data answer c in
      if more && go_on
      then rest c' t
      else some (record { callbacks = c'; connection = t; ok = true })

  -- The loop, of `fuel` rounds at most; `none` where that is not enough.
  unfoldable pub exchange : ℕ → C → T → Option (Outcome C T)
  unfolding finish_round
  exchange zero c t = none
  exchange (suc fuel) c t =
      let (c', request, more) = k.read_data c in
      finish_round (exchange fuel) more c' (ask request t)

-- The callbacks of `send(inMessage, outMessage)`: the state is `outMessage`.
abbrev pub single : Message → Callbacks (Option Message)
single request = record {
  read_data = λ c. (c, request, true);
  write_data = λ answer c. (some answer, false);
}

-- `send(inMessage, outMessage)`: one round is enough.
unfoldable pub send : {T : Type 0} → Transport T → Message → T → Option (Outcome (Option Message) T)
unfolding exchange
send ask request t = exchange (single request) ask 1 none t
