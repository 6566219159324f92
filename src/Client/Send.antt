-- ===== src/Client/Send.antt =====
-- `send(inMessage, outMessage)` of VCamUtils/src/messageclient.cpp.
use akvirtualcamera.Base.{◌≡◌, refl, true, false, Option, none, some}
use akvirtualcamera.Message.{Message}
use akvirtualcamera.Client.{Outcome, finish_round, exchange, Transport, single, send}

one_round :
    {T : Type 0} (ask : Transport T) (request : Message)
    (rest : Option Message → T → Option (Outcome (Option Message) T)) (r : Option Message × T)
    → finish_round (single request) ask rest true none r
      ≡ some (record {
        callbacks = r.0;
        connection = r.1;
        ok = elim r.0 [ none ↦ false | some answer ↦ true ];
      })
unfolding finish_round
one_round ask request rest (none, t) = refl
one_round ask request rest (some answer, t) = refl

-- To send one message ends after one round, whatever the connection does; it gives the answer of the
-- server, leaves the connection as that round left it, and is a success exactly if there is an answer.
pub send_ends :
    {T : Type 0} (ask : Transport T) (request : Message) (t : T)
    → send ask request t
      ≡ some (record {
        callbacks = (ask request t).0;
        connection = (ask request t).1;
        ok = elim (ask request t).0 [ none ↦ false | some answer ↦ true ];
      })
unfolding send exchange finish_round
send_ends ask request t = one_round ask request (λ c u. none) (ask request t)
