-- ===== src/Client/Ends.antt =====
-- The loop of `connection` of VCamUtils/src/messageclient.cpp ends where its callbacks let it.
use akvirtualcamera.Base.{
  ℕ, zero, suc, ◌<◌, ◌≡◌, refl, Bool, true, ◌&&◌, Option, none, some, arith, inl, inr, Bool-cases,
}
use akvirtualcamera.Message.{Message}
use akvirtualcamera.Client.{Callbacks, Outcome, finish_round, exchange, Transport}

module _ {C T : Type 0} (k : Callbacks C) (ask : Transport T) (measure : C → ℕ) where
  -- A round that another one follows brings the measure down.
  abbrev pub BringsDown : Type 0
  BringsDown =
      (c : C) (answer : Message)
      → let (c', request, more) = k.read_data c in
        let (c'', go_on) = k.write_data answer c' in
        (more && go_on) ≡ true → measure c'' < measure c

  round_ends :
      (rest : C → T → Option (Outcome C T)) (more : Bool) (c : C) (r : Option Message × T)
      → ((answer : Message)
          → (more && (k.write_data answer c).1) ≡ true
          → (t : T) → (o : Outcome C T) × (rest (k.write_data answer c).0 t ≡ some o))
      → (o : Outcome C T) × (finish_round k ask rest more c r ≡ some o)
  unfolding finish_round
  round_ends rest more c (none, t) h = (_, refl)
  round_ends rest more c (some answer, t) h =
      elim (Bool-cases (more && (k.write_data answer c).1)) [
        | inl e ↦ (let (o, run) = h answer e t in (o, rw (finish_round, e) run))
        | inr e ↦ (
          record { callbacks = (k.write_data answer c).0; connection = t; ok = true },
          rw (finish_round, e) refl,
        )
      ]

  -- Where some measure of the state of the callbacks goes down from each round to the one that follows, the
  -- loop of a connection ends, whatever the connection does; one round more than the measure is enough.
  pub exchange_ends :
      (fuel : ℕ) (c : C) (t : T)
      → BringsDown
      → measure c < fuel
      → (o : Outcome C T) × (exchange k ask fuel c t ≡ some o)
  unfolding exchange
  exchange_ends zero c t down enough = absurd (omega arith)
  exchange_ends (suc fuel) c t down enough =
      let (c', request, more) = k.read_data c in
      round_ends (exchange k ask fuel) more c' (ask request t) (λ answer go_on u.
        exchange_ends fuel (k.write_data answer c').0 u down
          (omega (arith, enough, down c answer go_on)))
