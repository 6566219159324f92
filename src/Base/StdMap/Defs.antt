-- ===== src/Base/StdMap/Defs.antt =====
-- The operations of std::map that the sources use.
use mathlib.Core.Bool.{Bool, true, false}
use mathlib.Core.Logic.{inl, inr}
use mathlib.Core.List.{List, [], ◌∷◌}
use mathlib.Core.Option.{Option, none, some}
use mathlib.Core.Path.{◌≡◌, refl}
use native.Mathlib.Omega.{arith}
use akvirtualcamera.Base.Tests.{Bytes, str_eq, str_lt, str_eq_iff, if◌then◌else◌, Option-cases}

abbrev pub StdMap {ℓ} : Type ℓ → Type ℓ
StdMap V = List (Bytes × V)

module _ {ℓ} {V : Type ℓ} where
  unfoldable pub find : Bytes → StdMap V → Option V
  find k [] = none
  find k ((j, v) ∷ m) = if str_eq j k then some v else find k m

  -- operator [] = v.
  unfoldable pub assign : Bytes → V → StdMap V → StdMap V
  assign k v [] = (k, v) ∷ []
  assign k v ((j, w) ∷ m) =
      if str_eq j k
      then (k, v) ∷ m
      else if str_lt k j
      then (k, v) ∷ (j, w) ∷ m
      else (j, w) ∷ assign k v m

  unfoldable pub erase : Bytes → StdMap V → StdMap V
  erase k [] = []
  erase k ((j, v) ∷ m) = if str_eq j k then erase k m else (j, v) ∷ erase k m

  -- count(k) > 0.
  unfoldable pub contains : Bytes → StdMap V → Bool
  contains k [] = false
  contains k ((j, v) ∷ m) = if str_eq j k then true else contains k m

  -- A read by operator [], where `d` is the default that the entry would be made with.
  unfoldable pub find_or : V → Bytes → StdMap V → V
  unfolding find
  find_or d k m = elim (find k m) [ none ↦ d | some v ↦ v ]

  -- if (count(k) < 1) m[k] = v.
  unfoldable pub ensure : Bytes → V → StdMap V → StdMap V
  unfolding contains assign
  ensure k v m = if contains k m then m else assign k v m

  pub find-assign :
      (k j : Bytes) (v : V) (m : StdMap V)
      → find j (assign k v m) ≡ (if str_eq k j then some v else find j m)
  unfolding find assign
  find-assign k j v [] = refl
  find-assign k j v ((i, w) ∷ m) =
      ground (arith, str_eq_iff k j, str_eq_iff i k, str_eq_iff i j, find-assign k j v m)

  pub find-erase :
      (k j : Bytes) (m : StdMap V) → find j (erase k m) ≡ (if str_eq k j then none else find j m)
  unfolding find erase
  find-erase k j [] = ground arith
  find-erase k j ((i, w) ∷ m) =
      ground (arith, str_eq_iff k j, str_eq_iff i k, str_eq_iff i j, find-erase k j m)

  -- count agrees with find.
  pub contains-find :
      (k : Bytes) (m : StdMap V) → contains k m ≡ elim (find k m) [ none ↦ false | some v ↦ true ]
  unfolding contains find
  contains-find k [] = refl
  contains-find k ((j, v) ∷ m) = ground (arith, contains-find k m)

  -- The entry that is there afterwards is the old one, or the given one if there was none.
  pub find-ensure :
      (k j : Bytes) (v : V) (m : StdMap V)
      → find j (ensure k v m) ≡ (if str_eq k j then some (find_or v k m) else find j m)
  unfolding ensure find_or
  find-ensure k j v m = elim (Option-cases (find k m)) [
    | inl e ↦ ground (arith, e, contains-find k m, find-assign k j v m)
    | inr (w, e) ↦ ground (arith, e, contains-find k m, str_eq_iff k j)
  ]
