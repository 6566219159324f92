-- ===== src/Base/StdMap/Sorted.antt =====
-- Maps whose keys rise, as those of every std::map do: the operations keep them so.
use mathlib.Core.Bool.{true}
use mathlib.Core.List.{[], ◌∷◌}
use mathlib.Core.Option.{none}
use mathlib.Core.Path.{◌≡◌, refl}
use native.Mathlib.Omega.{arith}
use akvirtualcamera.Base.Tests.{Bytes, str_lt, str_eq_iff}
use akvirtualcamera.Base.StdMap.Order.{str_lt_irrefl, str_lt_trans, str_lt_total}
use akvirtualcamera.Base.StdMap.Defs.{StdMap, find, assign, erase, ensure}

module _ {ℓ} {V : Type ℓ} where
  -- Every key is above `k`.
  abbrev pub Above : Bytes → StdMap V → Type 0
  Above k [] = Unit
  Above k ((j, v) ∷ m) = (str_lt k j ≡ true) × Above k m

  abbrev pub IsSorted : StdMap V → Type 0
  IsSorted [] = Unit
  IsSorted ((k, v) ∷ m) = Above k m × IsSorted m

  pub find-Above : (k : Bytes) (m : StdMap V) → Above k m → find k m ≡ none
  unfolding find
  find-Above k [] h = refl
  find-Above k ((j, v) ∷ m) h = ground (arith, str_eq_iff j k, str_lt_irrefl k, find-Above k m h.1)

  pub Above-trans : (i k : Bytes) (m : StdMap V) → str_lt i k ≡ true → Above k m → Above i m
  Above-trans i k [] h a = tt
  Above-trans i k ((j, v) ∷ m) h a = (str_lt_trans i k j h a.0, Above-trans i k m h a.1)

  Above-assign :
      (i k : Bytes) (v : V) (m : StdMap V) → str_lt i k ≡ true → Above i m → Above i (assign k v m)
  unfolding assign
  Above-assign i k v [] h a = (h, tt)
  Above-assign i k v ((j, w) ∷ m) h a = ground (arith, Above-assign i k v m h a.1)

  pub assign-IsSorted : (k : Bytes) (v : V) (m : StdMap V) → IsSorted m → IsSorted (assign k v m)
  unfolding assign
  assign-IsSorted k v [] s = (tt, tt)
  assign-IsSorted k v ((j, w) ∷ m) s = ground (
    arith,
    str_eq_iff j k,
    str_eq_iff k j,
    str_lt_total k j,
    Above-trans k j m,
    Above-assign j k v m,
    assign-IsSorted k v m s.1,
  )

  Above-erase : (i k : Bytes) (m : StdMap V) → Above i m → Above i (erase k m)
  unfolding erase
  Above-erase i k [] a = tt
  Above-erase i k ((j, w) ∷ m) a = ground (arith, Above-erase i k m a.1)

  pub erase-IsSorted : (k : Bytes) (m : StdMap V) → IsSorted m → IsSorted (erase k m)
  unfolding erase
  erase-IsSorted k [] s = tt
  erase-IsSorted k ((j, w) ∷ m) s = ground (arith, Above-erase j k m s.0, erase-IsSorted k m s.1)

  pub ensure-IsSorted : (k : Bytes) (v : V) (m : StdMap V) → IsSorted m → IsSorted (ensure k v m)
  unfolding ensure
  ensure-IsSorted k v m s = ground (arith, assign-IsSorted k v m s)
