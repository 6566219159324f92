-- ===== src/Base/StdMap/Order.antt =====
-- The order of strings, and maps whose keys rise.
use mathlib.Core.Bool.{true, false}
use mathlib.Core.List.{[], ◌∷◌}
use mathlib.Core.Path.{◌≡◌, refl}
use native.Mathlib.Omega.{arith}
use akvirtualcamera.Base.Tests.{Bytes, str_eq, str_lt}

pub str_lt_irrefl : (s : Bytes) → str_lt s s ≡ false
unfolding str_lt
str_lt_irrefl [] = refl
str_lt_irrefl (a ∷ s) = ground (arith, str_lt_irrefl s)

pub str_lt_trans : (s t u : Bytes) → str_lt s t ≡ true → str_lt t u ≡ true → str_lt s u ≡ true
unfolding str_lt
str_lt_trans s t [] h k = ground arith
str_lt_trans s [] (c ∷ u) h k = ground arith
str_lt_trans [] (b ∷ t) (c ∷ u) h k = refl
str_lt_trans (a ∷ s) (b ∷ t) (c ∷ u) h k = ground (arith, str_lt_trans s t u)

-- Of two strings that differ one is below the other.
pub str_lt_total : (s t : Bytes) → str_eq s t ≡ false → str_lt s t ≡ false → str_lt t s ≡ true
unfolding str_lt str_eq
str_lt_total [] [] e h = ground arith
str_lt_total [] (b ∷ t) e h = ground arith
str_lt_total (a ∷ s) [] e h = refl
str_lt_total (a ∷ s) (b ∷ t) e h = ground (arith, str_lt_total s t)
