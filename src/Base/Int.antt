-- ===== src/Base/Int.antt =====
-- Signed integers over the native numbers: an integer is the difference of its two parts.
use Prim.Native.Nat.{ℕ, suc, ◌+◌, ◌-◌, ◌*◌, ◌/◌, ◌%◌, ◌^◌, ◌≤◌, ◌<◌}
use mathlib.Core.Bool.{Bool, true}
use mathlib.Core.Path.{◌≡◌, refl}
use native.Mathlib.Omega.{arith}
use akvirtualcamera.Base.Tests.{ltb, leb, ◌==◌, if◌then◌else◌}

-- `negsuc n` is -(n + 1).
pub data ℤ : Type 0 where
  pos negsuc : ℕ → ℤ

abbrev pub pos_part : ℤ → ℕ
pos_part (pos n) = n
pos_part (negsuc n) = 0

abbrev pub neg_part : ℤ → ℕ
neg_part (pos n) = 0
neg_part (negsuc n) = suc n

-- p - n.
abbrev pub sub_ℕ : ℕ → ℕ → ℤ
sub_ℕ p n = if leb n p then pos (p - n) else negsuc (n - p - 1)

infixl 65 ◌+ℤ◌ ◌-ℤ◌
infixl 70 ◌*ℤ◌
infix 50 ◌≤ℤ◌ ◌<ℤ◌
unfoldable pub ◌+ℤ◌ : ℤ → ℤ → ℤ
x +ℤ y = sub_ℕ (pos_part x + pos_part y) (neg_part x + neg_part y)

unfoldable pub ◌-ℤ◌ : ℤ → ℤ → ℤ
x -ℤ y = sub_ℕ (pos_part x + neg_part y) (neg_part x + pos_part y)

unfoldable pub ◌*ℤ◌ : ℤ → ℤ → ℤ
x *ℤ y =
    sub_ℕ (pos_part x * pos_part y + neg_part x * neg_part y)
      (pos_part x * neg_part y + neg_part x * pos_part y)

abbrev pub ◌≤ℤ◌ : ℤ → ℤ → Type 0
x ≤ℤ y = pos_part x + neg_part y ≤ pos_part y + neg_part x

abbrev pub ◌<ℤ◌ : ℤ → ℤ → Type 0
x <ℤ y = pos_part x + neg_part y < pos_part y + neg_part x

abbrev pub ltb_ℤ : ℤ → ℤ → Bool
ltb_ℤ x y = ltb (pos_part x + neg_part y) (pos_part y + neg_part x)

abbrev pub leb_ℤ : ℤ → ℤ → Bool
leb_ℤ x y = leb (pos_part x + neg_part y) (pos_part y + neg_part x)

abbrev pub eqb_ℤ : ℤ → ℤ → Bool
eqb_ℤ x y = pos_part x + neg_part y == pos_part y + neg_part x

abbrev pub neg_ℤ : ℤ → ℤ
neg_ℤ x = sub_ℕ (neg_part x) (pos_part x)

-- |x|, as a number.
abbrev pub magnitude : ℤ → ℕ
magnitude x = pos_part x + neg_part x

-- Signed division as C++ does it, towards zero.
unfoldable pub div_ℤ : ℤ → ℤ → ℤ
div_ℤ (pos a) (pos b) = pos (a / b)
div_ℤ (pos a) (negsuc b) = neg_ℤ (pos (a / suc b))
div_ℤ (negsuc a) (pos b) = neg_ℤ (pos (suc a / b))
div_ℤ (negsuc a) (negsuc b) = pos (suc a / suc b)

pub eq_of_parts : (x y : ℤ) → pos_part x + neg_part y ≡ pos_part y + neg_part x → x ≡ y
eq_of_parts x y h = ground arith

pub eqb_ℤ_sound : (x y : ℤ) → eqb_ℤ x y ≡ true → x ≡ y
eqb_ℤ_sound x y h = ground arith

-- One equation for each operation, so that `omega` works with the operations shut.
pub +ℤ_parts :
    (x y : ℤ)
    → pos_part (x +ℤ y) + (neg_part x + neg_part y) ≡ neg_part (x +ℤ y) + (pos_part x + pos_part y)
unfolding ◌+ℤ◌
+ℤ_parts x y = ground arith

pub -ℤ_parts :
    (x y : ℤ)
    → pos_part (x -ℤ y) + (neg_part x + pos_part y) ≡ neg_part (x -ℤ y) + (pos_part x + neg_part y)
unfolding ◌-ℤ◌
-ℤ_parts x y = ground arith

-- A difference is no further from zero than both are together.
pub -ℤ_size : (x y : ℤ) → magnitude (x -ℤ y) ≤ magnitude x + magnitude y
unfolding ◌-ℤ◌
-ℤ_size x y = ground arith

pub ruleset int_laws = (arith, +ℤ_parts, -ℤ_parts, eq_of_parts)

-- What the `bits + 1` bits of a signed word hold of an integer: C++ leaves an overflow undefined, and
-- the machines wrap around.
unfoldable pub wrap_int : ℕ → ℤ → ℤ
wrap_int bits v =
    let size = 2 ^ (bits + 1) in
    let rest = (pos_part v + (size - neg_part v % size)) % size in
    if ltb rest (2 ^ bits) then pos rest else negsuc (size - rest - 1)

abbrev pub int32 : ℤ → ℤ
int32 v = wrap_int 31 v

abbrev pub int64 : ℤ → ℤ
int64 v = wrap_int 63 v

-- A number that an int holds, negative or not, is kept.
pub int32-kept : (v : ℤ) → magnitude v < 2 ^ 31 → wrap_int 31 v ≡ v
unfolding wrap_int
int32-kept v small = ground arith

pub int32-pos : (n : ℕ) → n < 2 ^ 31 → wrap_int 31 (pos n) ≡ pos n
int32-pos n small = int32-kept (pos n) (omega arith)

pub int64-pos : (n : ℕ) → n < 2 ^ 63 → wrap_int 63 (pos n) ≡ pos n
unfolding wrap_int
int64-pos n small = ground arith

wrapped : (wrap_int 31 (pos (2 ^ 31)) ≡ negsuc (2 ^ 31 - 1)) × (wrap_int 31 (negsuc 4) ≡ negsuc 4)
unfolding wrap_int
wrapped = (refl, refl)
