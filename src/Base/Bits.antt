-- ===== src/Base/Bits.antt =====
-- `&` with a mask of low bits and with its complement, as arithmetic.
use Prim.Native.Nat.{
  ℕ, zero, suc, ◌+◌, ◌-◌, ◌*◌, ◌/◌, ◌%◌, ◌^◌, ◌≤◌, ◌<◌, min, bit_and, digits, bit_and-bitwise,
}
use mathlib.Core.Path.{◌≡◌, refl}
use native.Mathlib.Nat.{pow-suc, one-le-pow}
use native.Mathlib.Omega.{arith}

-- `digits` with `fuel` digits of `a` at most, as `bit_and` calls it.
abbrev common : (fuel a b : ℕ) → ℕ
common fuel = digits (λ _. zero) min fuel

-- A digit more than there are changes nothing.
common_more : (fuel a b : ℕ) → a ≤ fuel → common (suc fuel) a b ≡ common fuel a b
common_more zero (suc a) b h = absurd (omega arith)
common_more zero zero b h = refl
common_more (suc fuel) zero b h = refl
common_more (suc fuel) (suc a) b h =
    let half = common_more fuel (suc a / 2) (b / 2) (omega arith) in omega (arith, half)

common_enough : (fuel a b : ℕ) → a ≤ fuel → common fuel a b ≡ common a a b
common_enough zero (suc a) b h = absurd (omega arith)
common_enough zero zero b h = refl
common_enough (suc fuel) a b h = ground (arith, common_more fuel a b, common_enough fuel a b)

-- The even part of `a & b` comes from the halves, its lowest bit from the lowest bits.
bit_and-halves : (b a : ℕ) → bit_and a b ≡ 2 * bit_and (a / 2) (b / 2) + min (a % 2) (b % 2)
bit_and-halves b zero =
    let none_left = bit_and-bitwise 0 in omega (arith, none_left b, none_left (b / 2))
bit_and-halves b (suc a) =
    let whole = bit_and-bitwise (suc a) b in
    let half = bit_and-bitwise (suc a / 2) (b / 2) in
    let same = common_enough a (suc a / 2) (b / 2) (omega arith) in omega (arith, whole, half, same)

-- A mask of `k` ones keeps a number of `k` bits.
bit_and_ones : (k a : ℕ) → a < 2 ^ k → bit_and a (2 ^ k - 1) ≡ a
bit_and_ones zero (suc a) small = absurd (omega arith)
bit_and_ones zero zero small = bit_and-bitwise 0 (2 ^ 0 - 1)
bit_and_ones (suc k) a small =
    let half = bit_and_ones k (a / 2) (omega (arith, pow-suc 2 k)) in
    ground (arith, half, bit_and-halves (2 ^ suc k - 1) a, pow-suc 2 k, one-le-pow k 2)

-- Clearing the five low bits of a 64-bit word rounds it down to a multiple of 32.
pub bit_and_clear_5 : (a : ℕ) → a < 2 ^ 64 → bit_and a (2 ^ 64 - 32) ≡ a / 32 * 32
bit_and_clear_5 a h =
    let first = bit_and-halves (2 ^ 64 - 32) a in
    let second = bit_and-halves (2 ^ 63 - 16) (a / 2) in
    let third = bit_and-halves (2 ^ 62 - 8) (a / 2 / 2) in
    let fourth = bit_and-halves (2 ^ 61 - 4) (a / 2 / 2 / 2) in
    let fifth = bit_and-halves (2 ^ 60 - 2) (a / 2 / 2 / 2 / 2) in
    let rest = bit_and_ones 59 (a / 2 / 2 / 2 / 2 / 2) (omega arith) in
    omega (arith, first, second, third, fourth, fifth, rest)
