-- ===== src/Number/Algorithm.antt =====
-- VCamUtils/src/algorithm.h on 64-bit words: `alignUp` and `multBytesRequired`.
use Prim.Native.Nat.{bit_and}
use akvirtualcamera.Base.{
  ℕ, ◌+◌, ◌-◌, ◌*◌, ◌/◌, ◌%◌, ◌^◌, ◌≤◌, ◌<◌, ◌≡◌, arith, leb, if◌then◌else◌, ap, ◌∙◌,
}
use akvirtualcamera.Base.Bits.{bit_and_clear_5}

-- size_t arithmetic.
abbrev pub wrap64 : ℕ → ℕ
wrap64 x = x % 2 ^ 64

-- (value + align - 1) & ~(align - 1), with `align` from 1 on.
unfoldable pub align_up : ℕ → ℕ → ℕ
align_up value align = bit_and (wrap64 (value + align - 1)) (2 ^ 64 - 1 - (align - 1))

unfoldable pub mult_bytes_required : ℕ → ℕ
mult_bytes_required nbits =
    if leb nbits 4
    then 1
    else if leb nbits 8
    then 2
    else if leb nbits 16
    then 4
    else if leb nbits 32
    then 8
    else 0

-- At the alignment that frames use: the next multiple of 32.
pub align_up_32 : (value : ℕ) → value + 31 < 2 ^ 64 → align_up value 32 ≡ (value + 31) / 32 * 32
unfolding align_up
align_up_32 value h =
    ap (λ (x : ℕ). bit_and x (2 ^ 64 - 32)) (wrapped value h) ∙ bit_and_clear_5 (value + 31) h
  where
    wrapped : (v : ℕ) → v + 31 < 2 ^ 64 → wrap64 (v + 32 - 1) ≡ v + 31
    wrapped v fits = omega arith

-- It is at least the value, less than 32 above it, and a multiple of 32, also when it is aligned
-- again.
pub align_up_32_bounds :
    (value : ℕ)
    → value + 31 < 2 ^ 64
    → (value ≤ align_up value 32) × (align_up value 32 ≤ value + 31) × (align_up value 32 % 32 ≡ 0)
align_up_32_bounds value h = rw (align_up_32 value h) (omega arith)
