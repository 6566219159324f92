-- ===== src/Base/Buffer.antt =====
-- What memcpy reads from a std::vector<char> at an offset, and the integers that it holds there in
-- the byte order of a little-endian machine.
use mathlib.Core.List.{[], ◌∷◌, ◌++◌}
use mathlib.Core.Option.{Option, none, some}
use mathlib.Core.Path.{◌≡◌, refl}
use native.Mathlib.Nat.{pow-suc}
use native.Mathlib.Omega.{arith}
use Prim.Native.Nat.{ℕ, zero, suc, ◌+◌, ◌*◌, ◌/◌, ◌%◌, ◌^◌, ◌≤◌, ◌<◌}
use akvirtualcamera.Base.Tests.{Bytes, leb, if◌then◌else◌}
use akvirtualcamera.Base.Lists.{length, take, drop, length-append, take-append, drop-append}

-- A read that leaves the buffer is undefined behaviour: `none`.
unfoldable pub read_bytes : Bytes → ℕ → ℕ → Option Bytes
read_bytes buf off n = if leb (off + n) (length buf) then some (take n (drop off buf)) else none

-- The `n` bytes of an unsigned integer, the lowest first.
unfoldable pub le_bytes : ℕ → ℕ → Bytes
le_bytes zero v = []
le_bytes (suc n) v = (v % 256) ∷ le_bytes n (v / 256)

unfoldable pub le_value : Bytes → ℕ
le_value [] = 0
le_value (b ∷ bs) = b + 256 * le_value bs

-- A read of an integer of `n` bytes.
unfoldable pub read_uint : Bytes → ℕ → ℕ → Option ℕ
read_uint buf off n = elim (read_bytes buf off n) [ none ↦ none | some bs ↦ some (le_value bs) ]

pub length-le_bytes : (n v : ℕ) → length (le_bytes n v) ≡ n
unfolding le_bytes
length-le_bytes zero v = refl
length-le_bytes (suc n) v = omega (arith, length-le_bytes n (v / 256))

pub le_value-le_bytes : (n v : ℕ) → v < 256 ^ n → le_value (le_bytes n v) ≡ v
unfolding le_bytes le_value
le_value-le_bytes zero v h = omega arith
le_value-le_bytes (suc n) v h =
    omega (arith, le_value-le_bytes n (v / 256) (omega (arith, pow-suc 256 n)))

-- What stands at the offset is what is read.
pub read_bytes-middle :
    (pre mid post : Bytes) {off n : ℕ}
    → off ≡ length pre
    → n ≡ length mid
    → read_bytes (pre ++ (mid ++ post)) off n ≡ some mid
unfolding read_bytes
read_bytes-middle pre mid post {off} {n} ho hn = ground (
  arith,
  length-append pre (mid ++ post),
  length-append mid post,
  drop-append off pre (mid ++ post),
  take-append n mid post,
)

-- Past the end of the buffer nothing is read.
pub read_bytes-past : (buf : Bytes) (off n : ℕ) → length buf < off + n → read_bytes buf off n ≡ none
unfolding read_bytes
read_bytes-past buf off n h = ground arith

pub read_uint-past : (buf : Bytes) (off n : ℕ) → length buf < off + n → read_uint buf off n ≡ none
unfolding read_uint
read_uint-past buf off n h = ground (arith, read_bytes-past buf off n)

-- An integer that was written at the offset is read back.
pub read_uint-middle :
    (pre post : Bytes) (v n : ℕ) {off : ℕ}
    → off ≡ length pre
    → v < 256 ^ n
    → read_uint (pre ++ (le_bytes n v ++ post)) off n ≡ some v
unfolding read_uint
read_uint-middle pre post v n {off} ho hv = ground (
  arith,
  read_bytes-middle pre (le_bytes n v) post {off = off} {n = n} ho
      (omega (arith, length-le_bytes n v)),
  length-le_bytes n v,
  le_value-le_bytes n v hv,
)

-- The same for a buffer that is put together otherwise.
pub read_uint-at :
    {buf : Bytes} (pre post : Bytes) (v n : ℕ) {off : ℕ}
    → buf ≡ pre ++ (le_bytes n v ++ post)
    → off ≡ length pre
    → v < 256 ^ n
    → read_uint buf off n ≡ some v
read_uint-at pre post v n e ho hv = rw e (read_uint-middle pre post v n ho hv)

pub read_bytes-at :
    {buf : Bytes} (pre mid post : Bytes) {off n : ℕ}
    → buf ≡ pre ++ (mid ++ post)
    → off ≡ length pre
    → n ≡ length mid
    → read_bytes buf off n ≡ some mid
read_bytes-at pre mid post e ho hn = rw e (read_bytes-middle pre mid post ho hn)

-- Inside the buffer every read succeeds.
pub read_bytes-within :
    (buf : Bytes) (off n : ℕ)
    → off + n ≤ length buf
    → (bs : Bytes) × (read_bytes buf off n ≡ some bs)
unfolding read_bytes
read_bytes-within buf off n h = (take n (drop off buf), ground arith)

pub read_uint-within :
    (buf : Bytes) (off n : ℕ) → off + n ≤ length buf → (v : ℕ) × (read_uint buf off n ≡ some v)
unfolding read_uint
read_uint-within buf off n h =
    let (bs, e) = read_bytes-within buf off n h in (le_value bs, ground (arith, e))
