-- ===== src/Message/Wire.antt =====
-- What the decoders of VCamUtils/src/message.cpp have in common: a message begins with the size of
-- the device's name and the name.
use akvirtualcamera.Base.{
  ℕ, zero, suc, ◌+◌, ◌^◌, ◌≤◌, ◌<◌, ◌≡◌, refl, [], ◌∷◌, ◌++◌, Option, some, arith, Bytes, ltb,
  if◌then◌else◌, length,
}
use akvirtualcamera.Base.Buffer.{
  le_bytes, read_bytes, read_uint, length-le_bytes, read_bytes-middle, read_uint-middle,
  read_bytes-within,
}

-- The device is copied only if its size is not 0.
abbrev pub read_device : Bytes → ℕ → Option Bytes
read_device buf device_size = if ltb 0 device_size then read_bytes buf 8 device_size else some []

pub read_size :
    (device rest : Bytes)
    → length device + 16 < 2 ^ 64
    → read_uint (le_bytes 8 (length device) ++ (device ++ rest)) 0 8 ≡ some (length device)
read_size device rest fits = read_uint-middle [] _ (length device) 8 refl (omega arith)

pub read_device-middle :
    (device rest : Bytes)
    → read_device (le_bytes 8 (length device) ++ (device ++ rest)) (length device) ≡ some device
read_device-middle [] rest = refl
read_device-middle (b ∷ device) rest = ground (
  arith,
  read_bytes-middle (le_bytes 8 (length (b ∷ device))) (b ∷ device) rest {off = 8}
      {n = length (b ∷ device)} (omega (arith, length-le_bytes)) refl,
)

pub read_device-within :
    (buf : Bytes) (device_size : ℕ)
    → 8 + device_size ≤ length buf
    → (device : Bytes) × (read_device buf device_size ≡ some device)
read_device-within buf zero h = ([], refl)
read_device-within buf (suc n) h =
    let (device, e) = read_bytes-within buf 8 (suc n) h in (device, ground (arith, e))
