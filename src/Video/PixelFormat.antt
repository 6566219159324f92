-- ===== src/Video/PixelFormat.antt =====
-- The codes of VCamUtils/src/videoformattypes.h, by the macros of VCamUtils/src/commons.h.
use Prim.Native.Nat.{bit_and, bit_or}
use akvirtualcamera.Base.{ℕ, ◌*◌, ◌^◌}

-- AKVCAM_MAKE_FOURCC_LE and AKVCAM_MAKE_FOURCC_BE on a little-endian machine; the arguments are
-- below 256, so the masks and the shifts lose nothing.
abbrev fourcc_le : ℕ → ℕ → ℕ → ℕ → ℕ
fourcc_le a b c d =
    bit_or (bit_or (bit_or (bit_and a 0xff) (bit_and b 0xff * 2 ^ 8)) (bit_and c 0xff * 2 ^ 16))
      (bit_and d 0xff * 2 ^ 24)

abbrev fourcc_be : ℕ → ℕ → ℕ → ℕ → ℕ
fourcc_be a b c d =
    bit_or
      (bit_or (bit_or (bit_and a 0xff * 2 ^ 24) (bit_and b 0xff * 2 ^ 16)) (bit_and c 0xff * 2 ^ 8))
      (bit_and d 0xff)

abbrev pub unset : ℕ
unset = fourcc_le 0 0 0 0

abbrev pub xrgb : ℕ
xrgb = fourcc_le b'X' b'R' b'G' b'B'

abbrev pub rgb24 : ℕ
rgb24 = fourcc_le b'R' b'G' b'B' 24

abbrev pub rgb555be : ℕ
rgb555be = fourcc_be b'R' b'G' 5 55

abbrev pub rgb555le : ℕ
rgb555le = fourcc_le b'R' b'G' 5 55

abbrev pub rgb565be : ℕ
rgb565be = fourcc_be b'R' b'G' 5 65

abbrev pub rgb565le : ℕ
rgb565le = fourcc_le b'R' b'G' 5 65

abbrev pub argb : ℕ
argb = fourcc_le b'A' b'R' b'G' b'B'

abbrev pub bgrx : ℕ
bgrx = fourcc_le b'B' b'G' b'R' b'X'

abbrev pub bgr24 : ℕ
bgr24 = fourcc_le b'B' b'G' b'R' 24

abbrev pub bgr555be : ℕ
bgr555be = fourcc_be b'B' b'G' 5 55

abbrev pub bgr555le : ℕ
bgr555le = fourcc_le b'B' b'G' 5 55

abbrev pub bgr565be : ℕ
bgr565be = fourcc_be b'B' b'G' 5 65

abbrev pub bgr565le : ℕ
bgr565le = fourcc_le b'B' b'G' 5 65

abbrev pub bgra : ℕ
bgra = fourcc_le b'B' b'G' b'R' b'A'

abbrev pub uyvy422 : ℕ
uyvy422 = fourcc_le b'U' b'Y' b'V' b'Y'

abbrev pub yuyv422 : ℕ
yuyv422 = fourcc_le b'Y' b'U' b'Y' 2

abbrev pub nv12 : ℕ
nv12 = fourcc_le b'N' b'V' 12 0

abbrev pub nv21 : ℕ
nv21 = fourcc_le b'N' b'V' 21 0
