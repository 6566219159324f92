-- ===== src/Color.antt =====
-- VCamUtils/src/colorconvert.h: the enumerations, the state of a ColorConvert, and the inline
-- functions that apply it. The matrices are filled in Color/Load.antt; the numbers are int64_t. A value
-- that is summed up of products wraps around once, which comes to what wrapping each step does.
use akvirtualcamera.Base.{ℕ, ◌*◌, ◌/◌, ◌+◌, ◌-◌, ◌^◌, if◌then◌else◌}
use akvirtualcamera.Base.Int.{ℤ, pos, negsuc, ◌+ℤ◌, ◌*ℤ◌, ltb_ℤ, ◌≤ℤ◌, int64}
pub mod Rounding
pub mod Swing
pub mod Matrix
pub mod Load
pub mod Nearest
pub mod Ordered
pub mod Within
pub mod Depth
pub mod Channels
pub mod Alpha
pub mod RoundTrip

pub data YuvColorSpace : Type 0 where
  color_avg itur_bt601 itur_bt709 itur_bt2020 smpte_240m : YuvColorSpace

pub data YuvColorSpaceType : Type 0 where
  studio_swing full_swing : YuvColorSpaceType

pub data ColorMatrix : Type 0 where
  abc2xyz rgb2yuv yuv2rgb rgb2gray gray2rgb yuv2gray gray2yuv : ColorMatrix

-- The least and the greatest value of a channel.
pub record Limits : Type 0 where
  pub low : ℤ
  pub high : ℤ

-- A row of the colour matrix, its offset behind its three factors.
pub record Row : Type 0 where
  pub k0 : ℤ
  pub k1 : ℤ
  pub k2 : ℤ
  pub offset : ℤ

-- A row of the alpha matrix.
pub record AlphaRow : Type 0 where
  pub factor : ℤ
  pub inner : ℤ
  pub outer : ℤ

-- The rows m0*, m1*, m2* and a0*, a1*, a2*, the limits xmin to zmax, and the shifts.
pub record ColorConvert : Type 0 where
  pub space : YuvColorSpace
  pub swing : YuvColorSpaceType
  pub m0 : Row
  pub m1 : Row
  pub m2 : Row
  pub a0 : AlphaRow
  pub a1 : AlphaRow
  pub a2 : AlphaRow
  pub lx : Limits
  pub ly : Limits
  pub lz : Limits
  pub color_shift : ℕ
  pub alpha_shift : ℕ

abbrev pub row : ℤ → ℤ → ℤ → ℤ → Row
row a b c d = record { k0 = a; k1 = b; k2 = c; offset = d }

abbrev pub alpha_row : ℤ → ℤ → ℤ → AlphaRow
alpha_row a b c = record { factor = a; inner = b; outer = c }

abbrev pub limits : ℤ → ℤ → Limits
limits a b = record { low = a; high = b }

abbrev zero_row : Row
zero_row = row (pos 0) (pos 0) (pos 0) (pos 0)

abbrev zero_alpha : AlphaRow
zero_alpha = alpha_row (pos 0) (pos 0) (pos 0)

abbrev zero_limits : Limits
zero_limits = limits (pos 0) (pos 0)

unfoldable pub color_convert : YuvColorSpace → YuvColorSpaceType → ColorConvert
color_convert space swing = record {
  space = space;
  swing = swing;
  m0 = zero_row;
  m1 = zero_row;
  m2 = zero_row;
  a0 = zero_alpha;
  a1 = zero_alpha;
  a2 = zero_alpha;
  lx = zero_limits;
  ly = zero_limits;
  lz = zero_limits;
  color_shift = 0;
  alpha_shift = 0;
}

-- `>>` on a signed number, towards minus infinity.
unfoldable pub shift_right : ℤ → ℕ → ℤ
shift_right (pos a) s = pos (a / 2 ^ s)
shift_right (negsuc a) s = negsuc (a / 2 ^ s)

-- The template `bound` of utils.h.
unfoldable pub bound : ℤ → ℤ → ℤ → ℤ
bound least value most =
    if ltb_ℤ value least then least else if ltb_ℤ most value then most else value

abbrev pub bound_in : Limits → ℤ → ℤ
bound_in l v = bound l.low v l.high

unfoldable pub row_of_three : Row → ℤ → ℤ → ℤ → ℤ
row_of_three r a b c = int64 (a *ℤ r.k0 +ℤ b *ℤ r.k1 +ℤ c *ℤ r.k2 +ℤ r.offset)

unfoldable pub row_of_one : ℤ → ℤ → ℤ → ℤ
row_of_one k offset p = int64 (p *ℤ k +ℤ offset)

abbrev pub Triple : Type 0
Triple = ℤ × ℤ × ℤ

unfoldable pub apply_matrix : ColorConvert → ℤ → ℤ → ℤ → Triple
apply_matrix m a b c = (
  bound_in m.lx (shift_right (row_of_three m.m0 a b c) m.color_shift),
  bound_in m.ly (shift_right (row_of_three m.m1 a b c) m.color_shift),
  bound_in m.lz (shift_right (row_of_three m.m2 a b c) m.color_shift),
)

unfoldable pub apply_vector : ColorConvert → ℤ → ℤ → ℤ → Triple
apply_vector m a b c = (
  shift_right (row_of_one m.m0.k0 m.m0.offset a) m.color_shift,
  shift_right (row_of_one m.m1.k1 m.m1.offset b) m.color_shift,
  shift_right (row_of_one m.m2.k2 m.m2.offset c) m.color_shift,
)

-- The three overloads of `applyPoint`: one channel to three, three to one, one to one.
unfoldable pub apply_point : ColorConvert → ℤ → Triple
apply_point m p = (
  shift_right (row_of_one m.m0.k0 m.m0.offset p) m.color_shift,
  shift_right (row_of_one m.m1.k0 m.m1.offset p) m.color_shift,
  shift_right (row_of_one m.m2.k0 m.m2.offset p) m.color_shift,
)

unfoldable pub apply_point_3to1 : ColorConvert → ℤ → ℤ → ℤ → ℤ
apply_point_3to1 m a b c = bound_in m.lx (shift_right (row_of_three m.m0 a b c) m.color_shift)

unfoldable pub apply_point_1to1 : ColorConvert → ℤ → ℤ
apply_point_1to1 m p = shift_right (row_of_one m.m0.k0 m.m0.offset p) m.color_shift

unfoldable pub alpha_value : AlphaRow → ℕ → ℤ → ℤ → ℤ
alpha_value r shift x a = shift_right (int64 (a *ℤ (x *ℤ r.factor +ℤ r.inner) +ℤ r.outer)) shift

unfoldable pub apply_alpha : ColorConvert → ℤ → ℤ → ℤ → ℤ → Triple
apply_alpha m x y z a = (
  bound_in m.lx (alpha_value m.a0 m.alpha_shift x a),
  bound_in m.ly (alpha_value m.a1 m.alpha_shift y a),
  bound_in m.lz (alpha_value m.a2 m.alpha_shift z a),
)

-- `applyAlpha` of a grey value takes the limits of the second channel.
unfoldable pub apply_alpha_point : ColorConvert → ℤ → ℤ → ℤ
apply_alpha_point m p a = bound_in m.ly (alpha_value m.a0 m.alpha_shift p a)
