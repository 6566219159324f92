-- ===== src/Color/Matrix.antt =====
-- The functions of VCamUtils/src/colorconvert.cpp that fill the matrices. The bits are those of
-- colour components; a shift by `shift - 1` is of a shift from 1 on.
use akvirtualcamera.Base.{ℕ, ◌-◌, ◌^◌, max}
use akvirtualcamera.Base.Int.{ℤ, pos, ◌-ℤ◌, ◌+ℤ◌, ◌*ℤ◌, div_ℤ, neg_ℤ, sub_ℕ, magnitude, int64}
use akvirtualcamera.Color.{
  YuvColorSpace, YuvColorSpaceType, full_swing, Limits, limits, Row, row, alpha_row, ColorConvert,
}
use akvirtualcamera.Color.Rounding.{rb_constants, div, rounded_div}
use akvirtualcamera.Color.Swing.{max_of, limits_y, limits_uv, span, ends}

abbrev max_bits : ℕ → ℕ → ℕ → ℕ
max_bits a b c = max a (max b c)

-- `1L << shift` and `1L << (shift - 1)`.
abbrev pub one_shifted : ℕ → ℤ
one_shifted shift = pos (2 ^ shift)

abbrev pub half_shifted : ℕ → ℤ
half_shifted shift = pos (2 ^ (shift - 1))

abbrev pub top : ℕ → ℤ
top bits = pos (max_of bits)

abbrev pub zero_to : ℕ → Limits
zero_to bits = limits (pos 0) (top bits)

-- `roundedDiv` of two values that are products of int64_t.
abbrev pub div64 : ℤ → ℤ → ℤ
div64 num den = rounded_div (int64 num) (int64 den)

-- The offset of a channel that starts at a value, and of one around the middle of its range.
unfoldable pub at_least : ℕ → ℤ → ℤ
at_least shift low = int64 (half_shifted shift +ℤ one_shifted shift *ℤ low)

unfoldable pub at_middle : ℕ → Limits → ℤ
at_middle shift l =
    int64 (half_shifted shift +ℤ div_ℤ (int64 (one_shifted shift *ℤ ends l)) (pos 2))

unfoldable pub load_abc2xyz_matrix : ℕ → ℕ → ℕ → ℕ → ℕ → ℕ → ColorConvert → ColorConvert
load_abc2xyz_matrix abits bbits cbits xbits ybits zbits m =
    let shift = max_bits abits bbits cbits in
    let rounding = pos (2 ^ magnitude (sub_ℕ shift 1)) in
    let k = λ (from to : ℕ). div64 (one_shifted shift *ℤ top to) (top from) in
    record m {
      m0 = row (k abits xbits) (pos 0) (pos 0) rounding;
      m1 = row (pos 0) (k bbits ybits) (pos 0) rounding;
      m2 = row (pos 0) (pos 0) (k cbits zbits) rounding;
      lx = zero_to xbits;
      ly = zero_to ybits;
      lz = zero_to zbits;
      color_shift = shift;
    }

-- The factors of red, green and blue in Y, which `kyr` and `kyb` give.
unfoldable pub luma_row : YuvColorSpace → ℕ → ℕ → ℕ → ℕ → Limits → Row
luma_row space shift rbits gbits bbits l =
    let (kyr, kyb) = rb_constants space in
    let kyg = pos div -ℤ pos kyr -ℤ pos kyb in
    let k = λ (factor : ℤ) (bits : ℕ).
      div64 (one_shifted shift *ℤ span l *ℤ factor) (pos div *ℤ top bits) in
    row (k (pos kyr) rbits) (k kyg gbits) (k (pos kyb) bbits) (at_least shift l.low)

unfoldable pub load_rgb2yuv_matrix :
    YuvColorSpace → YuvColorSpaceType → ℕ → ℕ → ℕ → ℕ → ℕ → ℕ → ColorConvert → ColorConvert
load_rgb2yuv_matrix space swing rbits gbits bbits ybits ubits vbits m =
    let (kyr, kyb) = rb_constants space in
    let kyg = pos div -ℤ pos kyr -ℤ pos kyb in
    let kub = pos div -ℤ pos kyb in
    let kvr = pos div -ℤ pos kyr in
    let shift = max_bits rbits gbits bbits in
    let y = limits_y ybits swing in
    let u = limits_uv ubits swing in
    let v = limits_uv vbits swing in
    let k = λ (l : Limits) (factor : ℤ) (bits : ℕ) (own : ℤ).
      div64 (one_shifted shift *ℤ span l *ℤ factor) (pos 2 *ℤ top bits *ℤ own) in
    let own = λ (l : Limits) (bits : ℕ). div64 (one_shifted shift *ℤ span l) (pos 2 *ℤ top bits) in
    record m {
      m0 = luma_row space shift rbits gbits bbits y;
      m1 =
          row (k u (neg_ℤ (pos kyr)) rbits kub) (k u (neg_ℤ kyg) gbits kub) (own u bbits)
            (at_middle shift u);
      m2 =
          row (own v rbits) (k v (neg_ℤ kyg) gbits kvr) (k v (neg_ℤ (pos kyb)) bbits kvr)
            (at_middle shift v);
      lx = y;
      ly = u;
      lz = v;
      color_shift = shift;
    }

unfoldable pub load_yuv2rgb_matrix :
    YuvColorSpace → YuvColorSpaceType → ℕ → ℕ → ℕ → ℕ → ℕ → ℕ → ColorConvert → ColorConvert
load_yuv2rgb_matrix space swing ybits ubits vbits rbits gbits bbits m =
    let (r, b) = rb_constants space in
    let kyr = pos r in
    let kyb = pos b in
    let kyg = pos div -ℤ kyr -ℤ kyb in
    let y = limits_y ybits swing in
    let u = limits_uv ubits swing in
    let v = limits_uv vbits swing in
    let shift = max_bits ybits ubits vbits in
    let rounding = half_shifted shift in
    let luma = λ (bits : ℕ). div64 (one_shifted shift *ℤ top bits) (span y) in
    let twice = λ (bits : ℕ). pos 2 *ℤ one_shifted shift *ℤ top bits in
    let kry = luma rbits in
    let krv = div64 (twice rbits *ℤ (pos div -ℤ kyr)) (pos div *ℤ span v) in
    let kgy = luma gbits in
    let kgu = div64 (twice gbits *ℤ kyb *ℤ (kyb -ℤ pos div)) (pos div *ℤ kyg *ℤ span u) in
    let kgv = div64 (twice gbits *ℤ kyr *ℤ (kyr -ℤ pos div)) (pos div *ℤ kyg *ℤ span v) in
    let kby = luma bbits in
    let kbu = div64 (twice bbits *ℤ (pos div -ℤ kyb)) (pos div *ℤ span u) in
    let green = div_ℤ (int64 (kgu *ℤ ends u +ℤ kgv *ℤ ends v)) (pos 2) in
    record m {
      m0 =
          row kry (pos 0) krv
            (int64 (rounding -ℤ kry *ℤ y.low -ℤ div_ℤ (int64 (krv *ℤ ends v)) (pos 2)));
      m1 = row kgy kgu kgv (int64 (rounding -ℤ kgy *ℤ y.low -ℤ green));
      m2 =
          row kby kbu (pos 0)
            (int64 (rounding -ℤ kby *ℤ y.low -ℤ div_ℤ (int64 (kbu *ℤ ends u)) (pos 2)));
      lx = zero_to rbits;
      ly = zero_to gbits;
      lz = zero_to bbits;
      color_shift = shift;
    }

unfoldable pub load_rgb2gray_matrix : YuvColorSpace → ℕ → ℕ → ℕ → ℕ → ColorConvert → ColorConvert
load_rgb2gray_matrix space rbits gbits bbits graybits m =
    let shift = max_bits rbits gbits bbits in
    let y = limits_y graybits full_swing in
    let uv = limits_uv graybits full_swing in
    record m {
      m0 = luma_row space shift rbits gbits bbits y;
      m1 = row (pos 0) (pos 0) (pos 0) (at_middle shift uv);
      m2 = row (pos 0) (pos 0) (pos 0) (at_middle shift uv);
      lx = y;
      ly = uv;
      lz = uv;
      color_shift = shift;
    }

unfoldable pub load_gray2rgb_matrix : ℕ → ℕ → ℕ → ℕ → ColorConvert → ColorConvert
load_gray2rgb_matrix shift rbits gbits bbits m =
    let k = λ (bits : ℕ). div64 (one_shifted shift *ℤ top bits) (top shift) in
    record m {
      m0 = row (k rbits) (pos 0) (pos 0) (half_shifted shift);
      m1 = row (k gbits) (pos 0) (pos 0) (half_shifted shift);
      m2 = row (k bbits) (pos 0) (pos 0) (half_shifted shift);
      lx = zero_to rbits;
      ly = zero_to gbits;
      lz = zero_to bbits;
      color_shift = shift;
    }

-- The bits of U and V are not used.
unfoldable pub load_yuv2gray_matrix : YuvColorSpaceType → ℕ → ℕ → ColorConvert → ColorConvert
load_yuv2gray_matrix swing shift graybits m =
    let y = limits_y shift swing in
    let uv = limits_uv graybits full_swing in
    let ciy = half_shifted shift -ℤ div64 (one_shifted shift *ℤ y.low *ℤ top graybits) (span y) in
    record m {
      m0 = row (div64 (one_shifted shift *ℤ top graybits) (span y)) (pos 0) (pos 0) ciy;
      m1 = row (pos 0) (pos 0) (pos 0) (at_middle shift uv);
      m2 = row (pos 0) (pos 0) (pos 0) (at_middle shift uv);
      lx = zero_to graybits;
      ly = zero_to graybits;
      lz = zero_to graybits;
      color_shift = shift;
    }

unfoldable pub load_gray2yuv_matrix :
    YuvColorSpaceType → ℕ → ℕ → ℕ → ℕ → ColorConvert → ColorConvert
load_gray2yuv_matrix swing shift ybits ubits vbits m =
    let y = limits_y ybits swing in
    let u = limits_uv ubits swing in
    let v = limits_uv vbits swing in
    record m {
      m0 =
          row (div64 (one_shifted shift *ℤ span y) (top shift)) (pos 0) (pos 0)
            (at_least shift y.low);
      m1 = row (pos 0) (pos 0) (pos 0) (at_middle shift u);
      m2 = row (pos 0) (pos 0) (pos 0) (at_middle shift v);
      lx = y;
      ly = u;
      lz = v;
      color_shift = shift;
    }

unfoldable pub load_alpha_rgb_matrix : ℕ → ColorConvert → ColorConvert
load_alpha_rgb_matrix shift m =
    let k = rounded_div (one_shifted shift) (top shift) in
    record m {
      alpha_shift = shift;
      a0 = alpha_row k (pos 0) (half_shifted shift);
      a1 = alpha_row k (pos 0) (half_shifted shift);
      a2 = alpha_row k (pos 0) (half_shifted shift);
    }

unfoldable pub load_alpha_yuv_matrix :
    YuvColorSpaceType → ℕ → ℕ → ℕ → ℕ → ColorConvert → ColorConvert
load_alpha_yuv_matrix swing shift ybits ubits vbits m =
    let k = div_ℤ (one_shifted shift) (top shift) in
    let y = limits_y ybits swing in
    let u = limits_uv ubits swing in
    let v = limits_uv vbits swing in
    let middle = λ (l : Limits). neg_ℤ (div64 (one_shifted shift *ℤ ends l) (pos 2 *ℤ top shift)) in
    record m {
      alpha_shift = shift;
      a0 =
          alpha_row k (neg_ℤ (div64 (one_shifted shift *ℤ y.low) (top shift)))
            (at_least shift y.low);
      a1 = alpha_row k (middle u) (at_middle shift u);
      a2 = alpha_row k (middle v) (at_middle shift v);
    }

-- `k` is made of `alphaShift` itself.
unfoldable pub load_alpha_gray_matrix : ℕ → ℕ → ColorConvert → ColorConvert
load_alpha_gray_matrix shift graybits m =
    let k = rounded_div (pos shift) (top shift) in
    let uv = limits_uv graybits full_swing in
    record m {
      alpha_shift = shift;
      a0 = alpha_row k (pos 0) (half_shifted shift);
      a1 = alpha_row (pos 0) (pos 0) (at_middle shift uv);
      a2 = alpha_row (pos 0) (pos 0) (at_middle shift uv);
    }
