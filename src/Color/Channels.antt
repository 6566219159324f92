-- ===== src/Color/Channels.antt =====
-- Channels that change only their bits: `loadAbc2xyzMatrix` and `loadGray2rgbMatrix` of
-- VCamUtils/src/colorconvert.cpp with `applyVector` and `applyPoint`, which do not clamp.
use akvirtualcamera.Base.{ℕ, ◌-◌, ◌^◌, ◌≤◌, ◌≡◌, arith, refl, max, ap, ◌∙◌}
use akvirtualcamera.Base.Int.{pos, sub_ℕ, magnitude}
use akvirtualcamera.Color.{abc2xyz, gray2rgb, ColorConvert, Triple, apply_vector, apply_point}
use akvirtualcamera.Color.Swing.{max_of}
use akvirtualcamera.Color.Matrix.{load_abc2xyz_matrix, load_gray2rgb_matrix}
use akvirtualcamera.Color.Load.{Bits, load_color_matrix}
use akvirtualcamera.Color.Within.{TripleFits}
use akvirtualcamera.Color.Depth.{scale, scale_max, scale_zero, scale_at_most, scale_same, channel}

abbrev pub HasOne : Bits → Type 0
HasOne b = (1 ≤ b.first) × (1 ≤ b.second) × (1 ≤ b.third)

-- Bits for which no product leaves 64 bits.
abbrev pub HasFew : Bits → Type 0
HasFew b = (b.first ≤ 30) × (b.second ≤ 30) × (b.third ≤ 30)

abbrev pub values : ℕ → ℕ → ℕ → Triple
values p q r = (pos p, pos q, pos r)

abbrev widest : Bits → ℕ
widest i = max i.first (max i.second i.third)

rounding_same : (shift : ℕ) → 1 ≤ shift → 2 ^ magnitude (sub_ℕ shift 1) ≡ 2 ^ (shift - 1)
rounding_same shift one =
    let same : magnitude (sub_ℕ shift 1) ≡ shift - 1 = ground arith in ap (λ (n : ℕ). 2 ^ n) same

pub vector_scaled :
    (i o : Bits) (m : ColorConvert) (p q r : ℕ)
    → HasOne i
    → HasFew i
    → HasFew o
    → p ≤ max_of i.first
    → q ≤ max_of i.second
    → r ≤ max_of i.third
    → apply_vector (load_color_matrix abc2xyz i o m) (pos p) (pos q) (pos r)
      ≡ values
          (scale i.first o.first (widest i) p)
          (scale i.second o.second (widest i) q)
          (scale i.third o.third (widest i) r)
unfolding apply_vector load_color_matrix load_abc2xyz_matrix
vector_scaled i o m p q r (a, b, c) (d, e, f) (g, h, k) x y z =
    rw
      (
        rounding_same (widest i) (omega arith),
        channel i.first o.first (widest i) a (omega arith) (omega arith) g p x,
        channel i.second o.second (widest i) b (omega arith) (omega arith) h q y,
        channel i.third o.third (widest i) c (omega arith) (omega arith) k r z,
      )
      refl

point_scaled :
    (i o : Bits) (m : ColorConvert) (p : ℕ)
    → (1 ≤ i.first) × (i.first ≤ 30)
    → HasFew o
    → p ≤ max_of i.first
    → let n = i.first in
      apply_point (load_color_matrix gray2rgb i o m) (pos p)
      ≡ values (scale n o.first n p) (scale n o.second n p) (scale n o.third n p)
unfolding apply_point load_color_matrix load_gray2rgb_matrix
point_scaled i o m p (a, small) (d, e, f) most =
    rw
      (
        channel i.first o.first i.first a (omega arith) small d p most,
        channel i.first o.second i.first a (omega arith) small e p most,
        channel i.first o.third i.first a (omega arith) small f p most,
      )
      refl

pub triple : {p q r u v w : ℕ} → p ≡ u → q ≡ v → r ≡ w → values p q r ≡ values u v w
triple {u} {v} {w} e f g = rw (e, f, g) refl

-- For formats of the same kind, with channels of 1 to 30 bits in the input and of 30 bits at most in the
-- output: a pixel whose channels are values of
-- their bits becomes one whose channels are values of the output's bits, although `applyVector` does
-- not clamp; black stays black, and the greatest values become the greatest.
pub apply_vector_lem :
    (i o : Bits) (m : ColorConvert) (p q r : ℕ)
    → HasOne i
    → HasFew i
    → HasFew o
    → p ≤ max_of i.first
    → q ≤ max_of i.second
    → r ≤ max_of i.third
    → let loaded = load_color_matrix abc2xyz i o m in
      TripleFits o (apply_vector loaded (pos p) (pos q) (pos r))
      × (apply_vector loaded (pos 0) (pos 0) (pos 0) ≡ values 0 0 0)
      × (apply_vector loaded (pos (max_of i.first)) (pos (max_of i.second)) (pos (max_of i.third))
          ≡ values (max_of o.first) (max_of o.second) (max_of o.third))
apply_vector_lem i o m p q r (a, b, c) few_in few_out x y z =
    let s = widest i in
    (
      rw (vector_scaled i o m p q r (a, b, c) few_in few_out x y z) (
        (omega arith, omega (arith, scale_at_most i.first o.first s a (omega arith) p x)),
        (omega arith, omega (arith, scale_at_most i.second o.second s b (omega arith) q y)),
        (omega arith, omega (arith, scale_at_most i.third o.third s c (omega arith) r z)),
      ),
      vector_scaled i o m 0 0 0 (a, b, c) few_in few_out (omega arith) (omega arith) (omega arith)
          ∙ triple (scale_zero i.first o.first s a (omega arith))
              (scale_zero i.second o.second s b (omega arith))
              (scale_zero i.third o.third s c (omega arith)),
      vector_scaled i o m (max_of i.first) (max_of i.second) (max_of i.third) (a, b, c) few_in
            few_out (omega arith) (omega arith) (omega arith)
          ∙ triple (scale_max i.first o.first s a (omega arith))
              (scale_max i.second o.second s b (omega arith))
              (scale_max i.third o.third s c (omega arith)),
    )

-- Between formats whose channels have the same bits, 30 at most, every pixel of those bits stays as it is.
pub apply_vector-same :
    (i : Bits) (m : ColorConvert) (p q r : ℕ)
    → HasOne i
    → HasFew i
    → p ≤ max_of i.first
    → q ≤ max_of i.second
    → r ≤ max_of i.third
    → apply_vector (load_color_matrix abc2xyz i i m) (pos p) (pos q) (pos r) ≡ values p q r
apply_vector-same i m p q r (a, b, c) few x y z =
    let s = widest i in
    vector_scaled i i m p q r (a, b, c) few few x y z
    ∙ triple (scale_same i.first i.first s a (omega arith) p refl)
        (scale_same i.second i.second s b (omega arith) q refl)
        (scale_same i.third i.third s c (omega arith) r refl)

-- With 30 bits at most on both sides: a grey value gives each channel of red, green and blue a value of its bits; 0 gives black, and the
-- greatest value white.
pub apply_point_lem :
    (i o : Bits) (m : ColorConvert) (p : ℕ)
    → HasOne i
    → i.first ≤ 30
    → HasFew o
    → p ≤ max_of i.first
    → let loaded = load_color_matrix gray2rgb i o m in
      TripleFits o (apply_point loaded (pos p))
      × (apply_point loaded (pos 0) ≡ values 0 0 0)
      × (apply_point loaded (pos (max_of i.first))
          ≡ values (max_of o.first) (max_of o.second) (max_of o.third))
apply_point_lem i o m p (a, b, c) few few_out x =
    let n = i.first in
    (
      rw (point_scaled i o m p (a, few) few_out x) (
        (omega arith, omega (arith, scale_at_most n o.first n a (omega arith) p x)),
        (omega arith, omega (arith, scale_at_most n o.second n a (omega arith) p x)),
        (omega arith, omega (arith, scale_at_most n o.third n a (omega arith) p x)),
      ),
      point_scaled i o m 0 (a, few) few_out (omega arith)
          ∙ triple (scale_zero n o.first n a (omega arith))
              (scale_zero n o.second n a (omega arith)) (scale_zero n o.third n a (omega arith)),
      point_scaled i o m (max_of n) (a, few) few_out (omega arith)
          ∙ triple (scale_max n o.first n a (omega arith)) (scale_max n o.second n a (omega arith))
              (scale_max n o.third n a (omega arith)),
    )
