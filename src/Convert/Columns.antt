-- ===== src/Convert/Columns.antt =====
-- Which column or row of the source each one that is drawn is read from: `xDstToSrc` and `yDstToSrc`
-- of VCamUtils/src/videoconverter.cpp.
use native.Mathlib.Nat.{div-eq_of_lt-le, div-le_of_le-mul, add-mul-div_right}
use akvirtualcamera.Base.{
  ℕ, ◌+◌, ◌-◌, ◌*◌, ◌/◌, ◌^◌, ◌≤◌, ◌<◌, ◌≡◌, max, arith, refl, ap, ◌∙◌, subst,
}
use akvirtualcamera.Base.Int.{ℤ, pos, ◌-ℤ◌, div_ℤ, ◌≤ℤ◌, ◌<ℤ◌, int32, int32-pos}
use akvirtualcamera.Number.Rect.{Rect}
use akvirtualcamera.Convert.Geometry.{Geometry}
use akvirtualcamera.Convert.Scaling.{int_add, int_sub, int_mul}
use akvirtualcamera.Convert.Fits.{IsFitted}
use akvirtualcamera.Convert.Exact.{side_limit, IsSide, SizeIsSmall, int_mul-pos, int_add-pos}
use akvirtualcamera.Convert.Tables.{Axis, columns, rows, in_steps, out_steps, dst_to_src, src_at}

-- The steps of the source at the steps `j` of the drawing.
abbrev pub steps_at : Axis → ℕ → ℕ
steps_at a j = j * in_steps a / out_steps a

pub quotient_after : (p q d : ℕ) → 1 ≤ d → (p + q * d) / d ≡ q + p / d
quotient_after p q d one = add-mul-div_right p q one ∙ (omega arith)

pub difference : (l j : ℕ) → pos (l + j) -ℤ pos l ≡ pos j
unfolding ◌-ℤ◌
difference l j = ground arith

pub divided : (p d : ℕ) → div_ℤ (pos p) (pos d) ≡ pos (p / d)
unfolding div_ℤ
divided p d = refl

-- An axis whose source and whose drawing end at 32767 at most.
abbrev pub AxisIsSmall : Axis → Type 0
AxisIsSmall a = (a.first + a.extent ≤ side_limit) × (a.start + a.drawn ≤ side_limit)

pub int_difference : (l j : ℕ) → IsSide j → int_sub (pos (l + j)) (pos l) ≡ pos j
int_difference l j h = ap int32 (difference l j) ∙ int32-pos j (omega arith)

-- The sum of two products of sides is an int.
pub int_sum :
    (a b c d : ℕ)
    → IsSide a
    → IsSide b
    → IsSide c
    → IsSide d
    → int_add (int_mul (pos a) (pos b)) (int_mul (pos c) (pos d)) ≡ pos (a * b + c * d)
int_sum a b c d p q r s =
    let one = product_most a b p q in
    let two = product_most c d r s in
    rw (int_mul-pos a b p q, int_mul-pos c d r s) (int_add-pos (a * b) (c * d) (omega arith))
  where
    product_most : (m n : ℕ) → IsSide m → IsSide n → m * n < 2 ^ 30
    product_most m n h k = grind arith

pub src_at-steps :
    (a : Axis) (j : ℕ)
    → AxisIsSmall a
    → j ≤ a.drawn
    → src_at a (a.start + j) ≡ pos (a.first + steps_at a j)
unfolding src_at dst_to_src
src_at-steps a j (p, q) less =
    rw
      (
        int_difference a.start j (omega arith),
        int_sum j (in_steps a) a.first (out_steps a) (omega arith) (omega arith) (omega arith)
            (omega arith),
        divided (j * in_steps a + a.first * out_steps a) (out_steps a),
      )
      (ap pos (quotient_after (j * in_steps a) a.first (out_steps a) (omega arith)))

pub steps_most : (j s d : ℕ) → 1 ≤ d → j ≤ d → j * s / d ≤ s
steps_most j s d one less = div-le_of_le-mul d (grind arith)

pub steps_mono : (i j s d : ℕ) → i ≤ j → i * s / d ≤ j * s / d
steps_mono i j s d less = grind arith

steps_all : (s d : ℕ) → 1 ≤ d → d * s / d ≡ s
steps_all s d one = div-eq_of_lt-le d (grind arith) (grind arith)

pub no_steps : (s d : ℕ) → 0 * s / d ≡ 0
no_steps s d = grind arith

steps_kept : (j s : ℕ) → 1 ≤ s → j * s / s ≡ j
steps_kept j s one = div-eq_of_lt-le s (grind arith) (grind arith)

-- A number from `low` on, below `high`.
abbrev pub IsWithin : ℕ → ℕ → ℤ → Type 0
IsWithin low high v = (pos low ≤ℤ v) × (v <ℤ pos high)

-- A part of a source of two columns or more, drawn from `start` on.
abbrev pub IsDrawn : Axis → ℕ → Type 0
IsDrawn a x = (a.start ≤ x) × (x < a.start + a.drawn)

steps-IsWithin :
    (a : Axis) (j : ℕ)
    → AxisIsSmall a
    → 2 ≤ a.extent
    → j < a.drawn
    → IsWithin a.first (a.first + a.extent) (src_at a (a.start + j))
steps-IsWithin a j small two less =
    let most = steps_most j (in_steps a) (out_steps a) (omega arith) (omega arith) in
    rw (src_at-steps a j small (omega arith)) (omega arith, omega arith)

pub src_at-IsWithin :
    (a : Axis) (x : ℕ)
    → AxisIsSmall a
    → 2 ≤ a.extent
    → IsDrawn a x
    → IsWithin a.first (a.first + a.extent) (src_at a x)
src_at-IsWithin a x small two (from, to) =
    let same : a.start + (x - a.start) ≡ x = omega arith in
    subst (λ (v : ℕ). IsWithin a.first (a.first + a.extent) (src_at a v)) same
      (steps-IsWithin a (x - a.start) small two (omega arith))

pub columns-AxisIsSmall :
    (w h : ℕ) (g : Geometry)
    → IsSide w
    → IsFitted w h g
    → SizeIsSmall g.frame
    → AxisIsSmall (columns w g)
unfolding columns
columns-AxisIsSmall w h g side fitted (p, q) =
    let (reads, _) = fitted.reads in (omega arith, omega (arith, fitted.across, fitted.right))

pub rows-AxisIsSmall :
    (w h : ℕ) (g : Geometry)
    → IsSide h
    → IsFitted w h g
    → SizeIsSmall g.frame
    → AxisIsSmall (rows h g)
unfolding rows
rows-AxisIsSmall w h g side fitted (p, q) =
    let (_, reads) = fitted.reads in (omega arith, omega (arith, fitted.down, fitted.bottom))

-- Of an axis whose source and whose drawing end at 32767 at most: the first column or row that is drawn
-- is the first of the source. Where two or more are drawn the
-- last is the last of the source, or lies one past it where the source has only one; and they go on in
-- order.
pub src_at-ends :
    (a : Axis) (i j : ℕ)
    → 2 ≤ a.drawn
    → 1 ≤ a.extent
    → i ≤ j
    → AxisIsSmall a
    → j ≤ a.drawn
    → (src_at a a.start ≡ pos a.first)
      × (src_at a (a.start + (a.drawn - 1)) ≡ pos (a.first + max 1 (a.extent - 1)))
      × (src_at a (a.start + i) ≤ℤ src_at a (a.start + j))
src_at-ends a i j two one less small end =
    let start_same : a.start ≡ a.start + 0 = omega arith in
    let none = no_steps (in_steps a) (out_steps a) in
    let full : out_steps a ≡ a.drawn - 1 = omega arith in
    let all = steps_all (in_steps a) (a.drawn - 1) (omega arith) in
    let last : (a.drawn - 1) * in_steps a / out_steps a ≡ in_steps a =
      ap (λ (d : ℕ). (a.drawn - 1) * in_steps a / d) full ∙ all in
    let grows = steps_mono i j (in_steps a) (out_steps a) less in
    (
      ap (src_at a) start_same
          ∙ src_at-steps a 0 small (omega arith)
          ∙ ap pos (omega (arith, none)),
      src_at-steps a (a.drawn - 1) small (omega arith) ∙ ap pos (omega (arith, last)),
      rw (src_at-steps a i small (omega arith), src_at-steps a j small end) (omega (arith, grows)),
    )

-- Where as many are drawn as the source has, each is read from its own place.
pub src_at-same :
    (a : Axis) (j : ℕ)
    → a.drawn ≡ a.extent
    → AxisIsSmall a
    → j ≤ a.drawn
    → src_at a (a.start + j) ≡ pos (a.first + j)
src_at-same a j same small end =
    let steps : out_steps a ≡ in_steps a = omega arith in
    let kept : j * in_steps a / out_steps a ≡ j =
      ap (λ (d : ℕ). j * in_steps a / d) steps ∙ steps_kept j (in_steps a) (omega arith) in
    src_at-steps a j small end ∙ ap pos (omega (arith, kept))
