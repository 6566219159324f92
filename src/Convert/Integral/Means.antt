-- ===== src/Convert/Integral/Means.antt =====
-- `readDL1` of VCamUtils/src/videoconverter.cpp against the sum of the samples of its box.
use akvirtualcamera.Base.{
  ℕ, zero, suc, ◌+◌, ◌-◌, ◌*◌, ◌/◌, ◌≤◌, ◌≡◌, ◌⊎◌, inl, inr, arith, refl, ap, ◌∙◌, sym,
}
use akvirtualcamera.Convert.Integral.{
  Cells, allocate_image, integral_rows, integral_image1, sample, read_dl1,
}
use akvirtualcamera.Convert.Integral.Rows.{
  row_sum, area_sum, line_start, integral_rows-IsSummed, integral_rows-column,
}

-- The sum of `n` numbers from a place on.
abbrev span_sum : (ℕ → ℕ) → ℕ → ℕ → ℕ
span_sum f from zero = 0
span_sum f from (suc n) = span_sum f from n + f (from + n)

-- The sum of the samples of a box of `w` columns and `h` lines.
abbrev pub box_total : (ℕ → ℕ → ℕ) → ℕ → ℕ → ℕ → ℕ → ℕ
box_total value xs ys w h = span_sum (λ y. span_sum (value y) xs w) ys h

row_sum-split : (f : ℕ → ℕ) (a n : ℕ) → row_sum f (a + n) ≡ row_sum f a + span_sum f a n
row_sum-split f a zero =
    let none : a + 0 ≡ a = omega arith in let same = ap (row_sum f) none in omega (arith, same)
row_sum-split f a (suc n) =
    let next : a + suc n ≡ suc (a + n) = omega arith in
    ap (row_sum f) next ∙ omega (arith, row_sum-split f a n)

-- The four corners of a box.
corners :
    (value : ℕ → ℕ → ℕ) (xs ys w h : ℕ)
    → area_sum value (xs + w) (ys + h) + area_sum value xs ys
      ≡ area_sum value (xs + w) ys + area_sum value xs (ys + h) + box_total value xs ys w h
corners value xs ys w zero =
    let none : ys + 0 ≡ ys = omega arith in
    let one = ap (area_sum value (xs + w)) none in
    let two = ap (area_sum value xs) none in omega (arith, one, two)
corners value xs ys w (suc h) =
    let next : ys + suc h ≡ suc (ys + h) = omega arith in
    let one = ap (area_sum value (xs + w)) next in
    let two = ap (area_sum value xs) next in
    omega (arith, one, two, corners value xs ys w h, row_sum-split (value (ys + h)) xs w)

no_columns : (value : ℕ → ℕ → ℕ) (y : ℕ) → area_sum value 0 y ≡ 0
no_columns value zero = refl
no_columns value (suc y) = omega (arith, no_columns value y)

-- `memset` clears the first line of the table where the frame has seven lines or more.
first_line_clear :
    (width height : ℕ) (before : Cells) (x : ℕ)
    → 7 ≤ height
    → x ≤ width
    → allocate_image width height before x ≡ 0
unfolding allocate_image
first_line_clear width height before x seven less =
    let enough : 8 * (x + 1) ≤ (width + 1) * (height + 1) = grind arith in ground (arith, enough)

all_clear :
    (width height : ℕ) (before : Cells) (i : ℕ)
    → before i ≡ 0
    → allocate_image width height before i ≡ 0
unfolding allocate_image
all_clear width height before i nothing = ground arith

-- What the table holds after `integralImage1`, cell by cell.
image_at :
    (width height : ℕ) (value : ℕ → ℕ → ℕ) (before : Cells) (x y : ℕ)
    → 7 ≤ height
    → (1 ≤ x) ⊎ ((i : ℕ) → before i ≡ 0)
    → x ≤ width
    → y ≤ height
    → integral_rows height 0 width value (allocate_image width height before) (y * (width + 1) + x)
      ≡ area_sum value x y
image_at width height value before (suc x) y seven known less most =
    integral_rows-IsSummed width value height 0 (allocate_image width height before) start_summed
      (suc x) y (omega arith) less (omega arith)
  where
    start_summed :
        (c z : ℕ)
        → 1 ≤ c
        → c ≤ width
        → z ≤ 0
        → allocate_image width height before (line_start width z + c) ≡ area_sum value c z
    start_summed c zero one up start =
        let first : line_start width 0 + c ≡ c = omega arith in
        ap (allocate_image width height before) first
        ∙ first_line_clear width height before c seven up
    start_summed c (suc z) one up start = absurd (omega arith)
image_at width height value before zero y seven (inl one) less most = absurd (omega arith)
image_at width height value before zero y seven (inr clear) less most =
    let cells = allocate_image width height before in
    let start : y * (width + 1) + 0 ≡ line_start width y = omega arith in
    ap (integral_rows height 0 width value cells) start
    ∙ integral_rows-column width value height 0 cells y
    ∙ all_clear width height before (line_start width y) (clear (line_start width y))
    ∙ sym (no_columns value y)

-- In a table for a frame of seven lines or more, for a box that does not start at the first column, or
-- where the new table held zeros: `readDL1` gives the sum of the samples of the box, divided by `k`.
pub read_dl1_lem :
    (width height shift most : ℕ) (word : ℕ → ℕ → ℕ) (before : Cells) (xs ys w h k : ℕ)
    → 7 ≤ height
    → (1 ≤ xs) ⊎ ((i : ℕ) → before i ≡ 0)
    → xs + w ≤ width
    → ys + h ≤ height
    → read_dl1 width
        (integral_image1 width height shift most word (allocate_image width height before))
        xs
        ys
        (xs + w)
        (ys + h)
        k
      ≡ box_total (λ y x. sample shift most (word y x)) xs ys w h / k
unfolding read_dl1 integral_image1
read_dl1_lem width height shift most word before xs ys w h k seven known across down =
    let value = λ (y x : ℕ). sample shift most (word y x) in
    let cells = integral_rows height 0 width value (allocate_image width height before) in
    let at = λ (x y : ℕ). cells (y * (width + 1) + x) in
    let one = image_at width height value before xs ys seven known (omega arith) (omega arith) in
    let two =
      image_at width height value before (xs + w) (ys + h) seven (wider w known) across down in
    let three =
      image_at width height value before (xs + w) ys seven (wider w known) across (omega arith) in
    let four = image_at width height value before xs (ys + h) seven known (omega arith) down in
    let total : at xs ys + at (xs + w) (ys + h) - at (xs + w) ys - at xs (ys + h)
        ≡ box_total value xs ys w h =
      omega (arith, one, two, three, four, corners value xs ys w h) in
    ap (λ (v : ℕ). v / k) total
  where
    wider : {P : Type 0} {x : ℕ} (n : ℕ) → (1 ≤ x) ⊎ P → (1 ≤ x + n) ⊎ P
    wider n (inl one) = inl (omega arith)
    wider n (inr rest) = inr rest
