-- ===== src/Convert/Integral/Rows.antt =====
-- What the loops of `integralImage1` in VCamUtils/src/videoconverter.cpp leave in the table.
use akvirtualcamera.Base.{
  ℕ, zero, suc, ◌+◌, ◌*◌, ◌≤◌, ◌<◌, ◌≡◌, ◌≢◌, ◌⊎◌, inl, inr, arith, refl, ap, ◌∙◌, subst, sym,
}
use akvirtualcamera.Convert.Integral.{Cells, set_cell, integral_row, integral_rows}

-- The sum of the first `n` samples of a line, and that of the first `m` lines so far.
abbrev pub row_sum : (ℕ → ℕ) → ℕ → ℕ
row_sum value zero = 0
row_sum value (suc n) = row_sum value n + value n

abbrev pub area_sum : (ℕ → ℕ → ℕ) → ℕ → ℕ → ℕ
area_sum value n zero = 0
area_sum value n (suc m) = area_sum value n m + row_sum (value m) n

set_cell_other : (i v : ℕ) (cells : Cells) (j : ℕ) → j ≢ i → set_cell i v cells j ≡ cells j
set_cell_other i v cells j other = ground arith

differ : (i j : ℕ) → i < j → i ≢ j
differ i j less same = omega arith

set_cell_same : (i v : ℕ) (cells : Cells) → set_cell i v cells i ≡ v
set_cell_same i v cells = ground arith

-- The inner loop changes the cells of its line alone.
pub integral_row_other :
    (n x sum : ℕ) (value : ℕ → ℕ) (above below : ℕ) (cells : Cells) (i : ℕ)
    → (i < below + suc x) ⊎ (below + (x + n) < i)
    → integral_row n x sum value above below cells i ≡ cells i
unfolding integral_row
integral_row_other zero x sum value above below cells i h = refl
integral_row_other (suc n) x sum value above below cells i h =
    integral_row_other n (suc x) (sum + value x) value above below
      (set_cell (below + suc x) (sum + value x + cells (above + suc x)) cells) i (ground arith)
    ∙ set_cell_other (below + suc x) (sum + value x + cells (above + suc x)) cells i (ground arith)

this_or_later : (x c : ℕ) → x < c → (c ≡ suc x) ⊎ (suc x < c)
this_or_later x c less = ground arith

-- In its line it leaves the sums of the line, on top of those above.
pub integral_row_lem :
    (n x : ℕ) (value : ℕ → ℕ) (above below : ℕ) (cells : Cells) (c : ℕ)
    → x < c
    → c ≤ x + n
    → above + (x + n) < below + suc x
    → integral_row n x (row_sum value x) value above below cells (below + c)
      ≡ row_sum value c + cells (above + c)
unfolding integral_row
integral_row_lem zero x value above below cells c h k l = absurd (omega arith)
integral_row_lem (suc n) x value above below cells c h k l =
    let v = row_sum value (suc x) + cells (above + suc x) in
    let next = set_cell (below + suc x) v cells in
    elim (this_or_later x c h) [
      | inl same ↦
          subst
            (λ (d : ℕ).
              integral_row n (suc x) (row_sum value (suc x)) value above below next (below + d)
              ≡ row_sum value d + cells (above + d))
            (sym same)
            (integral_row_other n (suc x) (row_sum value (suc x)) value above below next
                (below + suc x) (inl (omega arith))
              ∙ set_cell_same (below + suc x) v cells)
      | inr later ↦
          integral_row_lem n (suc x) value above below next c later (omega arith) (omega arith)
          ∙ ap (λ (w : ℕ). row_sum value c + w)
              (set_cell_other (below + suc x) v cells (above + c)
                (differ (above + c) (below + suc x) (omega arith)))
    ]

-- Where a line of the table starts.
abbrev pub line_start : ℕ → ℕ → ℕ
line_start width y = y * (width + 1)

lines_apart : (width y m : ℕ) → y ≤ m → line_start width y ≤ line_start width m
lines_apart width y m less = grind arith

next_line : (width y : ℕ) → line_start width (suc y) ≡ line_start width y + (width + 1)
next_line width y = grind arith

line_or_before : (z y : ℕ) → z ≤ suc y → (z ≤ y) ⊎ (z ≡ suc y)
line_or_before z y up = ground arith

before_or_after : (z y : ℕ) → (z ≤ y) ⊎ (suc y ≤ z)
before_or_after z y = ground arith

-- A place of the first column is none that is written in a line.
column_outside :
    (width y z : ℕ)
    → (line_start width z < line_start width (suc y) + 1)
      ⊎ (line_start width (suc y) + (0 + width) < line_start width z)
column_outside width y z = elim (before_or_after z (suc y)) [
  | inl earlier ↦ inl (omega (arith, lines_apart width z (suc y) earlier))
  | inr later ↦
      inr (omega (arith, lines_apart width (suc (suc y)) z later, next_line width (suc y)))
]

-- The cells of the lines up to `m` hold the sums of what is left of and above them.
abbrev pub IsSummed : ℕ → (ℕ → ℕ → ℕ) → ℕ → Cells → Type 0
IsSummed width value m cells =
    (x y : ℕ) → 1 ≤ x → x ≤ width → y ≤ m → cells (line_start width y + x) ≡ area_sum value x y

module _ (width : ℕ) (value : ℕ → ℕ → ℕ) where
  -- A round of the outer loop.
  abbrev round : ℕ → Cells → Cells
  round y cells = integral_row width 0 0 (value y) (y * (width + 1)) (suc y * (width + 1)) cells

  round-IsSummed :
      (y : ℕ) (cells : Cells)
      → IsSummed width value y cells
      → IsSummed width value (suc y) (round y cells)
  round-IsSummed y cells before x z one most up = elim (line_or_before z y up) [
    | inl earlier ↦
        let apart = lines_apart width z y earlier in
        integral_row_other width 0 0 (value y) (y * (width + 1)) (suc y * (width + 1)) cells
          (line_start width z + x) (inl (omega (arith, apart, next_line width y)))
        ∙ before x z one most earlier
    | inr same ↦
        subst (λ (v : ℕ). round y cells (line_start width v + x) ≡ area_sum value x v) (sym same)
          (integral_row_lem width 0 (value y) (y * (width + 1)) (suc y * (width + 1)) cells x one
              (omega arith) (omega (arith, next_line width y))
            ∙ ap (λ (v : ℕ). row_sum (value y) x + v) (before x y one most (omega arith))
            ∙ omega arith)
  ]

  pub integral_rows-IsSummed :
      (n y : ℕ) (cells : Cells)
      → IsSummed width value y cells
      → IsSummed width value (y + n) (integral_rows n y width value cells)
  unfolding integral_rows
  integral_rows-IsSummed zero y cells before = λ x z one most up. before x z one most (omega arith)
  integral_rows-IsSummed (suc n) y cells before =
      let later =
        integral_rows-IsSummed n (suc y) (round y cells) (round-IsSummed y cells before) in
      λ x z one most up. later x z one most (omega arith)

  -- The first column stays as it was.
  pub integral_rows-column :
      (n y : ℕ) (cells : Cells) (z : ℕ)
      → integral_rows n y width value cells (line_start width z) ≡ cells (line_start width z)
  unfolding integral_rows
  integral_rows-column zero y cells z = refl
  integral_rows-column (suc n) y cells z =
      integral_rows-column n (suc y) (round y cells) z
      ∙ integral_row_other width 0 0 (value y) (y * (width + 1)) (suc y * (width + 1)) cells
          (line_start width z) (column_outside width y z)
