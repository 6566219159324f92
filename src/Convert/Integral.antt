-- ===== src/Convert/Integral.antt =====
-- The integral image of VCamUtils/src/videoconverter.cpp, from which the pixels of a frame that is
-- scaled down are read: `allocateDlBuffers`, `integralImage1` and `readDL1`. The sums are doubles, which
-- hold integers below 2 ^ 53 exactly; they are taken as numbers.
pub mod Rows
pub mod Means
use Prim.Native.Nat.{bit_and}
use akvirtualcamera.Base.{ℕ, zero, suc, ◌+◌, ◌-◌, ◌*◌, ◌/◌, ◌^◌, ◌==◌, leb, if◌then◌else◌}

-- What a table holds at each place.
abbrev pub Cells : Type 0
Cells = ℕ → ℕ

abbrev pub set_cell : ℕ → ℕ → Cells → Cells
set_cell i v cells j = if j == i then v else cells j

-- `new` leaves what was there, and `memset` clears as many bytes as the table has cells of 8 bytes.
unfoldable pub allocate_image : ℕ → ℕ → Cells → Cells
allocate_image width height before i =
    if leb (8 * (i + 1)) ((width + 1) * (height + 1)) then 0 else before i

-- `(xi >> fc.xiShift) & fc.maxXi`.
unfoldable pub sample : ℕ → ℕ → ℕ → ℕ
sample shift most word = bit_and (word / 2 ^ shift) most

-- The inner loop, with `n` columns left: the samples of a line, and where the line above and the one that
-- is written start.
unfoldable pub integral_row : ℕ → ℕ → ℕ → (ℕ → ℕ) → ℕ → ℕ → Cells → Cells
integral_row zero x sum value above below cells = cells
integral_row (suc n) x sum value above below cells =
    let total = sum + value x in
    integral_row n (suc x) total value above below
      (set_cell (below + suc x) (total + cells (above + suc x)) cells)

-- The outer loop, with `n` lines left; `value y x` is a sample of the source.
unfoldable pub integral_rows : ℕ → ℕ → ℕ → (ℕ → ℕ → ℕ) → Cells → Cells
unfolding integral_row
integral_rows zero y width value cells = cells
integral_rows (suc n) y width value cells =
    integral_rows n (suc y) width value
      (integral_row width 0 0 (value y) (y * (width + 1)) (suc y * (width + 1)) cells)

-- `word y x` is the word at a place of the plane, in the byte order of the machine.
unfoldable pub integral_image1 : ℕ → ℕ → ℕ → ℕ → (ℕ → ℕ → ℕ) → Cells → Cells
unfolding integral_rows
integral_image1 width height shift most word cells =
    integral_rows height 0 width (λ y x. sample shift most (word y x)) cells

-- A pixel: the sum over the columns from `xs` to `xs_1` and the lines from `ys` to `ys_1`, and the mean.
unfoldable pub read_dl1 : ℕ → Cells → ℕ → ℕ → ℕ → ℕ → ℕ → ℕ
read_dl1 width cells xs ys xs_1 ys_1 k =
    let line = ys * (width + 1) in
    let line_1 = ys_1 * (width + 1) in
    (cells (line + xs) + cells (line_1 + xs_1) - cells (line + xs_1) - cells (line_1 + xs)) / k
