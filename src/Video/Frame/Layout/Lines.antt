-- ===== src/Video/Frame/Layout/Lines.antt =====
-- Every line of a plane lies inside the plane.
use akvirtualcamera.Base.{ℕ, ◌+◌, ◌*◌, ◌/◌, ◌%◌, ◌^◌, ◌≤◌, ◌<◌, ◌≡◌, arith, ap, ◌∙◌, ◌⊎◌, inl, inr}
use akvirtualcamera.Video.Spec.{ColorPlane}
use akvirtualcamera.Video.Format.{VideoFormat, line_size, plane_size}
use akvirtualcamera.Video.Frame.{plane_params, line_offset}
use akvirtualcamera.Video.Frame.Layout.{IsModest, plane_size-bounds, lines_bytes}

row-fits : (size : ℕ) (a b : ℕ) → a < b → a * size + size ≤ size * b
row-fits size a b h = grind arith

halve : (n k : ℕ) → n * (2 * k) / 2 ^ 1 ≡ n * k
halve n k = grind arith

module _ (v : VideoFormat) (h : IsModest v) (p : ColorPlane) (bits : p.bits_size ≤ 32) where
  whole_lines : p.height_div ≡ 0 → lines_bytes v h p bits ≡ line_size v p * v.height
  whole_lines e = ap (λ (d : ℕ). line_size v p * v.height / 2 ^ d) e ∙ omega arith

  half_lines :
      (k : ℕ) → p.height_div ≡ 1 → v.height ≡ 2 * k → lines_bytes v h p bits ≡ line_size v p * k
  half_lines k e even =
      ap (λ (d : ℕ). line_size v p * v.height / 2 ^ d) e
      ∙ ap (λ (n : ℕ). line_size v p * n / 2 ^ 1) even
      ∙ halve (line_size v p) k

  -- In a plane with a line for each line of the picture, the line of every `y` of the picture ends
  -- inside the plane.
  whole-fits :
      (y : ℕ) → p.height_div ≡ 0 → y < v.height → y * line_size v p + line_size v p ≤ plane_size v p
  whole-fits y e below = omega (
    arith,
    plane_size-bounds v h p bits,
    whole_lines e,
    row-fits (line_size v p) y v.height below,
  )

  half-fits :
      (y k : ℕ)
      → p.height_div ≡ 1
      → v.height ≡ 2 * k
      → y < v.height
      → y / 2 * line_size v p + line_size v p ≤ plane_size v p
  half-fits y k e even below = omega (
    arith,
    plane_size-bounds v h p bits,
    half_lines k e even,
    row-fits (line_size v p) (y / 2) k (omega arith),
  )

  -- The line of every `y` of the picture, as `line` finds it, lies between the offset of its plane
  -- and the end of the plane, for a camera of less than 65536 × 65536 pixels; where a plane has one
  -- line for two of the picture, for an even height.
  pub line_offset-bounds :
      (y offset : ℕ)
      → y < v.height
      → (p.height_div ≡ 0) ⊎ ((p.height_div ≡ 1) × (v.height % 2 ≡ 0))
      → (offset ≤ line_offset (plane_params v offset p) y)
        × (line_offset (plane_params v offset p) y + line_size v p ≤ offset + plane_size v p)
  unfolding line_offset
  line_offset-bounds y offset below (inl e) =
      let line : y / 2 ^ p.height_div * line_size v p ≡ y * line_size v p =
        ap (λ (d : ℕ). y / 2 ^ d * line_size v p) e
        ∙ ap (λ (n : ℕ). n * line_size v p) (omega arith) in
      omega (arith, line, whole-fits y e below)
  line_offset-bounds y offset below (inr (e, even)) =
      let line : y / 2 ^ p.height_div * line_size v p ≡ y / 2 * line_size v p =
        ap (λ (d : ℕ). y / 2 ^ d * line_size v p) e in
      omega (arith, line, half-fits y (v.height / 2) e (omega arith) below)
