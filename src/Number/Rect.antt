-- ===== src/Number/Rect.antt =====
-- VCamUtils/src/rect.cpp: the state of a Rect and its operations. Sums and differences of ints wrap
-- around.
use akvirtualcamera.Base.{
  ◌^◌, ◌<◌, refl, Bool, true, false, ◌&&◌, ◌||◌, if◌then◌else◌, ◌↔◌, ◌≡◌, arith,
}
use akvirtualcamera.Base.Int.{
  ℤ, pos, ◌+ℤ◌, ◌-ℤ◌, ltb_ℤ, leb_ℤ, eqb_ℤ, ◌≤ℤ◌, ◌<ℤ◌, +ℤ_parts, -ℤ_parts, -ℤ_size, int32,
  int32-kept, magnitude,
}

pub record Rect : Type 0 where
  pub x : ℤ
  pub y : ℤ
  pub width : ℤ
  pub height : ℤ

abbrev pub rect : ℤ → ℤ → ℤ → ℤ → Rect
rect x y w h = record { x = x; y = y; width = w; height = h }

abbrev pub default_rect : Rect
default_rect = rect (pos 0) (pos 0) (pos 0) (pos 0)

unfoldable pub rect_eq : Rect → Rect → Bool
rect_eq a b = eqb_ℤ a.x b.x && eqb_ℤ a.y b.y && eqb_ℤ a.width b.width && eqb_ℤ a.height b.height

unfoldable pub rect_is_empty : Rect → Bool
rect_is_empty r = ltb_ℤ r.width (pos 1) || ltb_ℤ r.height (pos 1)

abbrev pub max_ℤ : ℤ → ℤ → ℤ
max_ℤ a b = if ltb_ℤ a b then b else a

abbrev pub min_ℤ : ℤ → ℤ → ℤ
min_ℤ a b = if ltb_ℤ b a then b else a

unfoldable pub intersected : Rect → Rect → Rect
intersected a b =
    let x = max_ℤ a.x b.x in
    let y = max_ℤ a.y b.y in
    let x_max = min_ℤ (int32 (a.x +ℤ a.width)) (int32 (b.x +ℤ b.width)) in
    let y_max = min_ℤ (int32 (a.y +ℤ a.height)) (int32 (b.y +ℤ b.height)) in
    let width = int32 (x_max -ℤ x) in
    let height = int32 (y_max -ℤ y) in
    if leb_ℤ width (pos 0) || leb_ℤ height (pos 0) then default_rect else rect x y width height

-- What it computes where nothing wraps around.
unfoldable pub common_rect : Rect → Rect → Rect
common_rect a b =
    let x = max_ℤ a.x b.x in
    let y = max_ℤ a.y b.y in
    let width = min_ℤ (a.x +ℤ a.width) (b.x +ℤ b.width) -ℤ x in
    let height = min_ℤ (a.y +ℤ a.height) (b.y +ℤ b.height) -ℤ y in
    if leb_ℤ width (pos 0) || leb_ℤ height (pos 0) then default_rect else rect x y width height

-- A rectangle that starts and ends less than 2 ^ 30 away from zero.
abbrev pub IsCorner : ℤ → Type 0
IsCorner v = magnitude v < 2 ^ 30

abbrev pub HasCorners : Rect → Type 0
HasCorners r =
    (IsCorner r.x × IsCorner (r.x +ℤ r.width)) × (IsCorner r.y × IsCorner (r.y +ℤ r.height))

corner_kept : (v : ℤ) → IsCorner v → int32 v ≡ v
corner_kept v h = int32-kept v (omega arith)

length_kept :
    (a to_a b to_b : ℤ)
    → IsCorner a × IsCorner to_a
    → IsCorner b × IsCorner to_b
    → int32 (min_ℤ to_a to_b -ℤ max_ℤ a b) ≡ min_ℤ to_a to_b -ℤ max_ℤ a b
length_kept a to_a b to_b h k =
    int32-kept (min_ℤ to_a to_b -ℤ max_ℤ a b)
      (ground (arith, -ℤ_size (min_ℤ to_a to_b) (max_ℤ a b)))

pub intersected-exact :
    (a b : Rect) → HasCorners a → HasCorners b → intersected a b ≡ common_rect a b
unfolding intersected common_rect
intersected-exact a b ((p, q), (r, s)) ((t, u), (v, w)) =
    rw
      (
        corner_kept (a.x +ℤ a.width) q,
        corner_kept (b.x +ℤ b.width) u,
        corner_kept (a.y +ℤ a.height) s,
        corner_kept (b.y +ℤ b.height) w,
        length_kept a.x (a.x +ℤ a.width) b.x (b.x +ℤ b.width) (p, q) (t, u),
        length_kept a.y (a.y +ℤ a.height) b.y (b.y +ℤ b.height) (r, s) (v, w),
      )
      refl

-- A point of a rectangle.
abbrev pub IsIn : ℤ → ℤ → Rect → Type 0
IsIn u v r = (r.x ≤ℤ u) × (u <ℤ r.x +ℤ r.width) × (r.y ≤ℤ v) × (v <ℤ r.y +ℤ r.height)

-- The length that two spans have in common.
abbrev common : ℤ → ℤ → ℤ → ℤ → ℤ
common a to_a b to_b = min_ℤ to_a to_b -ℤ max_ℤ a b

module _ (a to_a b to_b u : ℤ) where
  common_points :
      (a ≤ℤ u) × (u <ℤ to_a) × (b ≤ℤ u) × (u <ℤ to_b)
      → (leb_ℤ (common a to_a b to_b) (pos 0) ≡ false)
        × (max_ℤ a b ≤ℤ u)
        × (u <ℤ max_ℤ a b +ℤ common a to_a b to_b)
  common_points (p, q, r, s) =
      let length = -ℤ_parts (min_ℤ to_a to_b) (max_ℤ a b) in
      let end = +ℤ_parts (max_ℤ a b) (common a to_a b to_b) in
      (ground (arith, length), ground arith, ground (arith, length, end))

  points_of_both :
      (max_ℤ a b ≤ℤ u) × (u <ℤ max_ℤ a b +ℤ common a to_a b to_b)
      → (a ≤ℤ u) × (u <ℤ to_a) × (b ≤ℤ u) × (u <ℤ to_b)
  points_of_both (p, q) =
      let length = -ℤ_parts (min_ℤ to_a to_b) (max_ℤ a b) in
      let end = +ℤ_parts (max_ℤ a b) (common a to_a b to_b) in
      (ground arith, ground (arith, length, end), ground arith, ground (arith, length, end))

no_points : (u v : ℤ) → ¬ IsIn u v default_rect
unfolding ◌+ℤ◌
no_points u v (p, q, r, s) = omega arith

IsIn-chosen :
    (c d : Bool) (r : Rect) (u v : ℤ) → IsIn u v (if c || d then default_rect else r) → IsIn u v r
IsIn-chosen true d r u v h = absurd (no_points u v h)
IsIn-chosen false true r u v h = absurd (no_points u v h)
IsIn-chosen false false r u v h = h

chosen-IsIn :
    (c d : Bool) (r : Rect) (u v : ℤ)
    → c ≡ false
    → d ≡ false
    → IsIn u v r
    → IsIn u v (if c || d then default_rect else r)
chosen-IsIn true d r u v e f h = ground arith
chosen-IsIn false true r u v e f h = ground arith
chosen-IsIn false false r u v e f h = h

common_rect-IsIn : (a b : Rect) (u v : ℤ) → IsIn u v (common_rect a b) ↔ (IsIn u v a × IsIn u v b)
unfolding common_rect
common_rect-IsIn a b u v =
    let to_ax = a.x +ℤ a.width in
    let to_bx = b.x +ℤ b.width in
    let to_ay = a.y +ℤ a.height in
    let to_by = b.y +ℤ b.height in
    let width = common a.x to_ax b.x to_bx in
    let height = common a.y to_ay b.y to_by in
    let c = leb_ℤ width (pos 0) in
    let d = leb_ℤ height (pos 0) in
    let r = rect (max_ℤ a.x b.x) (max_ℤ a.y b.y) width height in
    (
      λ inside.
          let (p, q, s, t) = IsIn-chosen c d r u v inside in
          let (i, j, k, l) = points_of_both a.x to_ax b.x to_bx u (p, q) in
          let (e, f, g, h) = points_of_both a.y to_ay b.y to_by v (s, t) in
          ((i, j, e, f), (k, l, g, h)),
      λ both.
          let ((i, j, e, f), (k, l, g, h)) = both in
          let (wide, p, q) = common_points a.x to_ax b.x to_bx u (i, j, k, l) in
          let (high, s, t) = common_points a.y to_ay b.y to_by v (e, f, g, h) in
          chosen-IsIn c d r u v wide high (p, q, s, t),
    )

-- The points of the intersection are those that both rectangles have, where the rectangles start and
-- end less than 2 ^ 30 away from zero, so that no sum leaves the range of an int.
pub intersected-IsIn :
    (a b : Rect) (u v : ℤ)
    → HasCorners a
    → HasCorners b
    → IsIn u v (intersected a b) ↔ (IsIn u v a × IsIn u v b)
intersected-IsIn a b u v h k = rw (intersected-exact a b h k) (common_rect-IsIn a b u v)
