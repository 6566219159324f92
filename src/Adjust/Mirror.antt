-- ===== src/Adjust/Mirror.antt =====
-- What `adjustMirror` of VCamUtils/src/videoadjusts.cpp makes of a line and of a frame.
use akvirtualcamera.Base.{
  ℕ, zero, suc, ◌+◌, ◌-◌, ◌*◌, ◌/◌, ◌≤◌, ◌<◌, ◌≡◌, ◌≢◌, ◌⊎◌, inl, inr, arith, refl, ap, ◌∙◌, sym,
  true,
}
use akvirtualcamera.Adjust.{Pixel, Image, Adjusts, swapped, mirror_loop, mirrored, adjust_mirror}

module _ {ℓ} {A : Type ℓ} where
  swapped-first : (i j : ℕ) (f : ℕ → A) → swapped i j f i ≡ f j
  swapped-first i j f = ground arith

  swapped-second : (i j : ℕ) (f : ℕ → A) → i ≢ j → swapped i j f j ≡ f i
  swapped-second i j f other = ground arith

  swapped-other : (i j : ℕ) (f : ℕ → A) (k : ℕ) → k ≢ i → k ≢ j → swapped i j f k ≡ f k
  swapped-other i j f k one two = ground arith

-- A place that the rounds from `x` on change, and one that they leave.
abbrev Inside : ℕ → ℕ → ℕ → ℕ → Type 0
Inside n x w k = ((x ≤ k) × (k < x + n)) ⊎ ((w ≤ k + x + n) × (k + x < w))

abbrev Outside : ℕ → ℕ → ℕ → ℕ → Type 0
Outside n x w k = (k < x) ⊎ (w ≤ k + x) ⊎ ((x + n ≤ k) × (k + x + n < w))

-- The first round changes two places, or the others do.
abbrev Placed : ℕ → ℕ → ℕ → ℕ → Type 0
Placed n x w k = (k ≡ x) ⊎ (k ≡ w - x - 1) ⊎ Inside n (suc x) w k

placed : (n x w k : ℕ) → 2 * (x + suc n) ≤ w → Inside (suc n) x w k → Placed n x w k
placed n x w k small h = ground arith

-- A place is in one of the two halves, or in the middle of a line of odd length.
half_or_middle :
    (w k : ℕ) → k < w → Inside (w / 2) 0 w k ⊎ (Outside (w / 2) 0 w k × (w - k - 1 ≡ k))
half_or_middle w k less = ground arith

differ : (i j : ℕ) → (i < j) ⊎ (j < i) → i ≢ j
differ i j (inl less) same = omega arith
differ i j (inr more) same = omega arith

module _ {ℓ} {A : Type ℓ} where
  mirror_loop-Outside :
      (n x w : ℕ) (f : ℕ → A) (k : ℕ)
      → 2 * (x + n) ≤ w
      → Outside n x w k
      → mirror_loop n x w f k ≡ f k
  unfolding mirror_loop
  mirror_loop-Outside zero x w f k small h = refl
  mirror_loop-Outside (suc n) x w f k small h =
      mirror_loop-Outside n (suc x) w (swapped x (w - x - 1) f) k (omega arith) (ground arith)
      ∙ swapped-other x (w - x - 1) f k (differ k x (ground arith))
          (differ k (w - x - 1) (ground arith))

  mirror_loop-Inside :
      (n x w : ℕ) (f : ℕ → A) (k : ℕ)
      → 2 * (x + n) ≤ w
      → Inside n x w k
      → mirror_loop n x w f k ≡ f (w - k - 1)
  unfolding mirror_loop
  mirror_loop-Inside zero x w f k small h = absurd (ground arith)
  mirror_loop-Inside (suc n) x w f k small h =
      let g = swapped x (w - x - 1) f in
      elim (placed n x w k small h) [
        | inl first ↦
            mirror_loop-Outside n (suc x) w g k (omega arith) (ground arith)
            ∙ ap g first
            ∙ swapped-first x (w - x - 1) f
            ∙ ap (λ (i : ℕ). f (w - i - 1)) (sym first)
        | inr (inl last) ↦
            let back : x ≡ w - k - 1 = omega arith in
            mirror_loop-Outside n (suc x) w g k (omega arith) (ground arith)
            ∙ ap g last
            ∙ swapped-second x (w - x - 1) f (differ x (w - x - 1) (inl (omega arith)))
            ∙ ap f back
        | inr (inr later) ↦
            mirror_loop-Inside n (suc x) w g k (omega arith) later
            ∙ swapped-other x (w - x - 1) f (w - k - 1) (differ (w - k - 1) x (ground arith))
                (differ (w - k - 1) (w - x - 1) (ground arith))
      ]

  mirrored-reverse : (w : ℕ) (f : ℕ → A) (k : ℕ) → k < w → mirrored w f k ≡ f (w - k - 1)
  unfolding mirrored
  mirrored-reverse w f k less = elim (half_or_middle w k less) [
    | inl inside ↦ mirror_loop-Inside (w / 2) 0 w f k (omega arith) inside
    | inr (outside, middle) ↦
        mirror_loop-Outside (w / 2) 0 w f k (omega arith) outside ∙ ap f (sym middle)
  ]

-- With both mirrors each pixel of the frame comes from the place opposite to it.
pub adjust_mirror-both :
    (a : Adjusts) (v : Image) (x y : ℕ)
    → a.horizontal_mirror ≡ true
    → a.vertical_mirror ≡ true
    → x < v.width
    → y < v.height
    → (adjust_mirror a v).at y x ≡ v.at (v.height - y - 1) (v.width - x - 1)
unfolding adjust_mirror
adjust_mirror-both a v x y h k p q =
    rw (h, k)
      (ap (λ (f : ℕ → Pixel). f x) (mirrored-reverse v.height (λ z. mirrored v.width (v.at z)) y q)
        ∙ mirrored-reverse v.width (v.at (v.height - y - 1)) x p)
