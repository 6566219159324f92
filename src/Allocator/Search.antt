-- ===== src/Allocator/Search.antt =====
-- The search for a free sample in GetBuffer of windows/dshow/BaseFilter/src/memallocator.cpp, which goes
-- around the samples once.
use akvirtualcamera.Base.{
  ℕ, zero, suc, ◌+◌, ◌%◌, ◌<◌, ◌≤◌, ◌≡◌, ◌≢◌, ◌⊎◌, refl, ap, ◌∙◌, List, some, ltb, ◌==◌, length,
  arith, inl, inr, Bool-cases,
}
use akvirtualcamera.Allocator.{ref_at, find_free}
use native.Mathlib.Nat.{mod-eq_of_lt, mod_self}

module _ (samples : List ℕ) where
  abbrev next : ℕ → ℕ
  next p = (p + 1) % length samples

  next_cases :
      (p : ℕ)
      → p < length samples
      → ((p + 1 < length samples) × (next p ≡ p + 1)) ⊎ ((p + 1 ≡ length samples) × (next p ≡ 0))
  next_cases p inside = elim (Bool-cases (ltb (p + 1) (length samples))) [
    | inl e ↦
        (let less : p + 1 < length samples = ground (arith, e) in inl (less, mod-eq_of_lt less))
    | inr e ↦
        let last : p + 1 ≡ length samples = ground (arith, e) in
        inr (last, ap (λ n. n % length samples) last ∙ mod_self (length samples))
  ]

  -- An index is among the next `left` ones from a position on, around the end.
  abbrev Ahead : ℕ → ℕ → ℕ → Type 0
  Ahead left p j = ((p ≤ j) × (j < p + left)) ⊎ ((j < p) × (length samples + j < p + left))

  Ahead-next :
      (left p j : ℕ)
      → p < length samples
      → j < length samples
      → p ≢ j
      → Ahead (suc left) p j
      → Ahead left (next p) j
  Ahead-next left p j inside inside' differ h = elim (next_cases p inside) [
    | inl (less, e) ↦ elim h [
      | inl (low, high) ↦ inl (omega (arith, differ, e), omega (arith, e))
      | inr (low, high) ↦ inr (omega (arith, e), omega (arith, e))
    ]
    | inr (last, e) ↦ elim h [
      | inl (low, high) ↦ absurd (omega (arith, differ))
      | inr (low, high) ↦ inl (omega (arith, e), omega (arith, e, last))
    ]
  ]

  next_inside : (p : ℕ) → p < length samples → next p < length samples
  next_inside p inside = elim (next_cases p inside) [
    | inl (less, e) ↦ omega (arith, e)
    | inr (last, e) ↦ omega (arith, e)
  ]

  -- The first free sample from a position on, and a position in the pool.
  pub find_free-some :
      (left p j : ℕ)
      → p < length samples
      → j < length samples
      → ref_at j samples ≡ 1
      → Ahead left p j
      → (q : ℕ) × (i : ℕ) × (find_free left p samples ≡ (q, some i))
        × (q < length samples)
        × (i < length samples)
        × (ref_at i samples ≡ 1)
  unfolding find_free
  find_free-some zero p j inside inside' free (inl (low, high)) = absurd (omega arith)
  find_free-some zero p j inside inside' free (inr (low, high)) = absurd (omega arith)
  find_free-some (suc left) p j inside inside' free ahead =
      elim (Bool-cases (ref_at p samples == 1)) [
        | inl e ↦ (next p, p, rw e refl, next_inside p inside, inside, ground (arith, e))
        | inr e ↦
            let differ : p ≢ j =
              λ same. absurd (ground (arith, e, ap (λ i. ref_at i samples) same, free)) in
            let (q, i, run, low, high, found) =
              find_free-some left (next p) j (next_inside p inside) inside' free
                (Ahead-next left p j inside inside' differ ahead) in
            (q, i, rw e run, low, high, found)
      ]

  -- From any position all are ahead.
  pub all-Ahead : (p j : ℕ) → p < length samples → j < length samples → Ahead (length samples) p j
  all-Ahead p j inside inside' = elim (Bool-cases (ltb j p)) [
    | inl e ↦ (let less : j < p = ground (arith, e) in inr (less, omega (arith, less)))
    | inr e ↦ (let low : p ≤ j = ground (arith, e) in inl (low, omega (arith, low)))
  ]
