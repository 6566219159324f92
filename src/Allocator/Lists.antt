-- ===== src/Allocator/Lists.antt =====
-- The samples of windows/dshow/BaseFilter/src/memallocator.cpp: how many are held, and the search for a
-- free one.
use akvirtualcamera.Base.{
  ℕ, zero, suc, ◌+◌, ◌<◌, ◌≤◌, ◌≡◌, refl, ap, List, [], ◌∷◌, ◌==◌, if◌then◌else◌, length, replicate,
  arith, inl, inr, Bool-cases,
}
use akvirtualcamera.Allocator.{ref_at, set_ref}

-- How many samples are held outside the pool.
abbrev pub count_held : List ℕ → ℕ
count_held [] = 0
count_held (r ∷ samples) = (if r == 1 then 0 else 1) + count_held samples

pub length-set_ref : (i r : ℕ) (samples : List ℕ) → length (set_ref i r samples) ≡ length samples
unfolding set_ref
length-set_ref i r [] = refl
length-set_ref zero r (old ∷ samples) = refl
length-set_ref (suc i) r (old ∷ samples) = ap suc (length-set_ref i r samples)

-- A sample that is put in use, and one that is given back.
pub count_held-take :
    (i : ℕ) (samples : List ℕ)
    → ref_at i samples ≡ 1
    → count_held (set_ref i 2 samples) ≡ count_held samples + 1
unfolding ref_at set_ref
count_held-take i [] e = absurd (omega (arith, e))
count_held-take zero (r ∷ samples) e = ground (arith, e)
count_held-take (suc i) (r ∷ samples) e = omega (arith, count_held-take i samples e)

pub count_held-give :
    (i : ℕ) (samples : List ℕ)
    → ref_at i samples ≡ 2
    → count_held (set_ref i 1 samples) + 1 ≡ count_held samples
unfolding ref_at set_ref
count_held-give i [] e = absurd (omega (arith, e))
count_held-give zero (r ∷ samples) e = ground (arith, e)
count_held-give (suc i) (r ∷ samples) e = omega (arith, count_held-give i samples e)

-- A sample that stays in use.
pub count_held-keep :
    (i r : ℕ) (samples : List ℕ)
    → 2 ≤ ref_at i samples
    → 2 ≤ r
    → count_held (set_ref i r samples) ≡ count_held samples
unfolding ref_at set_ref
count_held-keep i r [] h h' = absurd (omega (arith, h))
count_held-keep zero r (old ∷ samples) h h' = ground (arith, h)
count_held-keep (suc i) r (old ∷ samples) h h' =
    ap (λ n. (if old == 1 then 0 else 1) + n) (count_held-keep i r samples h h')

-- A sample with an index in the list.
pub ref_at-inside : (i : ℕ) (samples : List ℕ) → 0 < ref_at i samples → i < length samples
unfolding ref_at
ref_at-inside i [] h = absurd (omega (arith, h))
ref_at-inside zero (r ∷ samples) h = omega arith
ref_at-inside (suc i) (r ∷ samples) h = omega (arith, ref_at-inside i samples h)

pub count_held-replicate : (n : ℕ) → count_held (replicate n 1) ≡ 0
count_held-replicate zero = refl
count_held-replicate (suc n) = omega (arith, count_held-replicate n)

pub count_held-length : (samples : List ℕ) → count_held samples ≤ length samples
count_held-length [] = omega arith
count_held-length (r ∷ samples) = ground (arith, count_held-length samples)

-- Where not all are held, one is free.
pub free_one :
    (samples : List ℕ)
    → count_held samples < length samples
    → (j : ℕ) × (j < length samples) × (ref_at j samples ≡ 1)
unfolding ref_at
free_one [] h = absurd (omega arith)
free_one (r ∷ samples) h = elim (Bool-cases (r == 1)) [
  | inl e ↦ (zero, omega arith, ground (arith, e))
  | inr e ↦
      let (j, inside, free) = free_one samples (ground (arith, e, h)) in
      (suc j, omega (arith, inside), free)
]
