-- ===== src/Allocator/Invariant.antt =====
-- What holds of the pool of windows/dshow/BaseFilter/src/memallocator.cpp in every order of its calls.
use akvirtualcamera.Base.{
  ℕ, ◌+◌, ◌^◌, ◌<◌, ◌≡◌, ◌⊎◌, refl, ap, ◌∙◌, Bool, true, false, [], some, if◌then◌else◌, length,
  arith, inl, inr, Bool-cases,
}
use akvirtualcamera.Base.Int.{ℤ, ltb_ℤ}
use akvirtualcamera.Allocator.{
  minimum_buffers, Pool, Properties, new_pool, set_properties, decommit, take_found, must_wait,
  find_free, ref_at, set_ref, rounds_to,
}
use akvirtualcamera.Allocator.Lists.{
  count_held, length-set_ref, count_held-take, free_one, count_held-length,
}
use akvirtualcamera.Allocator.Search.{find_free-some, all-Ahead}

-- An int of the properties.
abbrev pub IsLong : ℤ → Type 0
IsLong n = rounds_to n < 2 ^ 31

-- The counter is that of the samples in use, the position is one of the pool, and samples are there
-- exactly between Commit and Decommit; their number is that of an int.
pub record IsValid (s : Pool) : Type 0 where
  pub counted : s.buffers_taken ≡ count_held s.samples
  pub inside : (s.samples ≡ []) ⊎ (s.position < length s.samples)
  pub open_pool : (s.commited ≡ true) ⊎ (s.samples ≡ [])
  pub at_rest : s.decommiting ≡ false
  pub few : length s.samples < 2 ^ 31
  pub long : IsLong s.properties.c_buffers

pub new_pool-IsValid : IsValid new_pool
new_pool-IsValid = record {
  counted = refl;
  inside = inl refl;
  open_pool = inr refl;
  at_rest = refl;
  few = omega arith;
  long = omega arith;
}

actual-IsLong : (n : ℤ) → IsLong n → IsLong (if ltb_ℤ n minimum_buffers then minimum_buffers else n)
actual-IsLong n h = elim (Bool-cases (ltb_ℤ n minimum_buffers)) [
  | inl e ↦ rw e (omega arith)
  | inr e ↦ rw e h
]

pub set_properties-IsValid :
    (r : Properties) (s : Pool) → IsLong r.c_buffers → IsValid s → IsValid (set_properties r s).0
unfolding set_properties
set_properties-IsValid r s h v = record {
  counted = v.counted;
  inside = v.inside;
  open_pool = v.open_pool;
  at_rest = v.at_rest;
  few = v.few;
  long = actual-IsLong r.c_buffers h;
}

-- Of a test that a call makes.
pub if-IsValid :
    (b : Bool) (s t : Pool)
    → (b ≡ true → IsValid s)
    → (b ≡ false → IsValid t)
    → IsValid (if b then s else t)
if-IsValid true s t h h' = h refl
if-IsValid false s t h h' = h' refl

pub decommit-IsValid : (s : Pool) → IsValid s → IsValid (decommit s)
unfolding decommit
decommit-IsValid s v =
    if-IsValid s.commited _ s
      (λ e. record {
        counted = refl;
        inside = inl refl;
        open_pool = inr refl;
        at_rest = refl;
        few = omega arith;
        long = v.long;
      })
      (λ e. v)

-- A search among samples of which one is free.
pub found_free :
    (s : Pool)
    → IsValid s
    → must_wait s ≡ false
    → (q : ℕ) × (i : ℕ) × (find_free (length s.samples) s.position s.samples ≡ (q, some i))
      × (q < length s.samples)
      × (i < length s.samples)
      × (ref_at i s.samples ≡ 1)
unfolding must_wait
found_free s v ready =
    let some_free : count_held s.samples < length s.samples =
      ground (arith, v.counted, v.at_rest, ready) in
    let (j, inside_j, free) = free_one s.samples some_free in
    let inside : s.position < length s.samples = elim v.inside [
      | inl none_there ↦ absurd (omega (arith, ap length none_there))
      | inr inside ↦ inside
    ] in
    find_free-some s.samples (length s.samples) s.position j inside inside_j free
      (all-Ahead s.samples s.position j inside inside_j)

-- A sample that is free is put in use.
pub take_found-IsValid :
    (s : Pool) (q i : ℕ)
    → IsValid s
    → s.commited ≡ true
    → q < length s.samples
    → ref_at i s.samples ≡ 1
    → IsValid (take_found s (q, some i)).0
unfolding take_found
take_found-IsValid s q i v e low free =
    let two : ref_at i s.samples + 1 ≡ 2 = omega (arith, free) in
    let size = length-set_ref i (ref_at i s.samples + 1) s.samples in
    let held : count_held (set_ref i (ref_at i s.samples + 1) s.samples)
        ≡ count_held s.samples + 1 =
      ap (λ r. count_held (set_ref i r s.samples)) two ∙ count_held-take i s.samples free in
    let bound = count_held-length s.samples in
    record {
      counted = omega (arith, held, v.counted, bound, v.few);
      inside = inr (omega (arith, size));
      open_pool = inl e;
      at_rest = v.at_rest;
      few = omega (arith, size, v.few);
      long = v.long;
    }
