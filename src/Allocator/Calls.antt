-- ===== src/Allocator/Calls.antt =====
-- The calls of windows/dshow/BaseFilter/src/memallocator.cpp, in any order.
use akvirtualcamera.Base.{
  ℕ, zero, suc, ◌+◌, ◌-◌, ◌<◌, ◌≤◌, ◌≡◌, ◌⊎◌, refl, sym, ap, ◌∙◌, subst, Bool, true, false, List,
  [], ◌==◌, if◌then◌else◌, length, replicate, length-replicate, arith, inl, inr,
}
use akvirtualcamera.Allocator.{
  Pool, Properties, new_pool, set_properties, commit, decommit, get_buffer, try_take, must_wait,
  waits, add_ref, release, release_buffer, ref_at, set_ref, rounds_to,
}
use akvirtualcamera.Allocator.Lists.{
  length-set_ref, count_held-give, count_held-keep, ref_at-inside, count_held-replicate,
  count_held-length,
}
use akvirtualcamera.Allocator.Invariant.{
  IsValid, IsLong, new_pool-IsValid, set_properties-IsValid, decommit-IsValid, if-IsValid,
}
use akvirtualcamera.Allocator.GetBuffer.{get_buffer_cases, Refused, Exhausted, Given}

-- A call of the allocator, or of a sample that it gave and that is still in use.
pub data Call : Pool → Pool → Type 0 where
  sets_properties : (r : Properties) (s : Pool) → IsLong r.c_buffers → Call s (set_properties r s).0
  commits : (s : Pool) → Call s (commit s).0
  decommits : (s : Pool) → Call s (decommit s)
  gets_buffer : (no_wait : Bool) (s : Pool) → Call s (get_buffer no_wait s).0
  adds_ref : (i : ℕ) (s : Pool) → 2 ≤ ref_at i s.samples → Call s (add_ref i s)
  releases : (i : ℕ) (s : Pool) → 2 ≤ ref_at i s.samples → Call s (release i s)

-- What the calls lead to from a new allocator.
pub data Reach : Pool → Type 0 where
  starts : Reach new_pool
  continues : (s t : Pool) → Reach s → Call s t → Reach t

abbrev unused : ℕ → List ℕ
unused n = replicate n 1

start_inside : (n : ℕ) → (unused n ≡ []) ⊎ (0 < length (unused n))
start_inside zero = inl refl
start_inside (suc n) = inr (omega arith)

-- The tests of Commit.
abbrev tested : Bool → Bool → Pool → Pool → Pool × Bool
tested b c s t = if b then (s, true) else (if c then (s, false) else (t, true))

tests-IsValid : (b c : Bool) (s t : Pool) → IsValid s → IsValid t → IsValid (tested b c s t).0
tests-IsValid true c s t h h' = h
tests-IsValid false true s t h h' = h
tests-IsValid false false s t h h' = h'

commit-IsValid : (s : Pool) → IsValid s → IsValid (commit s).0
unfolding commit
commit-IsValid s v =
    let n = rounds_to s.properties.c_buffers in
    tests-IsValid s.commited _ s _ v (record {
      counted = sym (count_held-replicate n);
      inside = start_inside n;
      open_pool = inl refl;
      at_rest = v.at_rest;
      few = omega (arith, length-replicate {A = ℕ} n 1, v.long);
      long = v.long;
    })

get_buffer-IsValid : (no_wait : Bool) (s : Pool) → IsValid s → IsValid (get_buffer no_wait s).0
get_buffer-IsValid no_wait s v = elim (get_buffer_cases no_wait s v) [
  | inl (none_there, e) ↦ subst IsValid (sym (ap (λ r. r.0) e)) v
  | inr (inl (full, e)) ↦ subst IsValid (sym (ap (λ r. r.0) e)) v
  | inr (inr (t, i, e, free, same, after)) ↦ subst IsValid (sym (ap (λ r. r.0) e)) after
]

-- A sample in use that stays so.
kept_in_use :
    (i r : ℕ) (s : Pool)
    → 2 ≤ ref_at i s.samples
    → 2 ≤ r
    → IsValid s
    → IsValid (record s { samples = set_ref i r s.samples })
kept_in_use i r s used more v =
    let size = length-set_ref i r s.samples in
    let inside_i = ref_at-inside i s.samples (omega (arith, used)) in
    record {
      counted = v.counted ∙ sym (count_held-keep i r s.samples used more);
      inside = elim v.inside [
        | inl none_there ↦ absurd (omega (arith, inside_i, ap length none_there))
        | inr low ↦ inr (omega (arith, low, size))
      ];
      open_pool = elim v.open_pool [
        | inl e ↦ inl e
        | inr none_there ↦ absurd (omega (arith, inside_i, ap length none_there))
      ];
      at_rest = v.at_rest;
      few = omega (arith, size, v.few);
      long = v.long;
    }

add_ref-IsValid : (i : ℕ) (s : Pool) → 2 ≤ ref_at i s.samples → IsValid s → IsValid (add_ref i s)
unfolding add_ref
add_ref-IsValid i s used v = kept_in_use i (ref_at i s.samples + 1) s used (omega (arith, used)) v

-- The last reference outside the pool.
given_back :
    (i : ℕ) (s : Pool)
    → ref_at i s.samples ≡ 2
    → IsValid s
    → IsValid (release_buffer (record s { samples = set_ref i 1 s.samples }))
unfolding release_buffer
given_back i s used v =
    let size = length-set_ref i 1 s.samples in
    let inside_i = ref_at-inside i s.samples (omega (arith, used)) in
    let one_less = count_held-give i s.samples used in
    let bound = count_held-length s.samples in
    record {
      counted = omega (arith, one_less, v.counted, bound, v.few);
      inside = elim v.inside [
        | inl none_there ↦ absurd (omega (arith, inside_i, ap length none_there))
        | inr low ↦ inr (omega (arith, low, size))
      ];
      open_pool = elim v.open_pool [
        | inl e ↦ inl e
        | inr none_there ↦ absurd (omega (arith, inside_i, ap length none_there))
      ];
      at_rest = v.at_rest;
      few = omega (arith, size, v.few);
      long = v.long;
    }

release-IsValid : (i : ℕ) (s : Pool) → 2 ≤ ref_at i s.samples → IsValid s → IsValid (release i s)
unfolding release
release-IsValid i s used v =
    let ref = ref_at i s.samples - 1 in
    if-IsValid (ref == 1) _ _
      (λ last.
        let one : ref_at i s.samples - 1 ≡ 1 = ground (arith, last) in
        subst (λ r. IsValid (release_buffer (record s { samples = set_ref i r s.samples })))
          (sym one) (given_back i s (omega (arith, one, used)) v))
      (λ more. kept_in_use i ref s used (ground (arith, used, more)) v)

Call-IsValid : (s t : Pool) → Call s t → IsValid s → IsValid t
Call-IsValid s t (sets_properties r _ h) v = set_properties-IsValid r s h v
Call-IsValid s t (commits _) v = commit-IsValid s v
Call-IsValid s t (decommits _) v = decommit-IsValid s v
Call-IsValid s t (gets_buffer no_wait _) v = get_buffer-IsValid no_wait s v
Call-IsValid s t (adds_ref i _ used) v = add_ref-IsValid i s used v
Call-IsValid s t (releases i _ used) v = release-IsValid i s used v

-- In whatever order a new allocator is called, and its samples are held and released by those who hold
-- them: its counter is the number of the samples in use, its position is that of a sample, it has samples
-- only between Commit and Decommit, and GetBuffer is refused where there are none, waits where all are in
-- use, and otherwise gives a sample that nobody else has.
pub Reach-IsValid :
    (s : Pool) (no_wait : Bool)
    → Reach s
    → IsValid s × (Refused no_wait s ⊎ (Exhausted no_wait s ⊎ Given no_wait s))
Reach-IsValid s no_wait r = (valid s r, get_buffer_cases no_wait s (valid s r))
  where
    valid : (t : Pool) → Reach t → IsValid t
    valid t starts = new_pool-IsValid
    valid t (continues u _ before step) = Call-IsValid u t step (valid u before)

-- A pool behind Decommit.
abbrev closed : Pool → Pool
closed s = record s {
  samples = [];
  position = 0;
  buffers_taken = 0;
  commited = false;
  decommiting = false;
}

-- Where GetBuffer waits for a sample while the allocator is decommitted, it is not refused: its loop waits
-- again.
pub decommit-waits :
    (s : Pool)
    → s.commited ≡ true
    → (must_wait (decommit s) ≡ true) × (try_take false (decommit s) ≡ (decommit s, waits))
unfolding decommit must_wait try_take
decommit-waits s e =
    let behind : closed s ≡ decommit s = sym (ap (λ b. if b then closed s else s) e) in
    subst (λ d. (must_wait d ≡ true) × (try_take false d ≡ (d, waits))) behind (refl, refl)
