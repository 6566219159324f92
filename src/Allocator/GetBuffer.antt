-- ===== src/Allocator/GetBuffer.antt =====
-- What GetBuffer of windows/dshow/BaseFilter/src/memallocator.cpp does.
use akvirtualcamera.Base.{
  ℕ, ◌+◌, ◌≤◌, ◌≡◌, ◌⊎◌, refl, ap, ◌∙◌, Bool, true, false, not, ◌||◌, List, [], ◌∷◌, some,
  if◌then◌else◌, length, arith, inl, inr, Bool-cases, is_empty,
}
use akvirtualcamera.Allocator.{
  Pool, get_buffer, try_take, take_found, must_wait, find_free, gives, waits, timeout,
  not_committed, ref_at, set_ref,
}
use akvirtualcamera.Allocator.Lists.{count_held, count_held-length}
use akvirtualcamera.Allocator.Invariant.{IsValid, found_free, take_found-IsValid}

-- What GetBuffer does with a pool: it is refused where there are no samples, it waits where all are in
-- use, and otherwise it gives a sample that nobody else has.
abbrev pub Refused : Bool → Pool → Type 0
Refused no_wait s = (s.samples ≡ []) × (get_buffer no_wait s ≡ (s, not_committed))

abbrev pub Exhausted : Bool → Pool → Type 0
Exhausted no_wait s =
    (count_held s.samples ≡ length s.samples)
    × (get_buffer no_wait s ≡ (s, if no_wait then timeout else waits))

abbrev pub Given : Bool → Pool → Type 0
Given no_wait s =
    (t : Pool) × (i : ℕ) × (get_buffer no_wait s ≡ (t, gives i))
    × (ref_at i s.samples ≡ 1)
    × (t.samples ≡ set_ref i 2 s.samples)
    × IsValid t

let_in :
    (no_wait : Bool) (s : Pool)
    → IsValid s
    → s.commited ≡ true
    → is_empty s.samples ≡ false
    → get_buffer no_wait s ≡ try_take no_wait s
unfolding get_buffer
let_in no_wait s v e some_there =
    let open_pool : (not s.commited || (s.decommiting || is_empty s.samples)) ≡ false =
      ground (arith, e, v.at_rest, some_there) in
    ap (λ b. if b then (s, not_committed) else try_take no_wait s) open_pool

taken :
    (no_wait : Bool) (s : Pool)
    → IsValid s
    → must_wait s ≡ false
    → try_take no_wait s ≡ take_found s (find_free (length s.samples) s.position s.samples)
unfolding try_take
taken no_wait s v ready =
    let search = take_found s (find_free (length s.samples) s.position s.samples) in
    ap
      (λ b.
        if b
        then (s, if no_wait then timeout else waits)
        else (if s.decommiting then (s, not_committed) else search))
      ready
    ∙ ap (λ b. if b then (s, not_committed) else search) v.at_rest

given :
    (no_wait : Bool) (s : Pool) (q i : ℕ)
    → IsValid s
    → s.commited ≡ true
    → is_empty s.samples ≡ false
    → must_wait s ≡ false
    → find_free (length s.samples) s.position s.samples ≡ (q, some i)
    → get_buffer no_wait s ≡ ((take_found s (q, some i)).0, gives i)
unfolding take_found
given no_wait s q i v e some_there ready run =
    let_in no_wait s v e some_there ∙ taken no_wait s v ready ∙ ap (take_found s) run

samples_after :
    (s : Pool) (q i : ℕ)
    → ref_at i s.samples ≡ 1
    → (take_found s (q, some i)).0.samples ≡ set_ref i 2 s.samples
unfolding take_found
samples_after s q i free =
    let two : ref_at i s.samples + 1 ≡ 2 = omega (arith, free) in
    ap (λ r. set_ref i r s.samples) two

pub ready_Given :
    (no_wait : Bool) (s : Pool)
    → IsValid s
    → s.commited ≡ true
    → is_empty s.samples ≡ false
    → must_wait s ≡ false
    → Given no_wait s
ready_Given no_wait s v e some_there ready =
    let (q, i, run, low, high, free) = found_free s v ready in
    (
      (take_found s (q, some i)).0,
      i,
      given no_wait s q i v e some_there ready run,
      free,
      samples_after s q i free,
      take_found-IsValid s q i v e low free,
    )

empty_list : (samples : List ℕ) → is_empty samples ≡ true → samples ≡ []
empty_list [] e = refl
empty_list (r ∷ samples) e = absurd (ground (arith, e))

all_held : (s : Pool) → IsValid s → must_wait s ≡ true → count_held s.samples ≡ length s.samples
unfolding must_wait
all_held s v full =
    let many : length s.samples ≤ s.buffers_taken = ground (arith, full) in
    omega (arith, many, v.counted, count_held-length s.samples)

waiting :
    (no_wait : Bool) (s : Pool)
    → must_wait s ≡ true
    → try_take no_wait s ≡ (s, if no_wait then timeout else waits)
unfolding try_take
waiting no_wait s full =
    ap
      (λ b.
        if b
        then (s, if no_wait then timeout else waits)
        else (if s.decommiting
            then (s, not_committed)
            else take_found s (find_free (length s.samples) s.position s.samples)))
      full

-- Of a pool in any state that its calls lead to, GetBuffer is refused where it has no samples, waits (or
-- tells of it, if it must not) where all of its samples are in use, and otherwise gives a sample that
-- nobody else has, which is then in use; it never runs out of samples that it counts as free.
pub get_buffer_cases :
    (no_wait : Bool) (s : Pool)
    → IsValid s
    → Refused no_wait s ⊎ (Exhausted no_wait s ⊎ Given no_wait s)
unfolding get_buffer
get_buffer_cases no_wait s v = elim (Bool-cases (is_empty s.samples)) [
  | inl e ↦
      let closed : (not s.commited || (s.decommiting || is_empty s.samples)) ≡ true =
        ground (arith, e) in
      inl (
        empty_list s.samples e,
        ap (λ b. if b then (s, not_committed) else try_take no_wait s) closed,
      )
  | inr e ↦
      let commited : s.commited ≡ true = elim v.open_pool [
        | inl open_pool ↦ open_pool
        | inr none_there ↦ absurd (ground (arith, e, ap is_empty none_there))
      ] in
      elim (Bool-cases (must_wait s)) [
        | inl full ↦
            inr (inl (all_held s v full, let_in no_wait s v commited e ∙ waiting no_wait s full))
        | inr ready ↦ inr (inr (ready_Given no_wait s v commited e ready))
      ]
]
