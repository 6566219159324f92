-- ===== src/Allocator.antt =====
-- windows/dshow/BaseFilter/src/memallocator.cpp: the buffers of the DirectShow filter. A sample of the
-- pool is its count of references (mediasample.cpp), of which one is the pool's own.
pub mod Lists
pub mod Search
pub mod Invariant
pub mod GetBuffer
pub mod Calls
use akvirtualcamera.Base.{
  ℕ, zero, suc, ◌+◌, ◌-◌, ◌^◌, ◌%◌, Bool, true, false, not, ◌&&◌, ◌||◌, List, [], ◌∷◌, Option, none,
  some, ltb, leb, ◌==◌, if◌then◌else◌, length, replicate, is_empty,
}
use akvirtualcamera.Base.Int.{ℤ, pos, negsuc, ltb_ℤ, eqb_ℤ}
use akvirtualcamera.Number.Algorithm.{wrap64}

-- ALLOCATOR_PROPERTIES.
pub record Properties : Type 0 where
  pub c_buffers : ℤ
  pub cb_buffer : ℤ
  pub cb_align : ℤ
  pub cb_prefix : ℤ

pub record Pool : Type 0 where
  pub samples : List ℕ
  pub properties : Properties
  pub position : ℕ
  pub buffers_taken : ℕ
  pub commited : Bool
  pub decommiting : Bool

-- MemAllocator().
abbrev pub new_pool : Pool
new_pool = record {
  samples = [];
  properties = record { c_buffers = pos 0; cb_buffer = pos 0; cb_align = pos 0; cb_prefix = pos 0 };
  position = 0;
  buffers_taken = 0;
  commited = false;
  decommiting = false;
}

abbrev pub minimum_buffers : ℤ
minimum_buffers = pos 4

-- SetProperties, with what it gives back.
unfoldable pub set_properties : Properties → Pool → Pool × Properties
set_properties request s =
    let actual : Properties = record {
      c_buffers =
          if ltb_ℤ request.c_buffers minimum_buffers then minimum_buffers else request.c_buffers;
      cb_buffer = if ltb_ℤ request.cb_buffer (pos 1) then pos 1 else request.cb_buffer;
      cb_align = if eqb_ℤ request.cb_align (pos 0) then pos 1 else request.cb_align;
      cb_prefix = request.cb_prefix;
    } in
    (record s { properties = actual }, actual)

-- The rounds of a loop from 0 to an int.
abbrev pub rounds_to : ℤ → ℕ
rounds_to (pos n) = n
rounds_to (negsuc n) = 0

-- Commit; false is VFW_E_SIZENOTSET.
unfoldable pub commit : Pool → Pool × Bool
commit s =
    if s.commited
    then (s, true)
    else (if ltb_ℤ s.properties.c_buffers (pos 1) || ltb_ℤ s.properties.cb_buffer (pos 1)
        then (s, false)
        else (
          record s {
            samples = replicate (rounds_to s.properties.c_buffers) 1;
            position = 0;
            buffers_taken = 0;
            commited = true;
          },
          true,
        ))

-- Decommit: the samples that are held outside are left to those who hold them.
unfoldable pub decommit : Pool → Pool
decommit s =
    if s.commited
    then record s {
      samples = [];
      position = 0;
      buffers_taken = 0;
      commited = false;
      decommiting = false;
    }
    else s

-- What GetBuffer ends with: VFW_E_NOT_COMMITTED, VFW_E_TIMEOUT, the wait for a buffer, a sample by its
-- index in the pool, and VFW_E_BUFFER_UNDERFLOW.
pub data GetResult : Type 0 where
  not_committed : GetResult
  timeout : GetResult
  waits : GetResult
  gives : ℕ → GetResult
  underflow : GetResult

-- m_samples[i]->ref().
unfoldable pub ref_at : ℕ → List ℕ → ℕ
ref_at i [] = 0
ref_at zero (r ∷ samples) = r
ref_at (suc i) (r ∷ samples) = ref_at i samples

unfoldable pub set_ref : ℕ → ℕ → List ℕ → List ℕ
set_ref i r [] = []
set_ref zero r (old ∷ samples) = r ∷ samples
set_ref (suc i) r (old ∷ samples) = old ∷ set_ref i r samples

-- The loop of GetBuffer over the samples: the position behind it, and the index of a free sample.
unfoldable pub find_free : ℕ → ℕ → List ℕ → ℕ × Option ℕ
unfolding ref_at
find_free zero position samples = (position, none)
find_free (suc left) position samples =
    let next = (position + 1) % length samples in
    let rest = find_free left next samples in
    if ref_at position samples == 1 then (next, some position) else rest

-- The condition under which GetBuffer waits.
unfoldable pub must_wait : Pool → Bool
must_wait s = not s.decommiting && leb (length s.samples) s.buffers_taken

unfoldable pub take_found : Pool → ℕ × Option ℕ → Pool × GetResult
unfolding ref_at set_ref
take_found s (position, none) = (record s { position = position }, underflow)
take_found s (position, some i) = (
  record s {
    samples = set_ref i (ref_at i s.samples + 1) s.samples;
    position = position;
    buffers_taken = wrap64 (s.buffers_taken + 1);
  },
  gives i,
)

-- GetBuffer from its loop on, which is where it comes back to from a wait.
unfoldable pub try_take : Bool → Pool → Pool × GetResult
unfolding must_wait find_free take_found
try_take no_wait s =
    if must_wait s
    then (s, if no_wait then timeout else waits)
    else (if s.decommiting
        then (s, not_committed)
        else take_found s (find_free (length s.samples) s.position s.samples))

unfoldable pub get_buffer : Bool → Pool → Pool × GetResult
unfolding try_take
get_buffer no_wait s =
    if not s.commited || (s.decommiting || is_empty s.samples)
    then (s, not_committed)
    else try_take no_wait s

-- ReleaseBuffer, of a sample of the pool.
unfoldable pub release_buffer : Pool → Pool
release_buffer s = record s { buffers_taken = wrap64 (s.buffers_taken + (2 ^ 64 - 1)) }

-- AddRef and Release of a sample of the pool.
unfoldable pub add_ref : ℕ → Pool → Pool
unfolding ref_at set_ref
add_ref i s = record s { samples = set_ref i (ref_at i s.samples + 1) s.samples }

unfoldable pub release : ℕ → Pool → Pool
unfolding ref_at set_ref release_buffer
release i s =
    let ref = ref_at i s.samples - 1 in
    let t = record s { samples = set_ref i ref s.samples } in
    if ref == 1 then release_buffer t else t
