-- ===== src/Examples/Pools.antt =====
-- The theorems on the allocator of the DirectShow filter at concrete pools.
use akvirtualcamera.Base.{◌≡◌, ◌⊎◌, refl, true, false, arith, ◌∷◌, []}
use akvirtualcamera.Base.Int.{pos}
use akvirtualcamera.Allocator.{
  Pool, Properties, new_pool, set_properties, commit, decommit, get_buffer, try_take, must_wait,
  take_found, find_free, ref_at, set_ref, release, waits,
}
use akvirtualcamera.Allocator.Invariant.{IsValid}
use akvirtualcamera.Allocator.GetBuffer.{Refused, Exhausted, Given}
use akvirtualcamera.Allocator.Calls.{
  Reach, starts, continues, sets_properties, commits, gets_buffer, releases, Reach-IsValid,
  decommit-waits,
}

-- Two buffers are asked for, and four are given.
abbrev asked : Properties
asked = record { c_buffers = pos 2; cb_buffer = pos 640; cb_align = pos 0; cb_prefix = pos 0 }

abbrev sized : Pool
sized = (set_properties asked new_pool).0

abbrev ready : Pool
ready = (commit sized).0

abbrev one_held : Pool
one_held = (get_buffer true ready).0

one_in_use : one_held.samples ≡ 2 ∷ 1 ∷ 1 ∷ 1 ∷ []
unfolding set_properties commit get_buffer try_take must_wait take_found find_free ref_at set_ref
one_in_use = refl

used : ref_at 0 one_held.samples ≡ 2
unfolding set_properties commit get_buffer try_take must_wait take_found find_free ref_at set_ref
used = refl

ready-Reach : Reach ready
ready-Reach =
    continues sized ready
      (continues new_pool sized starts (sets_properties asked new_pool (omega arith)))
      (commits sized)

Reach-IsValid_example :
    IsValid (release 0 one_held)
    × (Refused true (release 0 one_held)
        ⊎ (Exhausted true (release 0 one_held) ⊎ Given true (release 0 one_held)))
Reach-IsValid_example = Reach-IsValid (release 0 one_held) true (
    continues one_held (release 0 one_held)
      (continues ready one_held ready-Reach (gets_buffer true ready))
      (releases 0 one_held (omega (arith, used))))

ready_commited : ready.commited ≡ true
unfolding set_properties commit
ready_commited = refl

decommit-waits_example :
    (must_wait (decommit ready) ≡ true)
    × (try_take false (decommit ready) ≡ (decommit ready, waits))
decommit-waits_example = decommit-waits ready ready_commited
