-- ===== src/Service/Waiting/Safety.antt =====
-- The reference to its slot that `listen` holds across the wait does not dangle, and what it finds
-- there when the wait is over.
use akvirtualcamera.Base.{
  ℕ, ◌<◌, ◌≡◌, ◌≢◌, ◌⊎◌, refl, ap, ◌∙◌, Bool, true, false, List, [], ◌∷◌, some, arith, Bytes, ◌==◌,
  ◌&&◌, if◌then◌else◌, str_eq, str_lt, str_eq_iff, str_eq_refl, str_eq_sound, subst, sym, inl, inr,
  Bool-cases, is_empty,
}
use akvirtualcamera.Base.StdMap.{find, find-erase, Above, IsSorted, str_lt_irrefl}
use akvirtualcamera.Video.Frame.{VideoFrame}
use akvirtualcamera.Service.{
  Peer, peer, BroadcastSlot, Broadcasts, erase_listener, remove_from, remove_client,
}
use akvirtualcamera.Service.Peers.{count_listeners, erase_listener-some}
use akvirtualcamera.Service.Remove.{remove_from_cases, removed-Above}

-- The slot of a device, with a client among its listeners, a frame and whether that is new.
pub record Holds (c : ℕ) (d : Bytes) (f : VideoFrame) (ready : Bool) (m : Broadcasts) : Type 0 where
  pub slot : BroadcastSlot
  pub found : find d m ≡ some slot
  pub listed : 0 < count_listeners c slot.listeners
  pub same_frame : slot.frame ≡ f
  pub same_ready : slot.frame_ready ≡ ready

-- The slot stays, and is not the one to be removed.
record Kept (c : ℕ) (d : Bytes) (f : VideoFrame) (ready : Bool) (r : Broadcasts × Bytes)
    : Type 0 where
  holds : Holds c d f ready r.0
  spared : (r.1 ≡ []) ⊎ (str_eq r.1 d ≡ false)

nonempty : (c : ℕ) (ps : List Peer) → 0 < count_listeners c ps → is_empty ps ≡ false
unfolding count_listeners
nonempty c [] h = elim h [ ]
nonempty c (p ∷ ps) h = refl

below_ne : (d e : Bytes) → str_lt d e ≡ true → str_eq e d ≡ false
below_ne d e h = ground (arith, str_eq_iff e d, str_lt_irrefl d)

module _ (c e : ℕ) (ne : e ≢ c) (d : Bytes) (f : VideoFrame) (ready : Bool) where
  still_listed :
      (ps qs : List Peer)
      → 0 < count_listeners c ps
      → erase_listener e ps ≡ some qs
      → 0 < count_listeners c qs
  still_listed ps qs h erased = ground (arith, erase_listener-some e c ps qs erased)

  spared_behind :
      (s : BroadcastSlot) (m : Broadcasts)
      → Above d m
      → ((remove_from e m).1 ≡ []) ⊎ (str_eq (remove_from e m).1 d ≡ false)
  spared_behind s m a = ground (arith, removed-Above e d m a, below_ne d (remove_from e m).1)

  spared_erased :
      (pid : ℕ) (ls : List Peer)
      → is_empty ls ≡ false
      → (if pid == 0 && is_empty ls then d else []) ≡ []
  spared_erased pid ls h = ground (arith, h)

  -- The slot is the first.
  Kept-here :
      (s : BroadcastSlot) (m : Broadcasts)
      → IsSorted ((d, s) ∷ m)
      → 0 < count_listeners c s.listeners
      → s.frame ≡ f
      → s.frame_ready ≡ ready
      → Kept c d f ready (remove_from e ((d, s) ∷ m))
  unfolding find
  Kept-here s m h listed hf hr =
      remove_from_cases (Kept c d f ready) e d s m
        (λ own. record {
          holds = record {
            slot = record s { broadcaster = peer 0 0 };
            found = ground (arith, str_eq_refl d);
            listed = listed;
            same_frame = hf;
            same_ready = hr;
          };
          spared = inl (rw (nonempty c s.listeners listed));
        })
        (λ own missing. record {
          holds = record {
            slot = s;
            found = ground (arith, str_eq_refl d);
            listed = listed;
            same_frame = hf;
            same_ready = hr;
          };
          spared = spared_behind s m h.0;
        })
        (λ ls own erased.
          let still : 0 < count_listeners c ls =
            omega (arith, still_listed s.listeners ls listed erased) in
          record {
            holds = record {
              slot = record s { listeners = ls };
              found = ground (arith, str_eq_refl d);
              listed = still;
              same_frame = hf;
              same_ready = hr;
            };
            spared = inl (spared_erased s.broadcaster.pid ls (nonempty c ls still));
          })

  -- Another slot is the first.
  Kept-behind :
      (j : Bytes) (t : BroadcastSlot) (m : Broadcasts)
      → str_eq j d ≡ false
      → Holds c d f ready m
      → Kept c d f ready (remove_from e m)
      → Kept c d f ready (remove_from e ((j, t) ∷ m))
  unfolding find
  Kept-behind j t m other held k =
      remove_from_cases (Kept c d f ready) e j t m
        (λ own. stays (record t { broadcaster = peer 0 0 }) (is_empty t.listeners))
        (λ own missing. record {
          holds = record {
            slot = k.holds.slot;
            found = rw other k.holds.found;
            listed = k.holds.listed;
            same_frame = k.holds.same_frame;
            same_ready = k.holds.same_ready;
          };
          spared = k.spared;
        })
        (λ ls own erased.
          stays (record t { listeners = ls }) (t.broadcaster.pid == 0 && is_empty ls))
    where
      held_behind : (u : BroadcastSlot) → Holds c d f ready ((j, u) ∷ m)
      held_behind u = record {
        slot = held.slot;
        found = rw other held.found;
        listed = held.listed;
        same_frame = held.same_frame;
        same_ready = held.same_ready;
      }

      stays : (u : BroadcastSlot) (b : Bool) → Kept c d f ready ((j, u) ∷ m, if b then j else [])
      stays u true = record { holds = held_behind u; spared = inr other }
      stays u false = record { holds = held_behind u; spared = inl refl }

  in_tail :
      (j : Bytes) (t : BroadcastSlot) (m : Broadcasts)
      → str_eq j d ≡ false
      → Holds c d f ready ((j, t) ∷ m)
      → Holds c d f ready m
  unfolding find
  in_tail j t m other held = record {
    slot = held.slot;
    found = ground (arith, held.found);
    listed = held.listed;
    same_frame = held.same_frame;
    same_ready = held.same_ready;
  }

  Kept-first :
      (t : BroadcastSlot) (m : Broadcasts)
      → IsSorted ((d, t) ∷ m)
      → Holds c d f ready ((d, t) ∷ m)
      → Kept c d f ready (remove_from e ((d, t) ∷ m))
  unfolding find
  Kept-first t m h held =
      let same : t ≡ held.slot = ground (arith, str_eq_refl d, held.found) in
      Kept-here t m h (ground (arith, same, held.listed))
        (ap (λ (s : BroadcastSlot). s.frame) same ∙ held.same_frame)
        (ap (λ (s : BroadcastSlot). s.frame_ready) same ∙ held.same_ready)

  remove_from-Kept :
      (m : Broadcasts) → IsSorted m → Holds c d f ready m → Kept c d f ready (remove_from e m)
  remove_from-Kept [] h held = absurd (not_empty held)
    where
      not_empty : Holds c d f ready [] → ⊥
      not_empty held = unfold find in cc held.found
  remove_from-Kept ((j, t) ∷ m) h held = elim (Bool-cases (str_eq j d)) [
    | inl same ↦
        subst
          (λ k.
            IsSorted ((k, t) ∷ m)
            → Holds c d f ready ((k, t) ∷ m)
            → Kept c d f ready (remove_from e ((k, t) ∷ m)))
          (sym (str_eq_sound j d same)) (Kept-first t m) h held
    | inr other ↦
        let held' = in_tail j t m other held in
        Kept-behind j t m other held' (remove_from-Kept m h.1 held')
  ]

  -- What another connection's close leaves of the slot.
  pub remove_client-Holds :
      (m : Broadcasts) → IsSorted m → Holds c d f ready m → Holds c d f ready (remove_client e m)
  unfolding remove_client
  remove_client-Holds m h held = elim (Bool-cases (is_empty (remove_from e m).1)) [
    | inl none_removed ↦ rw none_removed k.holds
    | inr some_removed ↦ rw some_removed (record {
      slot = k.holds.slot;
      found =
          ground
            (arith, k.spared, k.holds.found, find-erase (remove_from e m).1 d (remove_from e m).0);
      listed = k.holds.listed;
      same_frame = k.holds.same_frame;
      same_ready = k.holds.same_ready;
    })
  ]
    where
      k : Kept c d f ready (remove_from e m)
      k = remove_from-Kept m h held
