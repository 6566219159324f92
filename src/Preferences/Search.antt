-- ===== src/Preferences/Search.antt =====
-- The search for a device in windows/PlatformUtils/src/preferences.cpp, and the change of a description.
use akvirtualcamera.Base.{
  ℕ, zero, suc, ◌+◌, ◌<◌, ◌≤◌, ◌≡◌, ◌≢◌, refl, sym, true, false, Option, none, some, Bytes, ltb,
  str_eq, arith, inl, inr, Bool-cases, str_eq_sound, str_eq_refl, subst,
}
use akvirtualcamera.Registry.{Registry}
use akvirtualcamera.Preferences.Cameras.{
  cameras_count, camera_id, camera_from, camera_from_id, camera_exists,
}

module _ {R : Type 0} (reg : Registry R) where
  -- What the search finds among the cameras from an index to an end.
  abbrev pub Found : Bytes → R → ℕ → ℕ → Option ℕ → Type 0
  Found id s i end none = (j : ℕ) → i ≤ j → j < end → camera_id reg j s ≢ id
  Found id s i end (some k) =
      (i ≤ k)
      × (k < end)
      × (camera_id reg k s ≡ id)
      × ((j : ℕ) → i ≤ j → j < k → camera_id reg j s ≢ id)

  other_id :
      (id : Bytes) (s : R) (i : ℕ) → str_eq (camera_id reg i s) id ≡ false → camera_id reg i s ≢ id
  other_id id s i e same =
      absurd (ground (arith, e, subst (λ c. str_eq c id ≡ true) (sym same) (str_eq_refl id)))

  -- An index is the first one, or is behind it.
  first_or_later :
      (id : Bytes) (s : R) (i j : ℕ)
      → camera_id reg i s ≢ id
      → (i < j → camera_id reg j s ≢ id)
      → i ≤ j
      → camera_id reg j s ≢ id
  first_or_later id s i j here later h = elim (Bool-cases (ltb i j)) [
    | inl e ↦ later (ground (arith, e))
    | inr e ↦
        (let same : i ≡ j = ground (arith, e) in subst (λ k. camera_id reg k s ≢ id) same here)
  ]

  Found-later :
      (id : Bytes) (s : R) (i end : ℕ) (o : Option ℕ)
      → camera_id reg i s ≢ id
      → Found id s (i + 1) end o
      → Found id s i end o
  Found-later id s i end none here h =
      λ j low high. first_or_later id s i j here (λ less. h j (omega arith) high) low
  Found-later id s i end (some k) here h = (
    omega (arith, h.0),
    h.1,
    h.2,
    λ j low high. first_or_later id s i j here (λ less. h.3 j (omega arith) high) low,
  )

  Found-camera_from :
      (id : Bytes) (s : R) (i left : ℕ) → Found id s i (i + left) (camera_from reg id s i left)
  unfolding camera_from
  Found-camera_from id s i zero = λ j low high. absurd (omega arith)
  Found-camera_from id s i (suc left) = elim (Bool-cases (str_eq (camera_id reg i s) id)) [
    | inl e ↦
        rw (camera_from, e)
          (omega arith, omega arith, str_eq_sound _ _ e, λ j low high. absurd (omega arith))
    | inr e ↦
        let end : (i + 1) + left ≡ i + suc left = omega arith in
        rw (camera_from, e)
          (Found-later id s i (i + suc left) (camera_from reg id s (i + 1) left) (other_id id s i e)
            (subst (λ n. Found id s (i + 1) n (camera_from reg id s (i + 1) left)) end
              (Found-camera_from id s (i + 1) left)))
  ]

  -- cameraFromId finds the first camera with the id, if any camera has it, and otherwise none; and
  -- cameraExists tells which.
  pub camera_from_id-Found :
      (id : Bytes) (s : R)
      → Found id s 0 (cameras_count reg s) (camera_from_id reg id s)
        × (camera_exists reg id s
            ≡ (elim (camera_from_id reg id s) [ none ↦ false | some i ↦ true ]))
  unfolding camera_from_id camera_exists
  camera_from_id-Found id s =
      let count : 0 + cameras_count reg s ≡ cameras_count reg s = omega arith in
      (
        subst (λ n. Found id s 0 n (camera_from reg id s 0 (cameras_count reg s))) count
            (Found-camera_from id s 0 (cameras_count reg s)),
        refl,
      )
