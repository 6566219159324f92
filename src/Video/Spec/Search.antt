-- ===== src/Video/Spec/Search.antt =====
-- The searches of VCamUtils/src/videoformatspec.cpp for a component agree with each other.
use akvirtualcamera.Base.{
  ℕ, ◌+◌, ◌≡◌, refl, Bool, true, false, List, [], ◌∷◌, Option, none, some, arith, inl, inr,
  Option-cases,
}
use akvirtualcamera.Video.Spec.{
  ComponentType, component_type_eq, ColorComponent, ColorPlane, VideoFormatSpec, find_component,
  find_in_planes, component, plane_from, component_plane, contains_in, contains,
}

abbrev pub is_some {ℓ} : {A : Type ℓ} → Option A → Bool
is_some none = false
is_some (some a) = true

find_in_planes-contains_in :
    (t : ComponentType) (ps : List ColorPlane) → is_some (find_in_planes t ps) ≡ contains_in t ps
unfolding find_in_planes contains_in
find_in_planes-contains_in t [] = refl
find_in_planes-contains_in t (p ∷ ps) = ground (arith, find_in_planes-contains_in t ps)

plane_from-contains_in :
    (k : ℕ) (t : ComponentType) (ps : List ColorPlane)
    → is_some (plane_from k t ps) ≡ contains_in t ps
unfolding plane_from contains_in
plane_from-contains_in k t [] = refl
plane_from-contains_in k t (p ∷ ps) = ground (arith, plane_from-contains_in (k + 1) t ps)

find_component-type :
    (t : ComponentType) (cs : List ColorComponent) (c : ColorComponent)
    → find_component t cs ≡ some c
    → component_type_eq c.type t ≡ true
unfolding find_component
find_component-type t [] c h = cc
find_component-type t (d ∷ cs) c h = ground (arith, find_component-type t cs c)

find_in_planes-type :
    (t : ComponentType) (ps : List ColorPlane) (c : ColorComponent)
    → find_in_planes t ps ≡ some c
    → component_type_eq c.type t ≡ true
unfolding find_in_planes
find_in_planes-type t [] c h = cc
find_in_planes-type t (p ∷ ps) c h =
    ground (arith, find_in_planes-type t ps c, find_component-type t p.components c)

-- A specification contains a component exactly if a plane is found for it, and then the component that
-- is found has the type that was looked for.
pub component-contains :
    (s : VideoFormatSpec) (t : ComponentType)
    → (is_some (component_plane s t) ≡ contains s t)
      × (contains s t ≡ true → component_type_eq (component s t).type t ≡ true)
unfolding component_plane contains component
component-contains s t = elim (Option-cases (find_in_planes t s.planes)) [
  | inl h ↦ (
    plane_from-contains_in 0 t s.planes,
    λ c. absurd (ground (arith, h, c, find_in_planes-contains_in t s.planes)),
  )
  | inr (x, h) ↦ (
    plane_from-contains_in 0 t s.planes,
    λ _. rw (h, component) (find_in_planes-type t s.planes x h),
  )
]
