-- ===== src/Video/Spec.antt =====
-- VCamUtils/src/colorcomponent.cpp, colorplane.cpp and videoformatspec.cpp.
pub mod Search
use Prim.Native.Nat.{bit_and}
use akvirtualcamera.Base.{
  ℕ, ◌+◌, ◌-◌, Bool, true, false, not, ◌||◌, List, [], ◌∷◌, Option, none, some, ltb, ◌==◌,
  if◌then◌else◌, min, max,
}

pub data ComponentType : Type 0 where
  ct_unknown ct_r ct_g ct_b ct_y ct_u ct_v ct_a : ComponentType

abbrev component_index : ComponentType → ℕ
component_index ct_unknown = 0
component_index ct_r = 1
component_index ct_g = 2
component_index ct_b = 3
component_index ct_y = 4
component_index ct_u = 5
component_index ct_v = 6
component_index ct_a = 7

abbrev pub component_type_eq : ComponentType → ComponentType → Bool
component_type_eq s t = component_index s == component_index t

-- `step`, `offset` and `byte_depth` are bytes, `shift` and `depth` bits; the divisors are logarithms.
pub record ColorComponent : Type 0 where
  pub type : ComponentType
  pub step : ℕ
  pub offset : ℕ
  pub shift : ℕ
  pub byte_depth : ℕ
  pub depth : ℕ
  pub width_div : ℕ
  pub height_div : ℕ

abbrev pub default_component : ColorComponent
default_component = record {
  type = ct_unknown;
  step = 0;
  offset = 0;
  shift = 0;
  byte_depth = 0;
  depth = 0;
  width_div = 0;
  height_div = 0;
}

pub record ColorPlane : Type 0 where
  pub components : List ColorComponent
  pub bits_size : ℕ
  pub pixel_size : ℕ
  pub width_div : ℕ
  pub height_div : ℕ

-- One round of the loop of ColorPlane's constructor.
unfoldable pub add_component : ColorPlane → ColorComponent → ColorPlane
add_component p c = record p {
  pixel_size = max p.pixel_size c.step;
  width_div = if ltb p.width_div 1 then c.width_div else min p.width_div c.width_div;
  height_div = max p.height_div c.height_div;
}

unfoldable pub add_components : ColorPlane → List ColorComponent → ColorPlane
unfolding add_component
add_components p [] = p
add_components p (c ∷ cs) = add_components (add_component p c) cs

unfoldable pub color_plane : List ColorComponent → ℕ → ColorPlane
unfolding add_components
color_plane cs bits =
    add_components
      (record { components = cs; bits_size = bits; pixel_size = 0; width_div = 0; height_div = 0 })
      cs

pub data VideoFormatType : Type 0 where
  vft_unknown vft_rgb vft_yuv vft_gray : VideoFormatType

abbrev pub endianness_le : ℕ
endianness_le = 1234

abbrev pub endianness_be : ℕ
endianness_be = 4321

-- The byte order of the machine.
abbrev pub endianness_bo : ℕ
endianness_bo = endianness_le

pub record VideoFormatSpec : Type 0 where
  pub type : VideoFormatType
  pub endianness : ℕ
  pub planes : List ColorPlane

abbrev pub default_spec : VideoFormatSpec
default_spec = record { type = vft_unknown; endianness = endianness_bo; planes = [] }

unfoldable pub bpp_of : List ColorPlane → ℕ
bpp_of [] = 0
bpp_of (p ∷ ps) = p.bits_size + bpp_of ps

unfoldable pub bpp : VideoFormatSpec → ℕ
unfolding bpp_of
bpp s = bpp_of s.planes

-- The inner loop of `component`: the first component of a type in a plane.
unfoldable pub find_component : ComponentType → List ColorComponent → Option ColorComponent
find_component t [] = none
find_component t (c ∷ cs) = if component_type_eq c.type t then some c else find_component t cs

unfoldable pub find_in_planes : ComponentType → List ColorPlane → Option ColorComponent
unfolding find_component
find_in_planes t [] = none
find_in_planes t (p ∷ ps) = elim (find_component t p.components) [
  | none ↦ find_in_planes t ps
  | some c ↦ some c
]

unfoldable pub component : VideoFormatSpec → ComponentType → ColorComponent
unfolding find_in_planes
component s t = elim (find_in_planes t s.planes) [ none ↦ default_component | some c ↦ c ]

-- `componentPlane`; `none` stands for its -1.
unfoldable pub plane_from : ℕ → ComponentType → List ColorPlane → Option ℕ
unfolding find_component
plane_from i t [] = none
plane_from i t (p ∷ ps) = elim (find_component t p.components) [
  | none ↦ plane_from (i + 1) t ps
  | some c ↦ some i
]

unfoldable pub component_plane : VideoFormatSpec → ComponentType → Option ℕ
unfolding plane_from
component_plane s t = plane_from 0 t s.planes

unfoldable pub contains_in : ComponentType → List ColorPlane → Bool
unfolding find_component
contains_in t [] = false
contains_in t (p ∷ ps) = elim (find_component t p.components) [
  | none ↦ contains_in t ps
  | some c ↦ true
]

unfoldable pub contains : VideoFormatSpec → ComponentType → Bool
unfolding contains_in
contains s t = contains_in t s.planes

unfoldable pub byte_depth : VideoFormatSpec → ℕ
unfolding component
byte_depth s = elim s.type [
  | vft_rgb ↦ (component s ct_r).byte_depth
  | _ ↦ (component s ct_y).byte_depth
]

unfoldable pub depth : VideoFormatSpec → ℕ
unfolding component
depth s = elim s.type [ vft_rgb ↦ (component s ct_r).depth | _ ↦ (component s ct_y).depth ]

unfoldable pub main_components : VideoFormatSpec → ℕ
main_components s = elim s.type [ vft_rgb ↦ 3 | vft_yuv ↦ 3 | vft_gray ↦ 1 | vft_unknown ↦ 0 ]

unfoldable pub number_of_components : VideoFormatSpec → ℕ
unfolding main_components contains
number_of_components s = if contains s ct_a then main_components s + 1 else main_components s

-- The loops of `isFast`: the depth seen so far (0 before the first), or `none` after `return false`.
unfoldable pub fast_components : ℕ → List ColorComponent → Option ℕ
fast_components cur [] = some cur
fast_components cur (c ∷ cs) =
    if ltb 0 c.shift
    then none
    else if ltb c.depth 1 || not (bit_and c.depth (c.depth - 1) == 0)
    then none
    else if ltb cur 1
    then fast_components c.depth cs
    else if c.depth == cur
    then fast_components cur cs
    else none

unfoldable pub fast_planes : ℕ → List ColorPlane → Bool
unfolding fast_components
fast_planes cur [] = true
fast_planes cur (p ∷ ps) = elim (fast_components cur p.components) [
  | none ↦ false
  | some d ↦ fast_planes d ps
]

unfoldable pub is_fast : VideoFormatSpec → Bool
unfolding fast_planes
is_fast s = if s.endianness == endianness_bo then fast_planes 0 s.planes else false
