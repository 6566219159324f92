-- ===== src/Preferences/Keys.antt =====
-- The keys of the cameras, in windows/PlatformUtils/src/preferences.cpp, are apart.
use akvirtualcamera.Base.{
  ℕ, suc, ◌^◌, ◌<◌, ◌≡◌, ◌≢◌, refl, sym, ap, ◌∙◌, true, [], ◌∷◌, ◌++◌, none, Bytes, length, drop,
  arith, All, inl, inr, drop-append, codes,
}
use akvirtualcamera.Registry.{lower, folded}
use akvirtualcamera.Preferences.{at_last, split_sub_key, reg_prefix}
use akvirtualcamera.Preferences.Cameras.{cameras_prefix, cameras_size, camera_key}
use akvirtualcamera.Preferences.Values.{split_sub_key-append, Away}
use akvirtualcamera.Text.Decimal.{to_string, IsDigit, to_string-IsDigit, to_string_injective}

length-folded : (k : Bytes) → length (folded k) ≡ length k
length-folded [] = refl
length-folded (b ∷ k) = ap suc (length-folded k)

folded-append : (a b : Bytes) → folded (a ++ b) ≡ folded a ++ folded b
folded-append [] b = refl
folded-append (c ∷ a) b = ap (◌∷◌ (lower c)) (folded-append a b)

pub folded-digits : (k : Bytes) → All IsDigit k → folded k ≡ k
unfolding lower
folded-digits [] h = refl
folded-digits (b ∷ k) h =
    let same : lower b ≡ b = ground (arith, h.0.0, h.0.1) in rw (same, folded-digits k h.1) refl

-- Behind the same text, what is the same whatever the case.
pub folded_cancel : (a k l : Bytes) → folded (a ++ k) ≡ folded (a ++ l) → folded k ≡ folded l
folded_cancel a k l e =
    let whole : folded a ++ folded k ≡ folded a ++ folded l =
      sym (folded-append a k) ∙ e ∙ folded-append a l in
    sym (drop-append (length (folded a)) (folded a) (folded k) refl)
    ∙ ap (drop (length (folded a))) whole
    ∙ drop-append (length (folded a)) (folded a) (folded l) refl

-- The key of the cameras, and that of a camera.
abbrev pub cameras_path : Bytes
cameras_path = reg_prefix ++ 92 ∷ codes "Cameras"

abbrev pub camera_path : Bytes → Bytes
camera_path number = reg_prefix ++ 92 ∷ (cameras_prefix ++ number)

pub split_sub_key-camera_key :
    (number name : Bytes)
    → at_last name ≡ none
    → split_sub_key (camera_key number name) ≡ (camera_path number, name)
split_sub_key-camera_key number name e = split_sub_key-append (cameras_prefix ++ number) name e

pub split_size : split_sub_key cameras_size ≡ (cameras_path, codes "size")
unfolding split_sub_key at_last
split_size = refl

-- The paths of different numbers differ.
camera_path_apart :
    (i j : ℕ)
    → i < 10 ^ 20
    → j < 10 ^ 20
    → i ≢ j
    → folded (camera_path (to_string i)) ≢ folded (camera_path (to_string j))
camera_path_apart i j hi hj differ e =
    let digits_alike : folded (to_string i) ≡ folded (to_string j) =
      folded_cancel (reg_prefix ++ 92 ∷ cameras_prefix) (to_string i) (to_string j) e in
    differ (
      to_string_injective i j hi hj (
        sym (folded-digits (to_string i) (to_string-IsDigit i))
        ∙ digits_alike
        ∙ folded-digits (to_string j) (to_string-IsDigit j)))

-- A camera's path is longer than that of the cameras.
pub cameras_path_apart : (number : Bytes) → folded (camera_path number) ≢ folded cameras_path
cameras_path_apart number e =
    absurd
      (omega (arith, length-folded (camera_path number), length-folded cameras_path, ap length e))

-- The values of different cameras are apart, whatever their names.
pub cameras_Away :
    (i j : ℕ) (name other : Bytes)
    → i < 10 ^ 20
    → j < 10 ^ 20
    → i ≢ j
    → at_last name ≡ none
    → at_last other ≡ none
    → Away true (camera_key (to_string i) name) true (camera_key (to_string j) other)
cameras_Away i j name other hi hj differ e e' =
    rw
      (
        split_sub_key-camera_key (to_string i) name e,
        split_sub_key-camera_key (to_string j) other e',
      )
      (inr (inl (camera_path_apart i j hi hj differ)))

pub camera_size_Away :
    (number name : Bytes)
    → at_last name ≡ none
    → Away true (camera_key number name) true cameras_size
camera_size_Away number name e =
    rw (split_sub_key-camera_key number name e, split_size) (inr (inl (cameras_path_apart number)))

pub size_camera_Away :
    (number name : Bytes)
    → at_last name ≡ none
    → Away true cameras_size true (camera_key number name)
size_camera_Away number name e =
    rw (split_sub_key-camera_key number name e, split_size)
      (inr (inl (λ h. cameras_path_apart number (sym h))))

-- Values of the same camera with names that differ.
pub names_Away :
    (number name other : Bytes)
    → at_last name ≡ none
    → at_last other ≡ none
    → folded name ≢ folded other
    → Away true (camera_key number name) true (camera_key number other)
names_Away number name other e e' differ =
    rw (split_sub_key-camera_key number name e, split_sub_key-camera_key number other e')
      (inr (inr differ))
