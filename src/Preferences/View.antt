-- ===== src/Preferences/View.antt =====
-- What windows/PlatformUtils/src/preferences.cpp tells of the cameras.
use akvirtualcamera.Base.{
  ℕ, zero, suc, ◌+◌, ◌^◌, ◌<◌, ◌≡◌, ◌≢◌, refl, ap, ◌∙◌, true, false, List, [], ◌∷◌, ◌++◌, Option,
  none, Bytes, leb, if◌then◌else◌, length, arith, codes,
}
use akvirtualcamera.Registry.{Registry, Value, folded, lower}
use akvirtualcamera.Preferences.{at_last, read_value, read_string, read_int, int_from, text_of}
use akvirtualcamera.Preferences.Cameras.{
  cameras_size, camera_key, cameras_count, camera_id, camera_description,
}
use akvirtualcamera.Text.Decimal.{to_string}
use akvirtualcamera.Video.Format.{size_of_int}

-- A camera, as the functions on the settings show it.
pub record Camera : Type 0 where
  pub id : Bytes
  pub description : Bytes

pub no_backslash_id : at_last (codes "id") ≡ none
unfolding at_last
no_backslash_id = refl

pub no_backslash_description : at_last (codes "description") ≡ none
unfolding at_last
no_backslash_description = refl

pub id_description : folded (codes "description") ≢ folded (codes "id")
unfolding lower
id_description e = absurd (omega (arith, ap length e))

abbrev pub id_key : ℕ → Bytes
id_key i = camera_key (to_string (i + 1)) (codes "id")

abbrev pub description_key : ℕ → Bytes
description_key i = camera_key (to_string (i + 1)) (codes "description")

pub size_of_small : (w : ℕ) → w < 2 ^ 31 → size_of_int w ≡ w
unfolding size_of_int
size_of_small w h = ground arith

module _ {R : Type 0} (reg : Registry R) where
  abbrev pub camera_at : R → ℕ → Camera
  camera_at s i = record { id = camera_id reg i s; description = camera_description reg i s }

  -- The cameras from an index on.
  abbrev pub cameras_from : R → ℕ → ℕ → List Camera
  cameras_from s i zero = []
  cameras_from s i (suc n) = camera_at s i ∷ cameras_from s (suc i) n

  abbrev pub cameras : R → List Camera
  cameras s = cameras_from s 0 (cameras_count reg s)

  pub cameras_from-snoc :
      (s : R) (i n : ℕ) → cameras_from s i (suc n) ≡ cameras_from s i n ++ camera_at s (i + n) ∷ []
  cameras_from-snoc s i zero = ap (λ j. camera_at s j ∷ []) (omega arith)
  cameras_from-snoc s i (suc n) = ap (◌∷◌ (camera_at s i)) (
      cameras_from-snoc s (suc i) n
      ∙ ap (λ j. cameras_from s (suc i) n ++ camera_at s j ∷ []) (omega arith))

  pub cameras_from-same :
      (s t : R) (i n : ℕ)
      → ((j : ℕ) → j < i + n → camera_at s j ≡ camera_at t j)
      → cameras_from s i n ≡ cameras_from t i n
  cameras_from-same s t i zero h = refl
  cameras_from-same s t i (suc n) h =
      rw (h i (omega arith), cameras_from-same s t (suc i) n (λ j less. h j (omega arith))) refl

  pub id_from :
      (i : ℕ) (s : R) (v : Option Value)
      → read_value reg (id_key i) true s ≡ v
      → camera_id reg i s ≡ text_of [] v
  unfolding camera_id read_string
  id_from i s v e = ap (text_of []) e

  pub description_from :
      (i : ℕ) (s : R) (v : Option Value)
      → i < cameras_count reg s
      → read_value reg (description_key i) true s ≡ v
      → camera_description reg i s ≡ text_of [] v
  unfolding camera_description read_string
  description_from i s v less e =
      let inside : leb (cameras_count reg s) i ≡ false = ground arith in
      ap (λ b. if b then [] else read_string reg (description_key i) [] true s) inside
      ∙ ap (text_of []) e

  pub count_from :
      (s : R) (v : Option Value)
      → read_value reg cameras_size true s ≡ v
      → cameras_count reg s ≡ size_of_int (int_from 0 v)
  unfolding cameras_count read_int
  count_from s v e = ap (λ u. size_of_int (int_from 0 u)) e
