-- ===== src/Preferences/Writes.antt =====
-- Writes in a row, in windows/PlatformUtils/src/preferences.cpp.
use akvirtualcamera.Base.{◌≡◌, refl, ◌∙◌, true, List, [], ◌∷◌, some, Bytes, All, arith}
use akvirtualcamera.Registry.{Registry, Value}
use akvirtualcamera.Preferences.{read_value, write}
use akvirtualcamera.Preferences.Cameras.{write_all}
use akvirtualcamera.Preferences.Values.{Away, read_value-write, read_value-Away}

-- A key is apart from those of all the writes.
abbrev pub AwayFrom : Bytes → List (Bytes × Value) → Type 0
AwayFrom key = All (λ w. Away true key true w.0)

module _ {R : Type 0} (reg : Registry R) where
  pub write_all-Away :
      (writes : List (Bytes × Value)) (key : Bytes) (s : R)
      → AwayFrom key writes
      → read_value reg key true (write_all reg writes s).0 ≡ read_value reg key true s
  unfolding write_all
  write_all-Away [] key s h = refl
  write_all-Away ((other, v) ∷ writes) key s h =
      write_all-Away writes key (write reg other v true s).0 h.1
      ∙ read_value-Away reg key true other v true s h.0

  -- The first write, and the others behind it, where all are a success.
  pub write_all-first :
      (key : Bytes) (v : Value) (writes : List (Bytes × Value)) (s : R)
      → (write_all reg ((key, v) ∷ writes) s).1 ≡ true
      → AwayFrom key writes
      → read_value reg key true (write_all reg ((key, v) ∷ writes) s).0 ≡ some v
  unfolding write_all
  write_all-first key v writes s ok h =
      let made : (write reg key v true s).1 ≡ true = ground (arith, ok) in
      write_all-Away writes key (write reg key v true s).0 h
      ∙ read_value-write reg key v true s made

  pub write_all-others :
      (key : Bytes) (v : Value) (writes : List (Bytes × Value)) (s : R)
      → (write_all reg ((key, v) ∷ writes) s).1 ≡ true
      → (write_all reg writes (write reg key v true s).0).1 ≡ true
  unfolding write_all
  write_all-others key v writes s ok = ground (arith, ok)
