-- ===== src/Preferences/FormatTrip.antt =====
-- What cameraSetFormats of windows/PlatformUtils/src/preferences.cpp stores is what is read again.
use akvirtualcamera.Base.{
  ℕ, zero, suc, ◌+◌, ◌^◌, ◌<◌, ◌≡◌, ◌≢◌, refl, ap, ◌∙◌, true, List, [], ◌∷◌, none, some, Bytes,
  length, arith, All, codes,
}
use akvirtualcamera.Registry.{Registry, Value, reg_sz, reg_dword, folded, lower}
use akvirtualcamera.Preferences.{
  at_last, read_value, read_string, read_int, int_from, text_of, write,
}
use akvirtualcamera.Preferences.Cameras.{StoredFormat, format_values, write_all}
use akvirtualcamera.Preferences.Values.{IsText, text_of-IsText}
use akvirtualcamera.Preferences.Writes.{AwayFrom, write_all-first, write_all-others}
use akvirtualcamera.Preferences.Formats.{field_key, stored_format, later_AwayFrom, names_Away}

-- Its texts can be read again.
abbrev pub HasTexts : StoredFormat → Type 0
HasTexts f = IsText f.format × IsText f.fps

names_differ :
    (folded (codes "format") ≢ folded (codes "width"))
    × (folded (codes "format") ≢ folded (codes "height"))
    × (folded (codes "format") ≢ folded (codes "fps"))
    × (folded (codes "width") ≢ folded (codes "height"))
    × (folded (codes "width") ≢ folded (codes "fps"))
    × (folded (codes "height") ≢ folded (codes "fps"))
unfolding lower
names_differ = (
  λ e. absurd (omega (arith, ap length e)),
  λ e. absurd (ground (arith, e)),
  λ e. absurd (omega (arith, ap length e)),
  λ e. absurd (omega (arith, ap length e)),
  λ e. absurd (omega (arith, ap length e)),
  λ e. absurd (omega (arith, ap length e)),
)

module _ {R : Type 0} (reg : Registry R) (number : Bytes) where
  -- The formats that are stored from a number on.
  abbrev pub stored_from : R → ℕ → ℕ → List StoredFormat
  stored_from s i zero = []
  stored_from s i (suc n) = stored_format reg number i s ∷ stored_from s (i + 1) n

  -- The values of one format, and other writes behind them.
  module _ (i : ℕ) (f : StoredFormat) (later : List (Bytes × Value)) (s : R)
      (away : (name : Bytes) → at_last name ≡ none → AwayFrom (field_key number i name) later) where
    abbrev key : Bytes → Bytes
    key name = field_key number i name

    abbrev from_fps : List (Bytes × Value)
    from_fps = (key (codes "fps"), reg_sz f.fps) ∷ later

    abbrev from_height : List (Bytes × Value)
    from_height = (key (codes "height"), reg_dword f.height) ∷ from_fps

    abbrev from_width : List (Bytes × Value)
    from_width = (key (codes "width"), reg_dword f.width) ∷ from_height

    abbrev all_values : List (Bytes × Value)
    all_values = (key (codes "format"), reg_sz f.format) ∷ from_width

    abbrev s1 : R
    s1 = (write reg (key (codes "format")) (reg_sz f.format) true s).0

    abbrev s2 : R
    s2 = (write reg (key (codes "width")) (reg_dword f.width) true s1).0

    abbrev s3 : R
    s3 = (write reg (key (codes "height")) (reg_dword f.height) true s2).0

    abbrev s4 : R
    s4 = (write reg (key (codes "fps")) (reg_sz f.fps) true s3).0

    module _ (ok : (write_all reg all_values s).1 ≡ true) where
      ok1 : (write_all reg from_width s1).1 ≡ true
      ok1 = write_all-others reg (key (codes "format")) (reg_sz f.format) from_width s ok

      ok2 : (write_all reg from_height s2).1 ≡ true
      ok2 = write_all-others reg (key (codes "width")) (reg_dword f.width) from_height s1 ok1

      ok3 : (write_all reg from_fps s3).1 ≡ true
      ok3 = write_all-others reg (key (codes "height")) (reg_dword f.height) from_fps s2 ok2

      ok4 : (write_all reg later s4).1 ≡ true
      ok4 = write_all-others reg (key (codes "fps")) (reg_sz f.fps) later s3 ok3

      abbrev after : R
      after = (write_all reg all_values s).0

      format_read : read_value reg (key (codes "format")) true after ≡ some (reg_sz f.format)
      unfolding at_last
      format_read = write_all-first reg (key (codes "format")) (reg_sz f.format) from_width s ok (
        names_Away number i (codes "format") (codes "width") refl refl names_differ.0,
        (
          names_Away number i (codes "format") (codes "height") refl refl names_differ.1,
          (
            names_Away number i (codes "format") (codes "fps") refl refl names_differ.2,
            away (codes "format") refl,
          ),
        ),
      )

      width_read : read_value reg (key (codes "width")) true after ≡ some (reg_dword f.width)
      unfolding at_last write_all
      width_read =
          write_all-first reg (key (codes "width")) (reg_dword f.width) from_height s1 ok1 (
            names_Away number i (codes "width") (codes "height") refl refl names_differ.3,
            (
              names_Away number i (codes "width") (codes "fps") refl refl names_differ.4,
              away (codes "width") refl,
            ),
          )

      height_read : read_value reg (key (codes "height")) true after ≡ some (reg_dword f.height)
      unfolding at_last write_all
      height_read =
          write_all-first reg (key (codes "height")) (reg_dword f.height) from_fps s2 ok2 (
            names_Away number i (codes "height") (codes "fps") refl refl names_differ.5,
            away (codes "height") refl,
          )

      fps_read : read_value reg (key (codes "fps")) true after ≡ some (reg_sz f.fps)
      unfolding at_last write_all
      fps_read =
          write_all-first reg (key (codes "fps")) (reg_sz f.fps) later s3 ok3
            (away (codes "fps") refl)

      format_stored : HasTexts f → stored_format reg number i after ≡ f
      unfolding stored_format read_string read_int int_from
      format_stored t =
          let a = ap (text_of []) format_read ∙ text_of-IsText f.format [] t.0 in
          let b = ap (int_from 0) width_read in
          let c = ap (int_from 0) height_read in
          let d = ap (text_of []) fps_read ∙ text_of-IsText f.fps [] t.1 in
          rw (stored_format, read_string, read_int, a, b, c, d) refl

  pub stored_formats :
      (i : ℕ) (formats : List StoredFormat) (s : R)
      → i + length formats < 10 ^ 20
      → All HasTexts formats
      → (write_all reg (format_values number i formats) s).1 ≡ true
      → stored_from (write_all reg (format_values number i formats) s).0 i (length formats)
        ≡ formats
  unfolding format_values write_all
  stored_formats i [] s small texts ok = refl
  stored_formats i (f ∷ formats) s small texts ok =
      let later = format_values number (i + 1) formats in
      let away = λ (name : Bytes) (e : at_last name ≡ none).
        later_AwayFrom number name i (i + 1) formats (omega arith) (omega arith) e in
      ap
        (λ g.
          g ∷ stored_from (write_all reg later (s4 i f later s away)).0 (i + 1) (length formats))
        (format_stored i f later s away ok texts.0)
      ∙ ap (◌∷◌ f) (
          stored_formats (i + 1) formats (s4 i f later s away) (omega arith) texts.1
            (ok4 i f later s away ok))
