-- ===== src/Enumerator.antt =====
-- windows/dshow/BaseFilter/src/enummediatypes.cpp: the enumeration of the media types of a pin. `T` are
-- the media types of the system, and mediaTypeFromFormat, which may give none, is a parameter.
pub mod Rest
pub mod Whole
use akvirtualcamera.Base.{
  ℕ, zero, suc, ◌+◌, Bool, true, false, List, [], ◌∷◌, Option, none, some, ltb, ◌==◌, if◌then◌else◌,
  length,
}
use akvirtualcamera.Number.Algorithm.{wrap64}
use akvirtualcamera.Video.Format.{VideoFormat}

pub record EnumMediaTypes : Type 0 where
  pub formats : List VideoFormat
  pub position : ℕ

pub data HResult : Type 0 where
  s_ok : HResult
  s_false : HResult
  e_invalidarg : HResult
  e_pointer : HResult

-- m_formats[i].
unfoldable pub format_at : ℕ → List VideoFormat → Option VideoFormat
format_at i [] = none
format_at zero (f ∷ formats) = some f
format_at (suc i) (f ∷ formats) = format_at i formats

unfoldable pub reset : EnumMediaTypes → EnumMediaTypes
reset e = record e { position = 0 }

unfoldable pub skip : ℕ → EnumMediaTypes → EnumMediaTypes × HResult
skip c e =
    let position = wrap64 (e.position + c) in
    if ltb (length e.formats) position
    then (e, s_false)
    else (record e { position = position }, s_ok)

-- What a call of Next ends with: the enumeration, the media types that it wrote, in their order, how many
-- it says there are, and the result.
pub record Fetched (T : Type 0) : Type 0 where
  pub cursor : EnumMediaTypes
  pub written : List T
  pub fetched : ℕ
  pub result : HResult

module _ {T : Type 0} (media_type_from_format : VideoFormat → Option T) where
  -- mediaType.
  unfoldable pub media_type : ℕ → EnumMediaTypes → Option (Option T)
  unfolding format_at
  media_type i e = elim (format_at i e.formats) [
    | none ↦ none
    | some f ↦ some (media_type_from_format f)
  ]

  -- A media type that could not be made takes no place of the array.
  unfoldable pub write_type : VideoFormat → List T → List T
  write_type f later = elim (media_type_from_format f) [ none ↦ later | some t ↦ t ∷ later ]

  -- The loop of Next, with the number of media types that are still asked for.
  unfoldable pub next_loop : ℕ → EnumMediaTypes → EnumMediaTypes × (List T × ℕ)
  unfolding format_at write_type
  next_loop zero e = (e, ([], 0))
  next_loop (suc left) e =
      let (last, (later, n)) = next_loop left (record e { position = e.position + 1 }) in
      elim (format_at e.position e.formats) [
        | none ↦ (e, ([], 0))
        | some f ↦ (last, (write_type f later, n + 1))
      ]

  -- Next, with whether there is an array to write to.
  unfoldable pub next : ℕ → Bool → EnumMediaTypes → Fetched T
  unfolding next_loop
  next c has_array e =
      let (last, (written, n)) = next_loop c e in
      if c == 0
      then record { cursor = e; written = []; fetched = 0; result = e_invalidarg }
      else (if has_array
          then record {
            cursor = last;
            written = written;
            fetched = n;
            result = if n == c then s_ok else s_false;
          }
          else record { cursor = e; written = []; fetched = 0; result = e_pointer })
