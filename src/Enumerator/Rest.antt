-- ===== src/Enumerator/Rest.antt =====
-- Next of windows/dshow/BaseFilter/src/enummediatypes.cpp enumerates what is left of the formats.
use akvirtualcamera.Base.{
  ℕ, zero, suc, ◌+◌, ◌<◌, ◌≡◌, ◌⊎◌, refl, sym, ap, ◌∙◌, true, false, List, [], ◌∷◌, Option, none,
  some, ◌==◌, if◌then◌else◌, length, take, drop, min, arith, inl, inr,
}
use akvirtualcamera.Enumerator.{
  EnumMediaTypes, s_ok, s_false, format_at, write_type, next_loop, next,
}
use akvirtualcamera.Video.Format.{VideoFormat}

-- The formats that are still to come.
abbrev pub left : EnumMediaTypes → List VideoFormat
left e = drop e.position e.formats

-- The enumeration moved on.
abbrev pub moved : ℕ → EnumMediaTypes → EnumMediaTypes
moved n e = record e { position = e.position + n }

pub drop-nil : (i : ℕ) → drop {A = VideoFormat} i [] ≡ []
drop-nil zero = refl
drop-nil (suc i) = refl

format_at-drop :
    (i : ℕ) (formats : List VideoFormat)
    → (format_at i formats ≡ none) × (drop i formats ≡ [])
      ⊎ ((f : VideoFormat) × (format_at i formats ≡ some f)
          × (drop i formats ≡ f ∷ drop (suc i) formats))
unfolding format_at
format_at-drop i [] = inl (refl, drop-nil i)
format_at-drop zero (f ∷ formats) = inr (f, refl, refl)
format_at-drop (suc i) (f ∷ formats) = format_at-drop i formats

module _ {T : Type 0} (media_type_from_format : VideoFormat → Option T) where
  -- The media types of formats, without those that could not be made.
  abbrev pub types_of : List VideoFormat → List T
  types_of [] = []
  types_of (f ∷ formats) = write_type media_type_from_format f (types_of formats)

  -- What the loop comes to, with `rest` to come.
  abbrev outcome : EnumMediaTypes → ℕ → List VideoFormat → EnumMediaTypes × (List T × ℕ)
  outcome e n rest = let got = min n (length rest) in (moved got e, (types_of (take n rest), got))

  abbrev nothing_at : EnumMediaTypes → ℕ → EnumMediaTypes × (List T × ℕ)
  nothing_at e n = (e, ([], n))

  unmoved : (e : EnumMediaTypes) (n : ℕ) → n ≡ 0 → nothing_at e 0 ≡ nothing_at (moved n e) n
  unmoved e n none_got =
      let here : e.position ≡ e.position + 0 = omega arith in
      ap (λ p. nothing_at (record e { position = p }) 0) here
      ∙ ap (λ m. nothing_at (moved m e) m) (sym none_got)

  one_more :
      (e : EnumMediaTypes) (f : VideoFormat) (n : ℕ) (rest : List VideoFormat)
      → let r = outcome (moved 1 e) n rest in
        (r.0, (write_type media_type_from_format f r.1.0, r.1.1 + 1)) ≡ outcome e (suc n) (f ∷ rest)
  one_more e f n rest =
      let types = write_type media_type_from_format f (types_of (take n rest)) in
      let got = min n (length rest) in
      let count : got + 1 ≡ min (suc n) (suc (length rest)) = omega arith in
      ap (λ p. (record e { position = p }, (types, got + 1))) (omega arith)
      ∙ ap (λ m. (moved m e, (types, m))) count

  next_loop-take :
      (n : ℕ) (e : EnumMediaTypes) → next_loop media_type_from_format n e ≡ outcome e n (left e)
  unfolding next_loop
  next_loop-take zero e = unmoved e _ (omega arith)
  next_loop-take (suc n) e = elim (format_at-drop e.position e.formats) [
    | inl (none_there, empty) ↦
        rw (next_loop, none_there)
          (unmoved e (min (suc n) 0) (omega arith) ∙ ap (outcome e (suc n)) (sym empty))
    | inr (f, found, more) ↦
        let following : suc e.position ≡ e.position + 1 = omega arith in
        let tail : left e ≡ f ∷ left (moved 1 e) =
          more ∙ ap (λ i. f ∷ drop i e.formats) following in
        rw (next_loop, found)
          (ap (λ r. (r.0, (write_type media_type_from_format f r.1.0, r.1.1 + 1)))
              (next_loop-take n (moved 1 e))
            ∙ one_more e f n (left (moved 1 e))
            ∙ ap (outcome e (suc n)) (sym tail))
  ]

  -- Next, asked for some media types and with an array for them: it writes those of the next formats, as
  -- many as there are and are asked for, moves on by as many, tells how many, and tells S_OK exactly if they
  -- are as many as were asked for. A media type that cannot be made is counted and not written.
  pub next-take :
      (n : ℕ) (e : EnumMediaTypes)
      → 0 < n
      → let got = min n (length (left e)) in
        next media_type_from_format n true e ≡ record {
          cursor = moved got e;
          written = types_of (take n (left e));
          fetched = got;
          result = if got == n then s_ok else s_false;
        }
  unfolding next
  next-take n e some_asked =
      let asked : (n == 0) ≡ false = ground (arith, some_asked) in
      rw (next, asked)
        (ap
          (λ r. record {
            cursor = r.0;
            written = r.1.0;
            fetched = r.1.1;
            result = if r.1.1 == n then s_ok else s_false;
          })
          (next_loop-take n e))
