-- ===== src/Enumerator/Whole.antt =====
-- The calls of Next of windows/dshow/BaseFilter/src/enummediatypes.cpp that enumerate all formats.
use akvirtualcamera.Base.{
  ℕ, zero, suc, ◌+◌, ◌<◌, ◌≤◌, ◌≡◌, refl, sym, ap, ◌∙◌, Bool, true, List, [], ◌∷◌, ◌++◌, Option,
  none, some, ◌==◌, if◌then◌else◌, length, take, drop, min, arith, inl, inr, Bool-cases,
  length-drop, ◌>>=◌,
}
use akvirtualcamera.Enumerator.{
  EnumMediaTypes, s_ok, s_false, e_invalidarg, e_pointer, Fetched, write_type, next,
}
use akvirtualcamera.Enumerator.Rest.{left, moved, types_of, next-take, drop-nil}
use akvirtualcamera.Video.Format.{VideoFormat}

drop-drop : (m n : ℕ) (xs : List VideoFormat) → drop (m + n) xs ≡ drop n (drop m xs)
drop-drop zero n xs = (let same : zero + n ≡ n = omega arith in ap (λ k. drop k xs) same)
drop-drop (suc m) n [] = drop-nil (suc m + n) ∙ sym (drop-nil n)
drop-drop (suc m) n (x ∷ xs) =
    let same : suc m + n ≡ suc (m + n) = omega arith in
    ap (λ k. drop k (x ∷ xs)) same ∙ drop-drop m n xs

take_all : (n : ℕ) (xs : List VideoFormat) → length xs ≤ n → take n xs ≡ xs
take_all zero [] h = refl
take_all zero (x ∷ xs) h = absurd (omega arith)
take_all (suc n) [] h = refl
take_all (suc n) (x ∷ xs) h = ap (◌∷◌ x) (take_all n xs (omega arith))

module _ {T : Type 0} (media_type_from_format : VideoFormat → Option T) where
  -- Behind a call of Next; `rest` are the calls to follow.
  abbrev pub go_on : (EnumMediaTypes → Option (List T)) → Fetched T → Option (List T)
  go_on rest r = elim r.result [
    | s_ok ↦ (do more ← rest r.cursor; some (r.written ++ more))
    | s_false ↦ some r.written
    | e_invalidarg ↦ none
    | e_pointer ↦ none
  ]

  -- Calls of Next for `c` media types each, until one does not give as many; `none` is more of them than
  -- `fuel`.
  abbrev pub fetch_all : ℕ → ℕ → EnumMediaTypes → Option (List T)
  fetch_all zero c e = none
  fetch_all (suc fuel) c e = go_on (fetch_all fuel c) (next media_type_from_format c true e)

  written_or_not :
      (o : Option T) (a b : List T)
      → (elim o [ none ↦ a | some t ↦ t ∷ a ]) ++ b
        ≡ (elim o [ none ↦ a ++ b | some t ↦ t ∷ (a ++ b) ])
  written_or_not none a b = refl
  written_or_not (some t) a b = refl

  write_type-append :
      (f : VideoFormat) (a b : List T)
      → write_type media_type_from_format f a ++ b ≡ write_type media_type_from_format f (a ++ b)
  unfolding write_type
  write_type-append f a b = written_or_not (media_type_from_format f) a b

  types_of-split :
      (n : ℕ) (fs : List VideoFormat)
      → types_of media_type_from_format (take n fs) ++ types_of media_type_from_format (drop n fs)
        ≡ types_of media_type_from_format fs
  types_of-split zero fs = refl
  types_of-split (suc n) [] = refl
  types_of-split (suc n) (f ∷ fs) =
      write_type-append f _ _ ∙ ap (write_type media_type_from_format f) (types_of-split n fs)

  -- However many media types are asked for at a time, calls of Next until one gives fewer than that come to
  -- an end, and give those of the formats that were left, each once and in their order; one call more than
  -- there are formats left is enough.
  pub fetch_all-left :
      (fuel c : ℕ) (e : EnumMediaTypes)
      → 0 < c
      → length (left e) < fuel
      → fetch_all fuel c e ≡ some (types_of media_type_from_format (left e))
  fetch_all-left zero c e some_asked enough = absurd (omega arith)
  fetch_all-left (suc fuel) c e some_asked enough =
      let got = min c (length (left e)) in
      let types = types_of media_type_from_format in
      let behind = λ (b : Bool). go_on (fetch_all fuel c) (record {
        cursor = moved got e;
        written = types (take c (left e));
        fetched = got;
        result = if b then s_ok else s_false;
      }) in
      ap (go_on (fetch_all fuel c)) (next-take media_type_from_format c e some_asked)
      ∙ elim (Bool-cases (got == c)) [
        | inr few ↦
            let less : length (left e) ≤ c = ground (arith, few) in
            ap behind few ∙ ap (λ fs. some (types fs)) (take_all c (left e) less)
        | inl many ↦
            let all_got : got ≡ c = ground (arith, many) in
            let rest : length (left (moved c e)) < fuel = omega (
              arith,
              ap length (drop-drop e.position c e.formats),
              length-drop c (left e),
              all_got,
            ) in
            let join =
              λ (o : Option (List T)). (do more ← o; some (types (take c (left e)) ++ more)) in
            ap behind many
            ∙ ap (λ n. join (fetch_all fuel c (moved n e))) all_got
            ∙ ap join (fetch_all-left fuel c (moved c e) some_asked rest)
            ∙ ap (λ fs. some (types (take c (left e)) ++ types fs))
                (drop-drop e.position c e.formats)
            ∙ ap some (types_of-split c (left e))
      ]
