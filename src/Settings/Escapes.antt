-- ===== src/Settings/Escapes.antt =====
-- `parseString` of VCamUtils/src/settings.cpp: any text can be written in quotes.
use akvirtualcamera.Base.{
  ℕ, suc, ◌+◌, ◌-◌, ◌≡◌, refl, true, false, [], ◌∷◌, ◌++◌, some, arith, ◌==◌, leb, if◌then◌else◌,
  Bytes, length, length-append, take, take-append, inl, inr, Bool-cases,
}
use akvirtualcamera.Text.{ends_in}
use akvirtualcamera.Settings.{unescape, escape_value, is_quoted, parse_string}

-- A text with every backslash doubled.
unfoldable pub escaped : Bytes → Bytes
escaped [] = []
escaped (c ∷ s) = if c == 92 then 92 ∷ 92 ∷ escaped s else c ∷ escaped s

-- In double quotes.
abbrev pub quoted : Bytes → Bytes
quoted s = 34 ∷ (escaped s ++ 34 ∷ [])

escape-backslash : escape_value 92 ≡ some 92
unfolding escape_value
escape-backslash = refl

some_more : (n : ℕ) → leb (1 + 0) (suc n) ≡ true
some_more n = ground arith

unescape-double :
    (size : ℕ) (s : Bytes) → unescape size 0 0 (92 ∷ 92 ∷ s) ≡ 92 ∷ unescape size 0 0 s
unfolding unescape
unescape-double size s = rw (some_more (length s), escape-backslash)

unescape-plain :
    (size c : ℕ) (s : Bytes)
    → (c == 92) ≡ false
    → unescape size 0 0 (c ∷ s) ≡ c ∷ unescape size 0 0 s
unfolding unescape
unescape-plain size c s e = rw e

unescape-escaped : (size : ℕ) (s : Bytes) → unescape size 0 0 (escaped s) ≡ s
unfolding escaped
unescape-escaped size [] = unfold unescape in refl
unescape-escaped size (c ∷ s) = elim (Bool-cases (c == 92)) [
  | inl e ↦ ground (arith, e, unescape-double size (escaped s), unescape-escaped size s)
  | inr e ↦ ground (arith, e, unescape-plain size c (escaped s) e, unescape-escaped size s)
]

ends_in-append : (c : ℕ) (s : Bytes) → ends_in c (s ++ c ∷ []) ≡ true
unfolding ends_in
ends_in-append c [] = ground arith
ends_in-append c (d ∷ []) = ground arith
ends_in-append c (d ∷ e ∷ s) = ends_in-append c (e ∷ s)

-- Whatever a text holds, also quotes: in double quotes with every backslash doubled it is read as the
-- text itself.
pub parse_string-quoted : (s : Bytes) → parse_string (quoted s) ≡ s
unfolding parse_string is_quoted
parse_string-quoted s =
    let size : length (quoted s) ≡ 2 + length (escaped s) =
      omega (arith, length-append (escaped s) (34 ∷ [])) in
    let closed : ends_in 34 (quoted s) ≡ true = ends_in-append 34 (34 ∷ escaped s) in
    let inner : take (length (quoted s) - 2) (escaped s ++ 34 ∷ []) ≡ escaped s =
      take-append (length (quoted s) - 2) (escaped s) (34 ∷ []) (omega (arith, size)) in
    ground (arith, size, closed, inner, unescape-escaped (length (quoted s)) s)
