-- ===== src/Number/FractionText.antt =====
-- VCamUtils/src/fraction.cpp: a Fraction as a text, and from one. `strtol` is the function of the C
-- library, for base 10, as a parameter.
use mathlib.Core.List.{reverse_aux}
use akvirtualcamera.Base.{
  ℕ, suc, ◌+◌, ◌-◌, ◌%◌, ◌^◌, ◌≤◌, ◌<◌, ◌≡◌, refl, ap, sym, ◌∙◌, false, [], ◌∷◌, ◌++◌, none, some,
  Bytes, ltb, if◌then◌else◌, take, drop, length, reverse, is_empty, All, arith, take-append,
  append-nil,
}
use akvirtualcamera.Base.Int.{ℤ, pos, negsuc, pos_part, neg_part}
use akvirtualcamera.Number.Fraction.{Fraction}
use akvirtualcamera.Text.{is_space, first_unspaced, last_unspaced, trimmed, starts_with, find_text}
use akvirtualcamera.Text.Decimal.{
  to_string, decimal_value, decimal_value-to_string, IsDigit, to_string-IsDigit, to_string-nonempty,
}

-- How an int64_t is written to a stream.
unfoldable pub int64_to_string : ℤ → Bytes
unfolding to_string
int64_to_string (pos n) = to_string n
int64_to_string (negsuc n) = 45 ∷ to_string (suc n)

-- `toString`.
unfoldable pub fraction_to_string : Fraction → Bytes
unfolding int64_to_string
fraction_to_string f = int64_to_string f.num ++ 47 ∷ int64_to_string f.den

-- uint32_t(v).
unfoldable pub uint32_of : ℤ → ℕ
uint32_of v = (pos_part v + (2 ^ 32 - neg_part v % 2 ^ 32)) % 2 ^ 32

abbrev pub fraction : ℕ → ℕ → Fraction
fraction n d = record { num = pos n; den = pos d }

-- The constructor from a text.
unfoldable pub fraction_from_string : (Bytes → ℤ) → Bytes → Fraction
unfolding find_text trimmed uint32_of
fraction_from_string strtol str = elim (find_text str (47 ∷ [])) [
  | none ↦ fraction (uint32_of (strtol (trimmed str))) 1
  | some p ↦
      let num = uint32_of (strtol (trimmed (take p str))) in
      let den = uint32_of (strtol (trimmed (drop (p + 1) str))) in
      if ltb den 1 then fraction 0 1 else fraction num den
]

-- What the C library says of strtol on digits whose number fits the `long` of every system.
abbrev pub ReadsDigits : (Bytes → ℤ) → Type 0
ReadsDigits strtol =
    (s : Bytes)
    → All IsDigit s
    → is_empty s ≡ false
    → decimal_value 0 s < 2 ^ 31
    → strtol s ≡ pos (decimal_value 0 s)

digit_unspaced : (c : ℕ) → IsDigit c → is_space c ≡ false
unfolding is_space
digit_unspaced c h = ground arith

first_digit : (s : Bytes) → All IsDigit s → is_empty s ≡ false → first_unspaced s ≡ some 0
unfolding first_unspaced
first_digit [] h e = absurd (ground (arith, e))
first_digit (c ∷ s) h e = rw (digit_unspaced c h.0) refl

reverse_aux-IsDigit : (s t : Bytes) → All IsDigit s → All IsDigit t → All IsDigit (reverse_aux s t)
reverse_aux-IsDigit [] t h k = k
reverse_aux-IsDigit (c ∷ s) t h k = reverse_aux-IsDigit s (c ∷ t) h.1 (h.0, k)

reverse_aux-nonempty : (s t : Bytes) → is_empty t ≡ false → is_empty (reverse_aux s t) ≡ false
reverse_aux-nonempty [] t h = h
reverse_aux-nonempty (c ∷ s) t h = reverse_aux-nonempty s (c ∷ t) refl

last_digit :
    (s : Bytes) → All IsDigit s → is_empty s ≡ false → last_unspaced s ≡ some (length s - 1)
unfolding last_unspaced
last_digit [] h e = absurd (ground (arith, e))
last_digit (c ∷ s) h e =
    rw
      (
        last_unspaced,
        first_digit (reverse (c ∷ s)) (reverse_aux-IsDigit (c ∷ s) [] h tt)
            (reverse_aux-nonempty s (c ∷ []) refl),
      )
      (ap some (omega arith))

trimmed-digits : (s : Bytes) → All IsDigit s → is_empty s ≡ false → trimmed s ≡ s
unfolding trimmed
trimmed-digits s h e = rw (trimmed, first_digit s h e, last_digit s h e) (whole s e)
  where
    whole : (s : Bytes) → is_empty s ≡ false → take (length s - 1 - 0 + 1) (drop 0 s) ≡ s
    whole (c ∷ s) e =
        let all : length (c ∷ s) - 1 - 0 + 1 ≡ length (c ∷ s) = omega arith in
        ap (λ n. take n (c ∷ s)) all
        ∙ ap (take (length (c ∷ s))) (sym (append-nil (c ∷ s)))
        ∙ take-append (length (c ∷ s)) (c ∷ s) [] refl
    whole [] e = absurd (ground (arith, e))

find_slash : (s t : Bytes) → All IsDigit s → find_text (s ++ 47 ∷ t) (47 ∷ []) ≡ some (length s)
unfolding find_text starts_with
find_slash [] t h = ground arith
find_slash (c ∷ s) t h = ground (arith, find_slash s t h.1, h.0)

digits_read :
    (strtol : Bytes → ℤ) (n : ℕ)
    → ReadsDigits strtol
    → n < 2 ^ 31
    → uint32_of (strtol (trimmed (to_string n))) ≡ n
unfolding uint32_of
digits_read strtol n law small =
    let value = decimal_value-to_string n (omega arith) in
    let read =
      law (to_string n) (to_string-IsDigit n) (to_string-nonempty n) (omega (arith, value)) in
    rw (trimmed-digits (to_string n) (to_string-IsDigit n) (to_string-nonempty n), read, value)
      (omega arith)

-- A fraction whose numbers are from 0 on and fit an int, with a denominator that is not 0, is read again
-- as it was written.
pub fraction_from_string-fraction_to_string :
    (strtol : Bytes → ℤ) (n d : ℕ)
    → ReadsDigits strtol
    → n < 2 ^ 31
    → 1 ≤ d
    → d < 2 ^ 31
    → fraction_from_string strtol (fraction_to_string (fraction n d)) ≡ fraction n d
unfolding fraction_from_string fraction_to_string int64_to_string
fraction_from_string-fraction_to_string strtol n d law small one less =
    let first = to_string n in
    let second = to_string d in
    rw
      (
        fraction_from_string,
        fraction_to_string,
        int64_to_string,
        find_slash first second (to_string-IsDigit n),
        take-append (length first) first (47 ∷ second) refl,
        behind first second,
        digits_read strtol n law small,
        digits_read strtol d law less,
      )
      (at_least_one n d one)
  where
    behind : (s t : Bytes) → drop (length s + 1) (s ++ 47 ∷ t) ≡ t
    behind [] t = refl
    behind (c ∷ s) t =
        let longer : length (c ∷ s) + 1 ≡ suc (length s + 1) = omega arith in
        ap (λ n. drop n ((c ∷ s) ++ 47 ∷ t)) longer ∙ behind s t

    at_least_one :
        (n d : ℕ) → 1 ≤ d → (if ltb d 1 then fraction 0 1 else fraction n d) ≡ fraction n d
    at_least_one n d one = ground arith
