-- ===== src/Text/Decimal.antt =====
-- std::to_string of a size_t, and of an int from its 32 bits.
use akvirtualcamera.Base.{
  ℕ, zero, suc, ◌+◌, ◌-◌, ◌*◌, ◌/◌, ◌%◌, ◌^◌, ◌<◌, ◌≤◌, ◌≡◌, refl, sym, ap, ◌∙◌, false, [], ◌∷◌,
  Bytes, ltb, if◌then◌else◌, arith, All, is_empty, inl, inr, Bool-cases,
}
use native.Mathlib.Nat.{pow-suc}

-- The digits of a number in front of the text; `fuel` of them at most.
unfoldable pub digits : ℕ → ℕ → Bytes → Bytes
digits zero n text = text
digits (suc fuel) n text =
    let longer = (48 + n % 10) ∷ text in
    let rest = digits fuel (n / 10) longer in if ltb n 10 then longer else rest

-- A size_t has 20 digits at most.
unfoldable pub to_string : ℕ → Bytes
unfolding digits
to_string n = digits 20 n []

unfoldable pub int_to_string : ℕ → Bytes
unfolding to_string
int_to_string w = if ltb w (2 ^ 31) then to_string w else 45 ∷ to_string (2 ^ 32 - w)

-- The number that digits stand for, behind a number in front of them.
unfoldable pub decimal_value : ℕ → Bytes → ℕ
decimal_value v [] = v
decimal_value v (b ∷ bs) = decimal_value (v * 10 + (b - 48)) bs

decimal_value-digits :
    (fuel n : ℕ) (text : Bytes)
    → n < 10 ^ fuel
    → decimal_value 0 (digits fuel n text) ≡ decimal_value n text
unfolding digits decimal_value
decimal_value-digits zero n text small = ap (λ v. decimal_value v text) (omega arith)
decimal_value-digits (suc fuel) n text small = elim (Bool-cases (ltb n 10)) [
  | inl e ↦
      rw e (ap (λ v. decimal_value v text) (let less : n < 10 = ground (arith, e) in omega arith))
  | inr e ↦ rw e (
      decimal_value-digits fuel (n / 10) ((48 + n % 10) ∷ text) (omega (arith, pow-suc 10 fuel))
      ∙ ap (λ v. decimal_value v text) (omega arith))
]

pub decimal_value-to_string : (n : ℕ) → n < 10 ^ 20 → decimal_value 0 (to_string n) ≡ n
unfolding to_string decimal_value
decimal_value-to_string n small = decimal_value-digits 20 n [] small

-- Two sizes that are written alike are the same.
pub to_string_injective : (m n : ℕ) → m < 10 ^ 20 → n < 10 ^ 20 → to_string m ≡ to_string n → m ≡ n
to_string_injective m n hm hn e =
    sym (decimal_value-to_string m hm) ∙ ap (decimal_value 0) e ∙ decimal_value-to_string n hn

abbrev pub IsDigit : ℕ → Type 0
IsDigit b = (48 ≤ b) × (b ≤ 57)

digits-IsDigit : (fuel n : ℕ) (text : Bytes) → All IsDigit text → All IsDigit (digits fuel n text)
unfolding digits
digits-IsDigit zero n text h = h
digits-IsDigit (suc fuel) n text h =
    let longer : All IsDigit ((48 + n % 10) ∷ text) = ((omega arith, omega arith), h) in
    elim (Bool-cases (ltb n 10)) [
      | inl e ↦ rw e longer
      | inr e ↦ rw e (digits-IsDigit fuel (n / 10) ((48 + n % 10) ∷ text) longer)
    ]

pub to_string-IsDigit : (n : ℕ) → All IsDigit (to_string n)
unfolding to_string
to_string-IsDigit n = digits-IsDigit 20 n [] tt

digits-nonempty :
    (fuel n : ℕ) (text : Bytes) → is_empty text ≡ false → is_empty (digits fuel n text) ≡ false
unfolding digits
digits-nonempty zero n text h = h
digits-nonempty (suc fuel) n text h = elim (Bool-cases (ltb n 10)) [
  | inl e ↦ rw e refl
  | inr e ↦ rw e (digits-nonempty fuel (n / 10) ((48 + n % 10) ∷ text) refl)
]

pub to_string-nonempty : (n : ℕ) → is_empty (to_string n) ≡ false
unfolding to_string digits
to_string-nonempty n = elim (Bool-cases (ltb n 10)) [
  | inl e ↦ rw e refl
  | inr e ↦ rw e (digits-nonempty 19 (n / 10) ((48 + n % 10) ∷ []) refl)
]
