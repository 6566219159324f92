-- ===== src/Preferences/Values.antt =====
-- What is written in windows/PlatformUtils/src/preferences.cpp is what is read again.
use akvirtualcamera.Base.{
  ℕ, ◌^◌, ◌<◌, ◌≡◌, ◌↔◌, refl, sym, ◌∙◌, Bool, true, false, [], ◌∷◌, ◌++◌, none, some, Bytes, ltb,
  is_empty, length, arith, All, inl, inr, Bool-cases, Option-cases,
}
use akvirtualcamera.Registry.{Registry, Value, reg_sz, reg_dword, reg_qword, Apart}
use akvirtualcamera.Preferences.{
  at_last, split_sub_key, reg_prefix, until_nul, max_path, read_value, write, read_string, text_of,
  read_int, int_from, read_int64, int64_from, through_int,
}

at_last-append :
    (front back : Bytes) → at_last back ≡ none → at_last (front ++ 92 ∷ back) ≡ some (front, back)
unfolding at_last
at_last-append [] back e = rw e refl
at_last-append (b ∷ front) back e = rw (at_last-append front back e) refl

-- A key in front of a backslash and a name without one.
pub split_sub_key-append :
    (front back : Bytes)
    → at_last back ≡ none
    → split_sub_key (front ++ 92 ∷ back) ≡ (reg_prefix ++ 92 ∷ front, back)
unfolding split_sub_key
split_sub_key-append front back e = rw (split_sub_key, at_last-append front back e) refl

-- A text that a buffer takes, and that a 0 does not end.
pub record IsText (text : Bytes) : Type 0 where
  pub fits : length text < max_path
  pub not_empty : is_empty text ≡ false
  pub no_nul : All (λ b. 0 < b) text

until_nul-same : (text : Bytes) → All (λ b. 0 < b) text → until_nul text ≡ text
unfolding until_nul
until_nul-same [] h = refl
until_nul-same (b ∷ text) h = ground (arith, h.0, until_nul-same text h.1)

pub text_of-IsText :
    (text otherwise : Bytes) → IsText text → text_of otherwise (some (reg_sz text)) ≡ text
unfolding text_of
text_of-IsText text otherwise v =
    let short : ltb (length text) max_path ≡ true = ground (arith, v.fits) in
    rw (short, until_nul-same text v.no_nul, v.not_empty) refl

-- Two keys whose values differ.
abbrev pub Away : Bool → Bytes → Bool → Bytes → Type 0
Away g key h other =
    let (k, n) = split_sub_key key in let (l, m) = split_sub_key other in Apart g k n h l m

module _ {R : Type 0} (reg : Registry R) where
  read_value_lem :
      (key : Bytes) (g : Bool) (s : R)
      → read_value reg key g s ≡ reg.get_value g (split_sub_key key).0 (split_sub_key key).1 s
  unfolding read_value
  read_value_lem key g s =
      let (k, n) = split_sub_key key in
      elim (Bool-cases (reg.has_key g k s)) [
        | inl e ↦ rw e refl
        | inr e ↦ elim (Option-cases (reg.get_value g k n s)) [
          | inl e' ↦ rw (e, e') refl
          | inr (v, e') ↦ absurd (ground (arith, e, reg.found_in_key g k n v s e'))
        ]
      ]

  pub read_value-write :
      (key : Bytes) (v : Value) (g : Bool) (s : R)
      → (write reg key v g s).1 ≡ true
      → read_value reg key g (write reg key v g s).0 ≡ some v
  unfolding write
  read_value-write key v g s ok =
      let (k, n) = split_sub_key key in
      read_value_lem key g (write reg key v g s).0 ∙ elim (Bool-cases (reg.create_key g k s).1) [
        | inl e ↦ rw e (reg.set_found g k n v (reg.create_key g k s).0 (rw e at ok))
        | inr e ↦ absurd (ground (arith, rw e at ok))
      ]

  pub read_value-Away :
      (key : Bytes) (g : Bool) (other : Bytes) (v : Value) (h : Bool) (s : R)
      → Away g key h other
      → read_value reg key g (write reg other v h s).0 ≡ read_value reg key g s
  unfolding write
  read_value-Away key g other v h s away =
      let (k, n) = split_sub_key key in
      let (l, m) = split_sub_key other in
      let t = (reg.create_key h l s).0 in
      let kept : reg.get_value g k n t ≡ reg.get_value g k n s = reg.create_keeps g h k l n s in
      read_value_lem key g (write reg other v h s).0 ∙ elim (Bool-cases (reg.create_key h l s).1) [
        | inl e ↦ rw e (reg.set_keeps g k n h l m v t away ∙ kept ∙ sym (read_value_lem key g s))
        | inr e ↦ rw e (kept ∙ sym (read_value_lem key g s))
      ]

  -- Where a write is a success, the text is read again as it was written, if it is not empty, has no 0
  -- and is shorter than MAX_PATH; an int of 32 bits is read again as it was written; whatever values
  -- stand in its place before, and whatever is to be read where there is none.
  pub read-write :
      (key : Bytes) (g : Bool) (text otherwise : Bytes) (w v : ℕ) (s : R)
      → IsText text
      → (write reg key (reg_sz text) g s).1 ≡ true
      → (write reg key (reg_dword w) g s).1 ≡ true
      → (read_string reg key otherwise g (write reg key (reg_sz text) g s).0 ≡ text)
        × (read_int reg key v g (write reg key (reg_dword w) g s).0 ≡ w)
  unfolding read_string read_int int_from
  read-write key g text otherwise w v s t ok ok' = (
    rw (read_value-write key (reg_sz text) g s ok) (text_of-IsText text otherwise t),
    rw (read_value-write key (reg_dword w) g s ok') refl,
  )

  through_int-same : (w : ℕ) → w < 2 ^ 63 → (through_int w ≡ w) ↔ (w < 2 ^ 31)
  unfolding through_int
  through_int-same w h = ground arith

  -- What readInt64 reads behind the write of a size below 2^63 is that size exactly if it is below
  -- 2^31: the value goes through an int.
  pub read_int64-write :
      (key : Bytes) (g : Bool) (w otherwise : ℕ) (s : R)
      → w < 2 ^ 63
      → (write reg key (reg_qword w) g s).1 ≡ true
      → (read_int64 reg key otherwise g (write reg key (reg_qword w) g s).0 ≡ w) ↔ (w < 2 ^ 31)
  unfolding read_int64 int64_from
  read_int64-write key g w otherwise s h ok =
      rw (read_value-write key (reg_qword w) g s ok) (through_int-same w h)
