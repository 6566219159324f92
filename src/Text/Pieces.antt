-- ===== src/Text/Pieces.antt =====
-- `split`, `join`, `splitOnce` and `endsWith` of VCamUtils/src/utils.cpp.
use akvirtualcamera.Base.{
  ℕ, ◌≡◌, refl, sym, ap, ◌∙◌, inl, inr, Bool-cases, not, ◌||◌, is_empty, true, List, [], ◌∷◌, ◌++◌,
  arith, ◌==◌, Bytes, append_assoc, append-nil,
}
use akvirtualcamera.Text.{split_from, ends_in, split, join}

-- What the loop of `split` has read, written back with the separators.
abbrev joined : ℕ → List Bytes × Bytes → Bytes
joined separator ([], sub) = sub
joined separator (e ∷ es, sub) = e ++ (separator ∷ joined separator (es, sub))

ends_somewhere : (sub : Bytes) (c : ℕ) → sub ++ c ∷ [] ≡ [] → ⊥
ends_somewhere [] c e = cc
ends_somewhere (b ∷ sub) c e = cc

split_from-joined :
    (sub : Bytes) (separator : ℕ) (s : Bytes)
    → joined separator (split_from sub separator s) ≡ sub ++ s
unfolding split_from
split_from-joined sub separator [] = sym (append-nil sub)
split_from-joined sub separator (c ∷ s) = elim (Bool-cases (c == separator)) [
  | inl e ↦
      let same : c ≡ separator = ground (arith, e) in
      rw e (
        ap (λ (t : Bytes). sub ++ t)
          (ap (λ (t : Bytes). separator ∷ t) (split_from-joined [] separator s)
            ∙ ap (λ (d : ℕ). d ∷ s) (sym same)))
  | inr e ↦ rw e (split_from-joined (sub ++ c ∷ []) separator s ∙ append_assoc sub (c ∷ []) s)
]

join-joined :
    (separator : ℕ) (es : List Bytes) (sub : Bytes)
    → join (es ++ sub ∷ []) (separator ∷ []) ≡ joined separator (es, sub)
unfolding join
join-joined separator [] sub = refl
join-joined separator (e ∷ []) sub = refl
join-joined separator (e ∷ f ∷ es) sub =
    ap (λ (t : Bytes). e ++ (separator ∷ t)) (join-joined separator (f ∷ es) sub)

-- Nothing is left behind the last separator only where the text ends in it.
unfinished :
    (sub : Bytes) (separator : ℕ) (c : ℕ) (s : Bytes)
    → (split_from sub separator (c ∷ s)).1 ≡ []
    → ends_in separator (c ∷ s) ≡ true
unfolding split_from ends_in
unfinished sub separator c [] e = elim (Bool-cases (c == separator)) [
  | inl h ↦ h
  | inr h ↦ absurd (ends_somewhere sub c (ground (arith, h)))
]
unfinished sub separator c (d ∷ s) e = elim (Bool-cases (c == separator)) [
  | inl h ↦ unfinished [] separator d s (ground (arith, h))
  | inr h ↦ unfinished (sub ++ c ∷ []) separator d s (ground (arith, h))
]

-- Every text is its pieces, joined again.
pub join-split : (s : Bytes) (separator : ℕ) → join (split s separator) (separator ∷ []) ≡ s
unfolding split
join-split [] separator = unfold join in refl
join-split (c ∷ s) separator =
    let whole = split_from-joined [] separator (c ∷ s) in
    let parts = split_from [] separator (c ∷ s) in
    let same = join-joined separator parts.0 parts.1 ∙ whole in
    elim (Bool-cases (not (is_empty parts.1) || ends_in separator (c ∷ s))) [
      | inl e ↦ rw e same
      | inr e ↦ absurd (ground (arith, e, unfinished [] separator c s))
    ]
