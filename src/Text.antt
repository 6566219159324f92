-- ===== src/Text.antt =====
-- VCamUtils/src/utils.cpp: the functions on strings. A string is its bytes.
pub mod Decimal
pub mod Pieces
use akvirtualcamera.Base.{
  ℕ, ◌+◌, ◌-◌, Bool, true, false, not, ◌&&◌, ◌||◌, List, [], ◌∷◌, ◌++◌, Option, none, some, ltb,
  leb, ◌==◌, if◌then◌else◌, Bytes, str_eq, is_empty, length, take, drop, reverse,
}

-- std::isspace of the "C" locale.
unfoldable pub is_space : ℕ → Bool
is_space c = c == 32 || (leb 9 c && leb c 13)

-- The index of the first character that is no space: the first loop of `trimmed`.
unfoldable pub first_unspaced : Bytes → Option ℕ
unfolding is_space
first_unspaced [] = none
first_unspaced (c ∷ s) =
    if is_space c then elim (first_unspaced s) [ none ↦ none | some i ↦ some (i + 1) ] else some 0

-- The second loop looks from the end on.
unfoldable pub last_unspaced : Bytes → Option ℕ
unfolding first_unspaced
last_unspaced s = elim (first_unspaced (reverse s)) [
  | none ↦ none
  | some i ↦ some (length s - 1 - i)
]

unfoldable pub trimmed : Bytes → Bytes
unfolding first_unspaced last_unspaced
trimmed s = elim (first_unspaced s) [
  | none ↦ []
  | some left ↦ elim (last_unspaced s) [
    | none ↦ take (length s - left + 1) (drop left s)
    | some right ↦ take (right - left + 1) (drop left s)
  ]
]

unfoldable pub join : List Bytes → Bytes → Bytes
join [] separator = []
join (s ∷ []) separator = s
join (s ∷ t ∷ ss) separator = s ++ (separator ++ join (t ∷ ss) separator)

-- The loop of `split`: the elements, and the characters behind the last separator.
unfoldable pub split_from : Bytes → ℕ → Bytes → List Bytes × Bytes
split_from sub separator [] = ([], sub)
split_from sub separator (c ∷ s) =
    let ended = split_from [] separator s in
    let more = split_from (sub ++ c ∷ []) separator s in
    if c == separator then (sub ∷ ended.0, ended.1) else more

-- *str.rbegin() == separator.
unfoldable pub ends_in : ℕ → Bytes → Bool
ends_in separator [] = false
ends_in separator (c ∷ []) = c == separator
ends_in separator (c ∷ d ∷ s) = ends_in separator (d ∷ s)

unfoldable pub split : Bytes → ℕ → List Bytes
unfolding split_from ends_in
split [] separator = []
split (c ∷ s) separator =
    let (elements, sub) = split_from [] separator (c ∷ s) in
    if not (is_empty sub) || ends_in separator (c ∷ s) then elements ++ sub ∷ [] else elements

-- std::string::find.
unfoldable pub starts_with : Bytes → Bytes → Bool
starts_with s [] = true
starts_with [] (b ∷ t) = false
starts_with (a ∷ s) (b ∷ t) = a == b && starts_with s t

unfoldable pub find_text : Bytes → Bytes → Option ℕ
unfolding starts_with
find_text [] t = if starts_with [] t then some 0 else none
find_text (c ∷ s) t =
    if starts_with (c ∷ s) t
    then some 0
    else elim (find_text s t) [ none ↦ none | some i ↦ some (i + 1) ]

-- It drops one character behind `first`, whatever the size of the separator.
unfoldable pub split_once : Bytes → Bytes → Bytes × Bytes
unfolding find_text
split_once s separator = elim (find_text s separator) [
  | none ↦ (s, [])
  | some pos ↦ (take pos s, if ltb (pos + 1) (length s) then drop (pos + 1) s else [])
]

unfoldable pub ends_with : Bytes → Bytes → Bool
unfolding str_eq
ends_with s sub =
    if ltb (length s) (length sub)
    then false
    else str_eq (take (length sub) (drop (length s - length sub) s)) sub
