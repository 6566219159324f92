-- ===== src/Settings.antt =====
-- VCamUtils/src/settings.cpp: how a line of a settings file is read. A text is its bytes.
pub mod Escapes
pub mod Store
use akvirtualcamera.Base.{
  ℕ, zero, suc, ◌+◌, ◌*◌, ◌-◌, Bool, true, false, not, ◌&&◌, ◌||◌, List, [], ◌∷◌, Option, none,
  some, leb, ltb, ◌==◌, if◌then◌else◌, Bytes, is_empty, length, take, drop, map,
}
use akvirtualcamera.Text.{trimmed, split_once, find_text, ends_in, is_space}

pub record SettingsElement : Type 0 where
  pub group : Bytes
  pub key : Bytes
  pub value : Bytes

abbrev pub no_element : SettingsElement
no_element = record { group = []; key = []; value = [] }

unfoldable pub element_is_empty : SettingsElement → Bool
element_is_empty e = is_empty e.group && (is_empty e.key && is_empty e.value)

-- `escape_k` and `escape_v`; strchr finds the terminator too, and gives the terminator.
unfoldable pub escape_value : ℕ → Option ℕ
escape_value k =
    if k == 39 || (k == 34 || (k == 63 || k == 92))
    then some k
    else if k == b'a'
    then some 7
    else if k == b'b'
    then some 8
    else if k == b'f'
    then some 12
    else if k == b'n'
    then some 10
    else if k == b'r'
    then some 13
    else if k == b't'
    then some 9
    else if k == b'v'
    then some 11
    else if k == b'0' || k == 0
    then some 0
    else none

unfoldable pub hex_digit : ℕ → Option ℕ
hex_digit c =
    if leb b'0' c && leb c b'9'
    then some (c - b'0')
    else if leb b'a' c && leb c b'f'
    then some (c - b'a' + 10)
    else if leb b'A' c && leb c b'F'
    then some (c - b'A' + 10)
    else none

-- strtol of the characters `a` and `b` in base 16 as a char, or `none` where it does not read to the
-- end: it skips a space and takes a sign, and a NUL ends the text.
unfoldable pub hex_value : ℕ → ℕ → Option ℕ
unfolding hex_digit
hex_value a b = if a == 0 then some 0 else elim (hex_digit a) [
  | some i ↦
      if b == 0 then some i else elim (hex_digit b) [ none ↦ none | some j ↦ some (16 * i + j) ]
  | none ↦ elim (hex_digit b) [
    | none ↦ none
    | some j ↦
        if is_space a || a == b'+'
        then some j
        else if a == b'-'
        then some (if j == 0 then 0 else 256 - j)
        else none
  ]
]

-- The character at an index; behind the end there is the terminator.
abbrev pub char_at : Bytes → ℕ → ℕ
char_at [] i = 0
char_at (c ∷ s) zero = c
char_at (c ∷ s) (suc i) = char_at s i

-- The loop of `parseString` over the characters before `end`, where the next `skip` of them are
-- already read. The tests of `i` against the size ask for `slack` further characters: none inside
-- quotes, since the closing quote follows, and 1 without quotes. The test of `i < size - 4` holds
-- always where `size` is below 4, since the difference wraps.
unfoldable pub unescape : ℕ → ℕ → ℕ → Bytes → Bytes
unescape size slack skip [] = []
unescape size slack (suc skip) (c ∷ s) = unescape size slack skip s
unescape size slack zero (c ∷ s) =
    let plain = c ∷ unescape size slack 0 s in
    let behind_key = unescape size slack 1 s in
    let behind_hex = unescape size slack 3 s in
    if c == 92 && leb (1 + slack) (length s)
    then elim (escape_value (char_at s 0)) [
      | some v ↦ v ∷ behind_key
      | none ↦
          if char_at s 0 == b'x' && (ltb size 4 || leb (3 + slack) (length s))
          then elim (hex_value (char_at s 1) (char_at s 2)) [
            | none ↦ plain
            | some v ↦ v ∷ behind_hex
          ]
          else plain
    ]
    else plain

unfoldable pub is_quoted : Bytes → Bool
is_quoted s = (char_at s 0 == 34 || char_at s 0 == 39) && ends_in (char_at s 0) s

unfoldable pub parse_string : Bytes → Bytes
unfolding is_quoted
parse_string s =
    if ltb (length s) 2
    then s
    else if is_quoted s
    then unescape (length s) 0 0 (take (length s - 2) (drop 1 s))
    else unescape (length s) 1 0 s

abbrev slashed : ℕ → ℕ
slashed c = if c == 92 then 47 else c

-- `parse`; `none` is `ok` false.
unfoldable pub parse : Bytes → Option SettingsElement
parse [] = some no_element
parse (c ∷ s) =
    let line = c ∷ s in
    let (first, second) = split_once line (61 ∷ []) in
    let key = map slashed (trimmed first) in
    if c == b'#' || c == b';'
    then some no_element
    else if c == b'['
    then (if not (ends_in b']' line) || ltb (length line) 3
        then none
        else some (record no_element { group = trimmed (take (length line - 2) (drop 1 line)) }))
    else elim (find_text line (61 ∷ [])) [
      | none ↦ none
      | some pos ↦
          if is_empty key
          then none
          else some (record { group = []; key = key; value = parse_string (trimmed second) })
    ]
