-- ===== src/Examples/Texts.antt =====
-- The theorems on strings and settings at concrete texts.
use akvirtualcamera.Base.{◌≡◌, refl, [], ◌∷◌, some, Bytes, codes, List, str_eq}
use akvirtualcamera.Base.StdMap.{StdMap, assign, ensure, find_or}
use akvirtualcamera.Text.{ends_in, find_text, trimmed, split_once}
use akvirtualcamera.Settings.{
  parse, parse_string, unescape, escape_value, is_quoted, hex_value, hex_digit,
}
use akvirtualcamera.Settings.Escapes.{quoted, parse_string-quoted}
use akvirtualcamera.Settings.Store.{GroupMap, load_element, load_lines}
use akvirtualcamera.Settings.Store.Lookup.{stored, last_value, load_lines-last_value}

parse_string-quoted_example : parse_string (quoted (codes "C:\\new 'x'")) ≡ codes "C:\\new 'x'"
parse_string-quoted_example = parse_string-quoted (codes "C:\\new 'x'")

abbrev lines : List Bytes
lines = codes "[Cameras]" ∷ codes "size = 1" ∷ codes "# none" ∷ codes "size = 2" ∷ []

abbrev loaded : StdMap GroupMap
loaded = (codes "Cameras", (codes "size", codes "2") ∷ []) ∷ []

lines_load : load_lines lines [] [] ≡ some loaded
unfolding load_lines parse ends_in find_text trimmed split_once load_element parse_string assign
    ensure str_eq find_or
lines_load = refl

load_lines-last_value_example :
    stored (codes "Cameras") (codes "size") loaded
    ≡ last_value
        (codes "Cameras")
        (codes "size")
        lines
        []
        (stored (codes "Cameras") (codes "size") [])
load_lines-last_value_example =
    load_lines-last_value (codes "Cameras") (codes "size") lines [] loaded [] lines_load

-- Runs of the functions, to compare with the source.
trimmed_both : trimmed (codes "  a b\t") ≡ codes "a b"
unfolding trimmed
trimmed_both = refl

trimmed_blank : trimmed (codes " \t ") ≡ []
unfolding trimmed
trimmed_blank = refl

unquoted_tab : parse_string (codes "a\\tb") ≡ codes "a\tb"
unfolding parse_string unescape escape_value is_quoted ends_in
unquoted_tab = refl

unquoted_hex : parse_string (codes "\\x41b") ≡ codes "Ab"
unfolding parse_string unescape escape_value is_quoted ends_in hex_value hex_digit
unquoted_hex = refl

-- The escape is not read where the text ends right behind it.
unquoted_end : parse_string (codes "a\\t") ≡ codes "a\\t"
unfolding parse_string unescape escape_value is_quoted ends_in
unquoted_end = refl

-- One digit, where the size of the text is 3.
short_hex : parse_string (codes "\\xA") ≡ 10 ∷ []
unfolding parse_string unescape escape_value is_quoted ends_in hex_value hex_digit
short_hex = refl
