-- ===== src/Settings/Store.antt =====
-- The class Settings of VCamUtils/src/settings.cpp: its state, `load` and the access to its values.
pub mod Lookup
use akvirtualcamera.Base.{
  ℕ, zero, suc, ◌+◌, ◌/◌, ◌%◌, ◌^◌, Bool, true, false, not, ◌&&◌, ◌||◌, List, [], ◌∷◌, ◌++◌, Option,
  none, some, ltb, if◌then◌else◌, Bytes, codes, is_empty, map,
}
use akvirtualcamera.Base.StdMap.{StdMap, find_or, assign, ensure, contains}
use akvirtualcamera.Settings.{SettingsElement, element_is_empty, parse}

abbrev pub GroupMap : Type 0
GroupMap = StdMap Bytes

abbrev pub general : Bytes
general = codes "General"

pub record Settings : Type 0 where
  pub configs : StdMap GroupMap
  pub current_group : Bytes
  pub current_array : Bytes
  pub array_index : ℕ

unfoldable pub clear : Settings → Settings
clear s = record { configs = []; current_group = []; current_array = []; array_index = 0 }

-- One round of the loop of `load` behind `parse`: the groups and `currentGroup`.
unfoldable pub load_element : SettingsElement → StdMap GroupMap → Bytes → StdMap GroupMap × Bytes
unfolding element_is_empty
load_element e configs group =
    if element_is_empty e
    then (configs, group)
    else if not (is_empty e.group)
    then (ensure e.group [] configs, e.group)
    else if not (is_empty e.key) && not (is_empty e.value)
    then (let g = if is_empty group then general else group in
        let configs' = ensure g [] configs in
        (assign g (assign e.key e.value (find_or [] g configs')) configs', g))
    else (configs, group)

-- The loop of `load` on the lines that getline gives; `none` where a line is refused.
unfoldable pub load_lines : List Bytes → StdMap GroupMap → Bytes → Option (StdMap GroupMap)
load_lines [] configs group = some configs
load_lines (line ∷ lines) configs group = elim (parse line) [
  | none ↦ none
  | some e ↦
      let (configs', group') = load_element e configs group in load_lines lines configs' group'
]

-- `load`, of the lines of the file; `none` is a file that cannot be opened.
unfoldable pub load : Option (List Bytes) → Settings → Settings × Bool
unfolding clear load_lines
load none s = (clear s, false)
load (some lines) s = elim (load_lines lines [] []) [
  | none ↦ (clear s, false)
  | some configs ↦ (record (clear s) { configs = configs }, true)
]

unfoldable pub end_group : Settings → Settings
end_group s = record s { current_group = [] }

unfoldable pub begin_group : Bytes → Settings → Settings
unfolding end_group
begin_group prefix s = record (end_group s) { current_group = prefix }

unfoldable pub end_array : Settings → Settings
end_array s = record s { current_array = [] }

unfoldable pub set_array_index : ℕ → Settings → Settings
set_array_index i s = record s { array_index = i }

unfoldable pub groups : Settings → List Bytes
groups s = map (λ g. g.0) s.configs

-- `groupConfigs` makes the group where it is missing, and returns a copy of it.
unfoldable pub group_configs : Settings → Settings × GroupMap
group_configs s =
    let g = if is_empty s.current_group then general else s.current_group in
    (record s { configs = ensure g [] s.configs }, find_or [] g s.configs)

unfoldable pub keys : Settings → Settings × List Bytes
unfolding group_configs
keys s = let (s', g) = group_configs s in (s', map (λ e. e.0) g)

-- A size_t in decimal, of at most 20 digits.
unfoldable pub decimal : ℕ → ℕ → Bytes
decimal zero n = []
decimal (suc digits) n =
    let more = decimal digits (n / 10) in (if ltb n 10 then [] else more) ++ (48 + n % 10) ∷ []

-- The key of an array's element.
unfoldable pub array_key : Settings → Bytes → Bytes
unfolding decimal
array_key s key =
    if is_empty s.current_array
    then key
    else s.current_array ++ (47 ∷ (decimal 20 ((s.array_index + 1) % 2 ^ 64) ++ (47 ∷ key)))

unfoldable pub contains_key : Bytes → Settings → Settings × Bool
unfolding group_configs array_key
contains_key key s =
    if is_empty key
    then (s, false)
    else let (s', g) = group_configs s in (s', contains (array_key s key) g)

unfoldable pub value : Bytes → Settings → Settings × Bytes
unfolding group_configs array_key
value key s =
    if is_empty key
    then (s, [])
    else let (s', g) = group_configs s in (s', find_or [] (array_key s key) g)
