-- ===== src/Settings/Store/Lookup.antt =====
-- `load` of VCamUtils/src/settings.cpp: the value of a key is the last one that the file gives it.
use akvirtualcamera.Base.{
  ◌≡◌, sym, not, ◌&&◌, List, [], ◌∷◌, Option, none, some, arith, if◌then◌else◌, Bytes, is_empty,
  str_eq, str_eq_iff, inl, inr, Option-cases, ◌∙◌, ap, Bool-cases,
}
use akvirtualcamera.Base.StdMap.{StdMap, find, find_or, assign, ensure, find-assign, find-ensure}
use akvirtualcamera.Settings.{SettingsElement, element_is_empty, parse}
use akvirtualcamera.Settings.Store.{GroupMap, general, load_element, load_lines}

-- The value of a key in a group.
abbrev pub stored : Bytes → Bytes → StdMap GroupMap → Option Bytes
stored g key configs = find key (find_or [] g configs)

-- The group behind a line.
abbrev pub group_behind : SettingsElement → Bytes → Bytes
group_behind e group =
    if not (is_empty e.group)
    then e.group
    else if not (is_empty e.key) && (not (is_empty e.value) && is_empty group)
    then general
    else group

-- The value behind a line, where it was `old` before.
abbrev pub value_behind : Bytes → Bytes → SettingsElement → Bytes → Option Bytes → Option Bytes
value_behind g key e group old =
    if is_empty e.group
      && (not (is_empty e.key)
          && (not (is_empty e.value) && (str_eq (group_behind e group) g && str_eq e.key key)))
    then some e.value
    else old

-- The last value that the lines give to a key of a group.
unfoldable pub last_value : Bytes → Bytes → List Bytes → Bytes → Option Bytes → Option Bytes
last_value g key [] group old = old
last_value g key (line ∷ lines) group old = elim (parse line) [
  | none ↦ old
  | some e ↦ last_value g key lines (group_behind e group) (value_behind g key e group old)
]

group_behind-load_element :
    (e : SettingsElement) (configs : StdMap GroupMap) (group : Bytes)
    → (load_element e configs group).1 ≡ group_behind e group
unfolding load_element element_is_empty
group_behind-load_element e configs group = ground arith

stored-ensure :
    (g key k : Bytes) (configs : StdMap GroupMap)
    → stored g key (ensure k [] configs) ≡ stored g key configs
unfolding find_or find
stored-ensure g key k configs = elim (Option-cases (find g configs)) [
  | inl e ↦ ground (arith, e, find-ensure k g [] configs, str_eq_iff k g)
  | inr (m, e) ↦ ground (arith, e, find-ensure k g [] configs, str_eq_iff k g)
]

stored-assign :
    (g key k j v : Bytes) (configs : StdMap GroupMap)
    → stored g key (assign k (assign j v (find_or [] k configs)) configs)
      ≡ (if str_eq k g && str_eq j key then some v else stored g key configs)
unfolding find_or
stored-assign g key k j v configs = ground (
  arith,
  find-assign k g (assign j v (find_or [] k configs)) configs,
  find-assign j key v (find_or [] k configs),
  str_eq_iff k g,
)

stored-set :
    (g key k j v : Bytes) (configs : StdMap GroupMap)
    → let made = ensure k [] configs in
      stored g key (assign k (assign j v (find_or [] k made)) made)
      ≡ (if str_eq k g && str_eq j key then some v else stored g key configs)
stored-set g key k j v configs =
    stored-assign g key k j v (ensure k [] configs)
    ∙ ap (λ (old : Option Bytes). if str_eq k g && str_eq j key then some v else old)
        (stored-ensure g key k configs)

stored-load_element :
    (g key : Bytes) (e : SettingsElement) (configs : StdMap GroupMap) (group : Bytes)
    → stored g key (load_element e configs group).0
      ≡ value_behind g key e group (stored g key configs)
unfolding load_element element_is_empty
stored-load_element g key e configs group =
    let set = λ (k : Bytes). stored-set g key k e.key e.value configs in
    elim (Bool-cases (is_empty e.group)) [
      | inr a ↦ rw a (stored-ensure g key e.group configs)
      | inl a ↦ elim (Bool-cases (is_empty e.key)) [
        | inl b ↦ elim (Bool-cases (is_empty e.value)) [
          | inl c ↦ rw (a, b, c)
          | inr c ↦ rw (a, b, c)
        ]
        | inr b ↦ elim (Bool-cases (is_empty e.value)) [
          | inl c ↦ rw (a, b, c)
          | inr c ↦ elim (Bool-cases (is_empty group)) [
            | inl d ↦ rw (a, b, c, d) (set general)
            | inr d ↦ rw (a, b, c, d) (set group)
          ]
        ]
      ]
    ]

-- Behind the lines of a file of which none is refused, a key of a group has the last value that a
-- line gives it, and where no line does, the one it had. A line gives a value to a key of the group
-- that is named last above it, or of "General" where none is.
pub load_lines-last_value :
    (g key : Bytes) (lines : List Bytes) (configs loaded : StdMap GroupMap) (group : Bytes)
    → load_lines lines configs group ≡ some loaded
    → stored g key loaded ≡ last_value g key lines group (stored g key configs)
unfolding load_lines last_value
load_lines-last_value g key [] configs loaded group e =
    let same : configs ≡ loaded = ground (arith, e) in ap (λ c. stored g key c) (sym same)
load_lines-last_value g key (line ∷ lines) configs loaded group e =
    elim (Option-cases (parse line)) [
      | inl h ↦ absurd (ground (arith, h))
      | inr (x, h) ↦
          let later : load_lines lines (load_element x configs group).0
                (load_element x configs group).1
              ≡ some loaded =
            ground (arith, h) in
          let rest =
            load_lines-last_value g key lines (load_element x configs group).0 loaded
              (load_element x configs group).1 later in
          rw (h, last_value)
            (rest
              ∙ ap
                  (λ (k : Bytes).
                    last_value g key lines k (stored g key (load_element x configs group).0))
                  (group_behind-load_element x configs group)
              ∙ ap (λ (old : Option Bytes). last_value g key lines (group_behind x group) old)
                  (stored-load_element g key x configs group))
    ]
