-- ===== src/Examples/Registries.antt =====
-- A registry as two functions, with the laws that the theorems on the preferences take.
use akvirtualcamera.Base.{
  ◌≡◌, refl, sym, Bool, true, false, ◌&&◌, not, Option, none, some, Bytes, str_eq, str_eq_sound,
  str_eq_refl, if◌then◌else◌, arith, inl, inr, Bool-cases,
}
use akvirtualcamera.Registry.{Registry, Value, folded, Apart}

pub record Machine : Type 0 where
  pub keys : Bool → Bytes → Bool
  pub values : Bool → Bytes → Bytes → Option Value

unfoldable pub same_root : Bool → Bool → Bool
same_root true h = h
same_root false h = not h

unfoldable pub same_text : Bytes → Bytes → Bool
same_text k l = str_eq (folded k) (folded l)

unfoldable pub same_key : Bool → Bytes → Bool → Bytes → Bool
unfolding same_root same_text
same_key h l g k = same_root h g && same_text l k

unfoldable pub same_value : Bool → Bytes → Bytes → Bool → Bytes → Bytes → Bool
unfolding same_root same_text
same_value h l m g k n = same_root h g && (same_text l k && same_text m n)

unfoldable pub found : Bool → Bytes → Bytes → Machine → Option Value
found g k n s = if s.keys g k then s.values g k n else none

-- A new key has no values.
unfoldable pub make_key : Bool → Bytes → Machine → Machine × Bool
unfolding same_key found
make_key h l s = (
  record {
    keys = λ g k. if same_key h l g k then true else s.keys g k;
    values = λ g k n. if same_key h l g k then found g k n s else s.values g k n;
  },
  true,
)

unfoldable pub put : Bool → Bytes → Bytes → Value → Machine → Machine × Bool
unfolding same_value
put h l m v s =
    if s.keys h l
    then (
      record s { values = λ g k n. if same_value h l m g k n then some v else s.values g k n },
      true,
    )
    else (s, false)

unfoldable pub drop_value : Bool → Bytes → Bytes → Machine → Machine × Bool
unfolding same_value found
drop_value h l m s = (
  record s { values = λ g k n. if same_value h l m g k n then none else s.values g k n },
  elim (found h l m s) [ none ↦ false | some v ↦ true ],
)

unfoldable pub drop_key : Bool → Bytes → Machine → Machine × Bool
unfolding same_key
drop_key h l s =
    (record s { keys = λ g k. if same_key h l g k then false else s.keys g k }, s.keys h l)

same_root_refl : (g : Bool) → same_root g g ≡ true
unfolding same_root
same_root_refl true = refl
same_root_refl false = refl

same_root_sound : (g h : Bool) → same_root g h ≡ true → g ≡ h
unfolding same_root
same_root_sound true h e = sym e
same_root_sound false true e = absurd (ground (arith, e))
same_root_sound false false e = refl

same_text_refl : (k : Bytes) → same_text k k ≡ true
unfolding same_text
same_text_refl k = str_eq_refl (folded k)

same_key_refl : (g : Bool) (k : Bytes) → same_key g k g k ≡ true
unfolding same_key
same_key_refl g k = ground (arith, same_root_refl g, same_text_refl k)

same_value_refl : (g : Bool) (k n : Bytes) → same_value g k n g k n ≡ true
unfolding same_value
same_value_refl g k n = ground (arith, same_root_refl g, same_text_refl k, same_text_refl n)

pub found_in :
    (g : Bool) (k n : Bytes) (v : Value) (s : Machine) → found g k n s ≡ some v → s.keys g k ≡ true
unfolding found
found_in g k n v s e = ground (arith, e)

pub make_keeps :
    (g h : Bool) (k l n : Bytes) (s : Machine) → found g k n (make_key h l s).0 ≡ found g k n s
unfolding found make_key
make_keeps g h k l n s = ground arith

pub put_found :
    (g : Bool) (k n : Bytes) (v : Value) (s : Machine)
    → (put g k n v s).1 ≡ true
    → found g k n (put g k n v s).0 ≡ some v
unfolding put found
put_found g k n v s ok = ground (arith, same_value_refl g k n, ok)

Apart-same_value :
    (g : Bool) (k n : Bytes) (h : Bool) (l m : Bytes)
    → Apart g k n h l m
    → same_value h l m g k n ≡ false
unfolding same_value same_text
Apart-same_value g k n h l m apart = elim (Bool-cases (same_value h l m g k n)) [
  | inr e ↦ e
  | inl e ↦
      let root : same_root h g ≡ true = ground (arith, e) in
      let key : str_eq (folded l) (folded k) ≡ true = ground (arith, e) in
      let name : str_eq (folded m) (folded n) ≡ true = ground (arith, e) in
      elim apart [
        | inl d ↦ absurd (d (sym (same_root_sound h g root)))
        | inr (inl d) ↦ absurd (d (sym (str_eq_sound _ _ key)))
        | inr (inr d) ↦ absurd (d (sym (str_eq_sound _ _ name)))
      ]
]

pub put_keeps :
    (g : Bool) (k n : Bytes) (h : Bool) (l m : Bytes) (v : Value) (s : Machine)
    → Apart g k n h l m
    → found g k n (put h l m v s).0 ≡ found g k n s
unfolding put found
put_keeps g k n h l m v s apart = ground (arith, Apart-same_value g k n h l m apart)

pub drop_value_adds :
    (g : Bool) (k n : Bytes) (h : Bool) (l m : Bytes) (s : Machine)
    → found g k n s ≡ none
    → found g k n (drop_value h l m s).0 ≡ none
unfolding drop_value found
drop_value_adds g k n h l m s e = ground (arith, e)

pub drop_key_adds :
    (g : Bool) (k n : Bytes) (h : Bool) (l : Bytes) (s : Machine)
    → found g k n s ≡ none
    → found g k n (drop_key h l s).0 ≡ none
unfolding drop_key found
drop_key_adds g k n h l s e = ground (arith, e)

pub drop_missing :
    (g : Bool) (k n : Bytes) (s : Machine) → found g k n s ≡ none → (drop_value g k n s).1 ≡ false
unfolding drop_value
drop_missing g k n s e = rw (drop_value, e) refl

pub dropped_gone :
    (g : Bool) (k : Bytes) (s : Machine)
    → (drop_key g k s).1 ≡ true
    → (drop_key g k s).0.keys g k ≡ false
unfolding drop_key
dropped_gone g k s ok = ground (arith, same_key_refl g k)

-- Its keys have no order, and cannot be enumerated.
abbrev pub machine : Registry Machine
machine = record {
  has_key = λ g k s. s.keys g k;
  get_value = found;
  create_key = make_key;
  set_value = put;
  delete_value = drop_value;
  delete_key = drop_key;
  query_info = λ g k s. some (0, 0);
  enum_key = λ g k i s. none;
  enum_value = λ g k i s. none;
  found_in_key = found_in;
  create_keeps = make_keeps;
  set_found = put_found;
  set_keeps = put_keeps;
  delete_value_adds_none = drop_value_adds;
  delete_key_adds_none = drop_key_adds;
  missing_value_stays = drop_missing;
  deleted_key_gone = dropped_gone;
}
