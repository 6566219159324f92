-- ===== src/Preferences.antt =====
-- windows/PlatformUtils/src/preferences.cpp: the settings of the Windows plugin, in the registry.
pub mod Cameras
pub mod Values
pub mod Keys
pub mod Writes
pub mod View
pub mod Devices
pub mod Removal
pub mod Numbers
pub mod Formats
pub mod FormatTrip
pub mod SetFormats
pub mod CommonFormats
pub mod FormatKeys
pub mod Overwritten
pub mod Options
pub mod Choices
pub mod Search
use akvirtualcamera.Base.{
  ℕ, zero, suc, ◌+◌, ◌-◌, ◌^◌, ◌%◌, Bool, true, false, ◌&&◌, List, [], ◌∷◌, ◌++◌, Option, none,
  some, Bytes, ltb, leb, ◌==◌, if◌then◌else◌, codes, is_empty, length,
}
use akvirtualcamera.Registry.{Registry, Value, reg_sz, reg_dword, reg_qword}
use akvirtualcamera.Registry.Trees.{delete_tree, copy_opened, copy_tree}

-- REG_PREFIX.
abbrev pub reg_prefix : Bytes
reg_prefix = codes "SOFTWARE\\Webcamoid\\VirtualCamera"

-- The text in front of the last backslash, and the text behind it.
unfoldable pub at_last : Bytes → Option (Bytes × Bytes)
at_last [] = none
at_last (b ∷ key) = elim (at_last key) [
  | some (front, back) ↦ some (b ∷ front, back)
  | none ↦ if b == 92 then some ([], key) else none
]

-- splitSubKey: the key and the name of the value.
unfoldable pub split_sub_key : Bytes → Bytes × Bytes
split_sub_key key = elim (at_last key) [
  | none ↦ (reg_prefix, key)
  | some (front, back) ↦ (reg_prefix ++ 92 ∷ front, back)
]

-- A C string ends at its first 0.
unfoldable pub until_nul : Bytes → Bytes
until_nul [] = []
until_nul (b ∷ bs) = if b == 0 then [] else b ∷ until_nul bs

abbrev pub max_path : ℕ
max_path = 260

-- The levels of keys in a registry.
abbrev pub max_levels : ℕ
max_levels = 512

-- A text of another type, or one that does not fit the buffer with the 0 behind it, is not read.
unfoldable pub text_of : Bytes → Option Value → Bytes
text_of otherwise (some (reg_sz text)) =
    if ltb (length text) max_path
    then (if is_empty (until_nul text) then otherwise else until_nul text)
    else otherwise
text_of otherwise v = otherwise

unfoldable pub int_from : ℕ → Option Value → ℕ
int_from otherwise (some (reg_dword w)) = w
int_from otherwise v = otherwise

-- int(value), and back to 64 bits.
unfoldable pub through_int : ℕ → ℕ
through_int w = let low = w % 2 ^ 32 in if ltb low (2 ^ 31) then low else low + (2 ^ 64 - 2 ^ 32)

unfoldable pub int64_from : ℕ → Option Value → ℕ
int64_from otherwise (some (reg_qword w)) = through_int w
int64_from otherwise v = otherwise

module _ {R : Type 0} (reg : Registry R) where
  -- readValue, of any type.
  unfoldable pub read_value : Bytes → Bool → R → Option Value
  read_value key global s =
      let (sub_key, name) = split_sub_key key in
      if reg.has_key global sub_key s then reg.get_value global sub_key name s else none

  -- setValue.
  unfoldable pub write : Bytes → Value → Bool → R → R × Bool
  write key v global s =
      let (sub_key, name) = split_sub_key key in
      let (t, created) = reg.create_key global sub_key s in
      if created then reg.set_value global sub_key name v t else (t, false)

  unfoldable pub read_string : Bytes → Bytes → Bool → R → Bytes
  read_string key otherwise global s = text_of otherwise (read_value key global s)

  -- readInt; an int is its 32 bits.
  unfoldable pub read_int : Bytes → ℕ → Bool → R → ℕ
  read_int key otherwise global s = int_from otherwise (read_value key global s)

  -- readInt64; an int64_t is its 64 bits.
  unfoldable pub read_int64 : Bytes → ℕ → Bool → R → ℕ
  read_int64 key otherwise global s = int64_from otherwise (read_value key global s)

  -- deleteKey, with the key split: without a name it is a tree, and with one a value.
  unfoldable pub delete_named : Bool → Bytes × Bytes → R → R × Bool
  delete_named global (sub_key, name) s =
      if is_empty name
      then delete_tree reg max_levels global sub_key s
      else (if reg.has_key global sub_key s
          then reg.delete_value global sub_key name s
          else (s, false))

  unfoldable pub delete_key : Bytes → Bool → R → R × Bool
  delete_key key global s = delete_named global (split_sub_key key) s

  unfoldable pub move : Bytes → Bytes → Bool → R → R × Bool
  move key_from key_to global s =
      let sub_from = reg_prefix ++ 92 ∷ key_from in
      let sub_to = reg_prefix ++ 92 ∷ key_to in
      let (t, created) = reg.create_key global sub_to s in
      let (u, copied) =
        copy_opened reg (copy_tree reg max_levels global) global sub_from sub_to t in
      if reg.has_key global sub_from s
      then (if created
          then (if copied then delete_key key_from global u else (u, false))
          else (t, false))
      else (s, false)
