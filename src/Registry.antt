-- ===== src/Registry.antt =====
-- The registry of Windows, as the functions of advapi32 show it, and the functions of
-- windows/PlatformUtils/src/utils.cpp on whole trees. A handle is the path of its key: the root (true
-- for HKEY_LOCAL_MACHINE) and the names from there, with a backslash between two.
pub mod Trees
pub mod Frame
use akvirtualcamera.Base.{
  ℕ, ◌≡◌, ◌≢◌, ◌⊎◌, Bool, true, false, Option, none, some, Bytes, leb, ◌&&◌, ◌+◌, if◌then◌else◌,
  List, map,
}

-- The types of value that are used; a dword is below 2 ^ 32 and a qword below 2 ^ 64.
pub data Value : Type 0 where
  reg_sz : Bytes → Value
  reg_dword : ℕ → Value
  reg_qword : ℕ → Value

-- Names are compared without regard to case.
unfoldable pub lower : ℕ → ℕ
lower c = if leb 65 c && leb c 90 then c + 32 else c

abbrev pub folded : Bytes → Bytes
folded name = map lower name

-- Two values: they differ in the root, or in the key or the name, whatever the case.
abbrev pub Apart : Bool → Bytes → Bytes → Bool → Bytes → Bytes → Type 0
Apart g k n h l m = (g ≢ h) ⊎ ((folded k ≢ folded l) ⊎ (folded n ≢ folded m))

-- A function gives the registry behind the call, and whether the result is ERROR_SUCCESS.
pub record Registry (R : Type 0) : Type 0 where
  -- RegOpenKeyExA.
  pub has_key : Bool → Bytes → R → Bool
  -- What RegGetValueA finds.
  pub get_value : Bool → Bytes → Bytes → R → Option Value
  -- RegCreateKeyExA, RegSetValueExA, RegDeleteValueA and RegDeleteKeyExA.
  pub create_key : Bool → Bytes → R → R × Bool
  pub set_value : Bool → Bytes → Bytes → Value → R → R × Bool
  pub delete_value : Bool → Bytes → Bytes → R → R × Bool
  pub delete_key : Bool → Bytes → R → R × Bool
  -- RegQueryInfoKey: how many keys and values are in a key.
  pub query_info : Bool → Bytes → R → Option (ℕ × ℕ)
  -- RegEnumKeyExA and RegEnumValue.
  pub enum_key : Bool → Bytes → ℕ → R → Option Bytes
  pub enum_value : Bool → Bytes → ℕ → R → Option (Bytes × Value)
  -- What is documented of them.
  pub found_in_key :
      (g : Bool) (k n : Bytes) (v : Value) (s : R)
      → get_value g k n s ≡ some v
      → has_key g k s ≡ true
  pub create_keeps :
      (g h : Bool) (k l n : Bytes) (s : R)
      → get_value g k n (create_key h l s).0 ≡ get_value g k n s
  pub set_found :
      (g : Bool) (k n : Bytes) (v : Value) (s : R)
      → (set_value g k n v s).1 ≡ true
      → get_value g k n (set_value g k n v s).0 ≡ some v
  pub set_keeps :
      (g : Bool) (k n : Bytes) (h : Bool) (l m : Bytes) (v : Value) (s : R)
      → Apart g k n h l m
      → get_value g k n (set_value h l m v s).0 ≡ get_value g k n s
  pub delete_value_adds_none :
      (g : Bool) (k n : Bytes) (h : Bool) (l m : Bytes) (s : R)
      → get_value g k n s ≡ none
      → get_value g k n (delete_value h l m s).0 ≡ none
  pub delete_key_adds_none :
      (g : Bool) (k n : Bytes) (h : Bool) (l : Bytes) (s : R)
      → get_value g k n s ≡ none
      → get_value g k n (delete_key h l s).0 ≡ none
  pub missing_value_stays :
      (g : Bool) (k n : Bytes) (s : R) → get_value g k n s ≡ none → (delete_value g k n s).1 ≡ false
  pub deleted_key_gone :
      (g : Bool) (k : Bytes) (s : R)
      → (delete_key g k s).1 ≡ true
      → has_key g k (delete_key g k s).0 ≡ false
