-- ===== src/Preferences/Cameras.antt =====
-- windows/PlatformUtils/src/preferences.cpp: the cameras. `Cameras\size` is their number, and the
-- camera with index i is in the key `Cameras\(i + 1)`. An int is its 32 bits.
use akvirtualcamera.Base.{
  ℕ, zero, suc, ◌+◌, ◌-◌, ◌^◌, ◌%◌, Bool, true, false, ◌&&◌, List, [], ◌∷◌, ◌++◌, Option, none,
  some, Bytes, ltb, leb, if◌then◌else◌, codes, is_empty, length, str_eq,
}
use akvirtualcamera.Registry.{Registry, Value, reg_sz, reg_dword}
use akvirtualcamera.Preferences.{read_string, read_int, write, delete_key, move}
use akvirtualcamera.Text.Decimal.{to_string, int_to_string}
use akvirtualcamera.Video.Format.{size_of_int}

abbrev pub cameras_prefix : Bytes
cameras_prefix = codes "Cameras\\"

abbrev pub cameras_size : Bytes
cameras_size = codes "Cameras\\size"

-- A key of a camera, whose number is written as `number`.
abbrev pub camera_key : Bytes → Bytes → Bytes
camera_key number rest = cameras_prefix ++ number ++ 92 ∷ rest

-- int(n), and the next int.
abbrev pub int_bits : ℕ → ℕ
int_bits n = n % 2 ^ 32

-- A format as it is stored: its name, its width and height, and its frame rate as a text.
pub record StoredFormat : Type 0 where
  pub format : Bytes
  pub width : ℕ
  pub height : ℕ
  pub fps : Bytes

-- The number of the new camera, from the stored size.
abbrev pub next_int : ℕ → ℕ
next_int w = int_bits (w + 1)

unfoldable pub new_camera : ℕ → Bytes → Bytes → List (Bytes × Value)
new_camera index description id =
    (cameras_size, reg_dword index)
    ∷ (camera_key (int_to_string index) (codes "description"), reg_sz description)
    ∷ (camera_key (int_to_string index) (codes "id"), reg_sz id)
    ∷ []

-- The values of the formats, from a number on; `number` is the camera's.
unfoldable pub format_values : Bytes → ℕ → List StoredFormat → List (Bytes × Value)
format_values number i [] = []
format_values number i (f ∷ formats) =
    let prefix = camera_key number (codes "Formats\\" ++ to_string i) in
    (prefix ++ codes "\\format", reg_sz f.format)
    ∷ (prefix ++ codes "\\width", reg_dword f.width)
    ∷ (prefix ++ codes "\\height", reg_dword f.height)
    ∷ (prefix ++ codes "\\fps", reg_sz f.fps)
    ∷ format_values number (i + 1) formats

abbrev pub formats_size : Bytes → Bytes
formats_size number = camera_key number (codes "Formats\\size")

-- A tree of the cameras.
abbrev pub camera_tree : ℕ → Bytes
camera_tree number = camera_key (to_string number) []

module _ {R : Type 0} (reg : Registry R) where
  unfoldable pub cameras_count : R → ℕ
  cameras_count s = size_of_int (read_int reg cameras_size 0 true s)

  unfoldable pub camera_id : ℕ → R → Bytes
  camera_id i s = read_string reg (camera_key (to_string (i + 1)) (codes "id")) [] true s

  unfoldable pub camera_description : ℕ → R → Bytes
  camera_description i s =
      if leb (cameras_count s) i
      then []
      else read_string reg (camera_key (to_string (i + 1)) (codes "description")) [] true s

  -- The loop of `cameraFromId`, from an index on, with the cameras that are left.
  unfoldable pub camera_from : Bytes → R → ℕ → ℕ → Option ℕ
  camera_from id s i zero = none
  camera_from id s i (suc left) =
      if str_eq (camera_id i s) id then some i else camera_from id s (i + 1) left

  -- cameraFromId; `none` is -1.
  unfoldable pub camera_from_id : Bytes → R → Option ℕ
  camera_from_id id s = camera_from id s 0 (cameras_count s)

  -- cameraExists: its loop is that of `cameraFromId`.
  unfoldable pub camera_exists : Bytes → R → Bool
  camera_exists id s = elim (camera_from id s 0 (cameras_count s)) [ none ↦ false | some i ↦ true ]

  -- Writes in a row, each made whatever the others' results are; ok is what holds of all.
  unfoldable pub write_all : List (Bytes × Value) → R → R × Bool
  write_all [] s = (s, true)
  write_all ((key, v) ∷ writes) s =
      let (t, ok) = write reg key v true s in
      let (u, all_ok) = write_all writes t in (u, ok && all_ok)

  -- addDevice, with the id that it found; an empty id is none.
  unfoldable pub add_device : Bytes → Bytes → R → R × Bytes
  add_device description id s =
      if is_empty id
      then (s, [])
      else (let index = next_int (read_int reg cameras_size 0 true s) in
          let (t, ok) = write_all (new_camera index description id) s in (t, if ok then id else []))

  -- addCamera, with the id that createDeviceId gives where none is asked for.
  unfoldable pub add_camera : Bytes → Bytes → Bytes → List StoredFormat → R → R × Bytes
  add_camera created device_id description formats s =
      let id = if is_empty device_id then created else device_id in
      let index = next_int (read_int reg cameras_prefix 0 true s) in
      let number = int_to_string index in
      let (t, ok) =
        write_all
          (new_camera index description id
            ++ (formats_size number, reg_dword (int_bits (length formats)))
              ∷ format_values number 1 formats)
          s in
      if is_empty device_id
      then (if is_empty id then (s, []) else (t, if ok then id else []))
      else (if camera_exists device_id s then (s, []) else (t, if ok then id else []))

  unfoldable pub camera_set_description : ℕ → Bytes → R → R × Bool
  camera_set_description i description s =
      if leb (cameras_count s) i
      then (s, false)
      else write reg (camera_key (to_string (i + 1)) (codes "description")) (reg_sz description)
          true s

  -- The loop of removeCamera, with the result so far.
  unfoldable pub move_down : ℕ → ℕ → Bool → R → R × Bool
  move_down i zero ok s = (s, ok)
  move_down i (suc left) ok s =
      let (t, moved) =
        move reg (cameras_prefix ++ to_string (i + 1)) (cameras_prefix ++ to_string i) true s in
      move_down (i + 1) left (ok && moved) t

  -- removeCamera, of the camera with an index.
  unfoldable pub remove_at : ℕ → R → R × Bool
  remove_at index s =
      let count = cameras_count s in
      let (t, first) = delete_key reg (camera_tree (index + 1)) true s in
      let (u, moved) = move_down (index + 1) (count - (index + 1)) first t in
      let (v, last) = delete_key reg (camera_tree count) true u in
      let (w, size) =
        if ltb 1 count
        then write reg cameras_size (reg_dword (int_bits (count - 1))) true v
        else delete_key reg cameras_prefix true v in
      (w, moved && last && size)

  unfoldable pub remove_camera : Bytes → R → R × Bool
  remove_camera id s = elim (camera_from_id id s) [
    | none ↦ (s, false)
    | some index ↦ remove_at index s
  ]

  unfoldable pub remove_all_cameras : R → R × Bool
  remove_all_cameras s = delete_key reg cameras_prefix true s
