-- ===== src/Preferences/Options.antt =====
-- windows/PlatformUtils/src/preferences.cpp: the options of the program and of a camera. What is not
-- global is of the user that runs the program.
use akvirtualcamera.Base.{
  ℕ, ◌+◌, ◌-◌, ◌*◌, ◌^◌, Bool, true, false, [], ◌++◌, none, some, Bytes, ltb, if◌then◌else◌, codes,
  str_eq, ◌&&◌, not, ◌==◌,
}
use akvirtualcamera.Registry.{Registry, reg_sz, reg_dword, reg_qword}
use akvirtualcamera.Preferences.{read_string, read_int, read_int64, write}
use akvirtualcamera.Preferences.Cameras.{camera_key, camera_from_id}
use akvirtualcamera.Text.Decimal.{to_string}

pub data DataMode : Type 0 where
  data_mode_shared_memory : DataMode
  data_mode_sockets : DataMode

unfoldable pub data_mode_name : DataMode → Bytes
data_mode_name data_mode_sockets = codes "sockets"
data_mode_name data_mode_shared_memory = codes "mmap"

-- AKVCAM_LOGLEVEL_DEFAULT, which is -1.
abbrev pub loglevel_default : ℕ
loglevel_default = 2 ^ 32 - 1

-- x > 0 for an int.
abbrev pub is_positive : ℕ → Bool
is_positive w = ltb w (2 ^ 31) && not (w == 0)

module _ {R : Type 0} (reg : Registry R) where
  unfoldable pub picture : R → Bytes
  picture s = read_string reg (codes "picture") [] false s

  unfoldable pub set_picture : Bytes → R → R × Bool
  set_picture path s = write reg (codes "picture") (reg_sz path) false s

  unfoldable pub log_level : R → ℕ
  log_level s = read_int reg (codes "loglevel") loglevel_default true s

  unfoldable pub set_log_level : ℕ → R → R × Bool
  set_log_level level s = write reg (codes "loglevel") (reg_dword level) true s

  -- The default is a constant of the build.
  unfoldable pub service_port : ℕ → R → ℕ
  service_port serviceport_default s = read_int reg (codes "servicePort") serviceport_default true s

  unfoldable pub set_service_port : ℕ → R → R × Bool
  set_service_port port s = write reg (codes "servicePort") (reg_dword port) true s

  unfoldable pub service_timeout : R → ℕ
  service_timeout s = read_int reg (codes "serviceTimeout") 10 true s

  unfoldable pub set_service_timeout : ℕ → R → R × Bool
  set_service_timeout seconds s = write reg (codes "serviceTimeout") (reg_dword seconds) true s

  unfoldable pub data_mode : R → DataMode
  data_mode s =
      if str_eq (read_string reg (codes "dataMode") (codes "mmap") true s) (codes "sockets")
      then data_mode_sockets
      else data_mode_shared_memory

  unfoldable pub set_data_mode : DataMode → R → R × Bool
  set_data_mode mode s = write reg (codes "dataMode") (reg_sz (data_mode_name mode)) true s

  unfoldable pub page_size : R → ℕ
  page_size s = read_int64 reg (codes "pageSize") (4 * 1920 * 1280) true s

  unfoldable pub set_page_size : ℕ → R → R × Bool
  set_page_size size s = write reg (codes "pageSize") (reg_qword size) false s

  unfoldable pub camera_control_value : ℕ → Bytes → R → ℕ
  camera_control_value i key s =
      read_int reg (camera_key (to_string (i + 1)) (codes "Controls\\" ++ key)) 0 false s

  unfoldable pub camera_set_control_value : ℕ → Bytes → ℕ → R → R × Bool
  camera_set_control_value i key w s =
      write reg (camera_key (to_string (i + 1)) (codes "Controls\\" ++ key)) (reg_dword w) false s

  -- cameraDirectMode(size_t).
  unfoldable pub direct_mode_at : ℕ → R → Bool
  direct_mode_at i s =
      is_positive (read_int reg (camera_key (to_string (i + 1)) (codes "directMode")) 0 false s)

  unfoldable pub camera_direct_mode : Bytes → R → Bool
  camera_direct_mode id s = elim (camera_from_id reg id s) [
    | none ↦ false
    | some i ↦ direct_mode_at i s
  ]

  unfoldable pub set_camera_direct_mode : Bytes → Bool → R → R × Bool
  set_camera_direct_mode id mode s = elim (camera_from_id reg id s) [
    | none ↦ (s, false)
    | some i ↦
        write reg (camera_key (to_string (i + 1)) (codes "directMode"))
          (reg_dword (if mode then 1 else 0)) false s
  ]
