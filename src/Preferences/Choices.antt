-- ===== src/Preferences/Choices.antt =====
-- An option of windows/PlatformUtils/src/preferences.cpp that was set is the one that is told.
use akvirtualcamera.Base.{
  ℕ, zero, suc, ◌+◌, ◌*◌, ◌≡◌, ◌≢◌, refl, sym, ap, ◌∙◌, Bool, true, false, [], ◌++◌, Option, Bytes,
  if◌then◌else◌, codes, str_eq, arith, inl, inr, Option-cases,
}
use akvirtualcamera.Registry.{Registry, Value, reg_sz, reg_dword, reg_qword}
use akvirtualcamera.Preferences.{
  read_string, read_int, read_int64, write, read_value, int_from, text_of, int64_from, until_nul,
}
use akvirtualcamera.Preferences.Cameras.{
  camera_key, camera_from_id, camera_from, camera_id, cameras_count,
}
use akvirtualcamera.Preferences.Values.{read_value-write, read_value-Away}
use akvirtualcamera.Preferences.Options.{
  log_level, set_log_level, service_port, set_service_port, service_timeout, set_service_timeout,
  DataMode, is_positive, loglevel_default, data_mode_sockets, data_mode_shared_memory, data_mode,
  data_mode_name, set_data_mode, page_size, set_page_size, camera_control_value,
  camera_set_control_value, direct_mode_at, camera_direct_mode, set_camera_direct_mode,
}
use akvirtualcamera.Text.Decimal.{to_string}
use akvirtualcamera.Video.Format.{size_of_int}

no_choice : true ≢ false
no_choice e = absurd (ground (arith, e))

-- The way of sending data, from the value.
abbrev mode_from : Option Value → DataMode
mode_from v =
    if str_eq (text_of (codes "mmap") v) (codes "sockets")
    then data_mode_sockets
    else data_mode_shared_memory

positive-mode : (mode : Bool) → is_positive (if mode then 1 else 0) ≡ mode
positive-mode true = refl
positive-mode false = refl

module _ {R : Type 0} (reg : Registry R) where
  -- What is read for all users does not change by what is written for one.
  global_kept :
      (key other : Bytes) (v : Value) (s : R)
      → read_value reg key true (write reg other v false s).0 ≡ read_value reg key true s
  global_kept key other v s = read_value-Away reg key true other v false s (inl no_choice)

  data_mode-set :
      (mode : DataMode) (s : R)
      → (set_data_mode reg mode s).1 ≡ true
      → data_mode reg (set_data_mode reg mode s).0 ≡ mode
  unfolding data_mode set_data_mode read_string text_of until_nul str_eq data_mode_name
  data_mode-set data_mode_sockets s h =
      ap mode_from (read_value-write reg (codes "dataMode") (reg_sz (codes "sockets")) true s h)
  data_mode-set data_mode_shared_memory s h =
      ap mode_from (read_value-write reg (codes "dataMode") (reg_sz (codes "mmap")) true s h)

  -- Where the write is a success: a log level, a port, a timeout or the value of a control is told as it
  -- was set, and the way of sending data is the one that was set.
  pub options-set :
      (w i : ℕ) (key : Bytes) (mode : DataMode) (serviceport_default : ℕ) (s : R)
      → (set_log_level reg w s).1 ≡ true
      → (set_service_port reg w s).1 ≡ true
      → (set_service_timeout reg w s).1 ≡ true
      → (camera_set_control_value reg i key w s).1 ≡ true
      → (set_data_mode reg mode s).1 ≡ true
      → (log_level reg (set_log_level reg w s).0 ≡ w)
        × (service_port reg serviceport_default (set_service_port reg w s).0 ≡ w)
        × (service_timeout reg (set_service_timeout reg w s).0 ≡ w)
        × (camera_control_value reg i key (camera_set_control_value reg i key w s).0 ≡ w)
        × (data_mode reg (set_data_mode reg mode s).0 ≡ mode)
  unfolding log_level set_log_level service_port set_service_port service_timeout
      set_service_timeout camera_control_value camera_set_control_value read_int int_from
  options-set w i key mode serviceport_default s a b c d e = (
    ap (int_from loglevel_default) (read_value-write reg (codes "loglevel") (reg_dword w) true s a),
    ap (int_from serviceport_default)
        (read_value-write reg (codes "servicePort") (reg_dword w) true s b),
    ap (int_from 10) (read_value-write reg (codes "serviceTimeout") (reg_dword w) true s c),
    ap (int_from 0) (
        read_value-write reg (camera_key (to_string (i + 1)) (codes "Controls\\" ++ key))
          (reg_dword w) false s d),
    data_mode-set mode s e,
  )

  -- The page size that is told does not change when it is set: it is written for the user, and read for
  -- all users.
  pub page_size-set_page_size :
      (size : ℕ) (s : R) → page_size reg (set_page_size reg size s).0 ≡ page_size reg s
  unfolding page_size set_page_size read_int64
  page_size-set_page_size size s =
      ap (int64_from (4 * 1920 * 1280))
        (global_kept (codes "pageSize") (codes "pageSize") (reg_qword size) s)

  camera_id-kept :
      (i : ℕ) (other : Bytes) (v : Value) (s : R)
      → camera_id reg i (write reg other v false s).0 ≡ camera_id reg i s
  unfolding camera_id read_string
  camera_id-kept i other v s = ap (text_of []) (global_kept _ other v s)

  camera_from-kept :
      (id : Bytes) (other : Bytes) (v : Value) (s : R) (i left : ℕ)
      → camera_from reg id (write reg other v false s).0 i left ≡ camera_from reg id s i left
  unfolding camera_from
  camera_from-kept id other v s i zero = refl
  camera_from-kept id other v s i (suc left) =
      rw (camera_id-kept i other v s, camera_from-kept id other v s (i + 1) left) refl

  camera_from_id-kept :
      (id : Bytes) (other : Bytes) (v : Value) (s : R)
      → camera_from_id reg id (write reg other v false s).0 ≡ camera_from_id reg id s
  unfolding camera_from_id cameras_count read_int
  camera_from_id-kept id other v s =
      ap (λ u. camera_from reg id (write reg other v false s).0 0 (size_of_int (int_from 0 u)))
        (global_kept _ other v s)
      ∙ camera_from-kept id other v s 0 _

  -- Where the direct mode of a device is set with success, that is the mode that is told for it.
  pub camera_direct_mode-set :
      (id : Bytes) (mode : Bool) (s : R)
      → (set_camera_direct_mode reg id mode s).1 ≡ true
      → camera_direct_mode reg id (set_camera_direct_mode reg id mode s).0 ≡ mode
  unfolding camera_direct_mode set_camera_direct_mode direct_mode_at read_int int_from
  camera_direct_mode-set id mode s ok = elim (Option-cases (camera_from_id reg id s)) [
    | inl e ↦ absurd (ground (arith, rw (set_camera_direct_mode, e) at ok))
    | inr (i, e) ↦
        let key = camera_key (to_string (i + 1)) (codes "directMode") in
        let v = reg_dword (if mode then 1 else 0) in
        let set_lem : set_camera_direct_mode reg id mode s ≡ write reg key v false s =
          rw (set_camera_direct_mode, e) refl in
        ap (λ r. camera_direct_mode reg id r.0) set_lem
        ∙ rw (camera_direct_mode, camera_from_id-kept id key v s, e)
            (ap (λ u. is_positive (int_from 0 u))
                (read_value-write reg key v false s (sym (ap (λ r. r.1) set_lem) ∙ ok))
              ∙ positive-mode mode)
  ]
