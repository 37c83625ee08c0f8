-- ===== src/Hal/Receive/Response.antt =====
-- phNxpUciHal_process_response of uwb/halimpl/hal/phNxpUciHal_ext.cc, and phNxpUciHal_process_ext_rsp.
use device_xiaomi_odin.Prelude.{
  ℕ, zero, suc, ◌+◌, ◌%◌, Bool, true, false, not, ◌&&◌, ◌||◌, Option, none, some, [], ◌∷◌, ◌++◌,
  and_then, ltb, leb, ◌==◌, if◌then◌else◌, Bytes, length,
}
use device_xiaomi_odin.Status.{success, failed}
use device_xiaomi_odin.Uci.Packet.{byte, mt_rsp, mt_ntf}
use device_xiaomi_odin.Hal.CapsInfo.{slice}
use device_xiaomi_odin.Hal.Receive.State.{
  Header, DeviceInfo, Cookie, Control, Environment, calib_data_ntf, deliver, post,
  start_recovery_timer, stop_recovery_timer, signal_recovery, Work,
}

-- CORE_DEVICE_STATUS_NTF with UWB_DEVICE_ERROR, for the stack to recover.
abbrev pub crash_ntf : Bytes
crash_ntf = 0x60 ∷ 0x01 ∷ 0x00 ∷ 0x01 ∷ 0xFF ∷ []

-- phNxpUciHal_handle_thermal_error_status
unfoldable pub handle_thermal_error_status : Environment → Work → Work
handle_thermal_error_status env w =
    let c : Control = record (w.control) { thermal_recovery = true } in
    let started : Work = record w {
      control = record c { recovery_timer_started = true };
      packet = crash_ntf;
      events = w.events ++ deliver crash_ntf ∷ start_recovery_timer ∷ [];
    } in
    let not_started : Work = record w {
      control = c;
      packet = crash_ntf;
      events = w.events ++ deliver crash_ntf ∷ start_recovery_timer ∷ signal_recovery ∷ [];
    } in
    if env.timer_start == success then started else not_started

-- phNxpUciHal_clear_thermal_error_status
unfoldable pub clear_thermal_error_status : Work → Work
clear_thermal_error_status w =
    let c : Control = record (w.control) { thermal_recovery = false } in
    let stopped : Work = record w {
      control = c;
      skip = true;
      events = w.events ++ signal_recovery ∷ stop_recovery_timer ∷ [];
    } in
    let cleared : Work = record w {
      control = c;
      skip = true;
      events = w.events ++ signal_recovery ∷ [];
    } in
    if w.control.recovery_timer_started then stopped else cleared

-- The values of device_type_t.
abbrev pub device_type_of : ℕ → ℕ
device_type_of x = if x == b'S' || x == b'T' then x else 0

-- One parameter of CORE_DEVICE_INFO_RSP whose values start at `i`.
unfoldable pub note_param : ℕ → ℕ → ℕ → Bytes → DeviceInfo → DeviceInfo
note_param tag len i p d =
    let typed : DeviceInfo = record d { device_type = device_type_of (byte p (i + 5)) } in
    let versioned : DeviceInfo = record d {
      fw_version = byte p i ∷ byte p (i + 1) ∷ byte p (i + 2) ∷ [];
    } in
    let booted : DeviceInfo = record d { fw_boot_mode = byte p i } in
    if tag == 0x00 && leb 6 len
    then typed
    else if tag == 0x01 && leb 3 len
    then versioned
    else if tag == 0x63 && leb 1 len
    then booted
    else d

-- The loop over the parameters, which the boot mode ends. The index is a byte and wraps around; none
-- stands for a loop that is not over when the fuel is.
unfoldable pub note_params : ℕ → ℕ → ℕ → Bytes → DeviceInfo → Option DeviceInfo
unfolding note_param
note_params zero len index p d = none
note_params (suc n) len index p d =
    let tag : ℕ = byte p index in
    let size : ℕ = byte p ((index + 1) % 256) in
    let at : ℕ = (index + 2) % 256 in
    let noted : DeviceInfo = note_param tag size at p d in
    let rest : Option DeviceInfo = note_params n len ((at + size) % 256) p noted in
    if not (ltb index len) then some d else if tag == 0x63 && leb 1 size then some noted else rest

-- phNxpUciHal_parseCoreDeviceInfoRsp
unfoldable pub parse_core_device_info_rsp : ℕ → Bytes → DeviceInfo → Option DeviceInfo
unfolding note_params
parse_core_device_info_rsp fuel p d =
    let copied : DeviceInfo = record d { response = p } in
    let parsed : Option DeviceInfo =
      and_then (note_params fuel ((byte p 13 + 14) % 256) 14 p copied)
        λ d'. some (record d' { is_cached = true }) in
    if d.is_cached then some d else if ltb 256 (length p) then some d else parsed

unfoldable pub remember_device_info : ℕ → Header → Bytes → DeviceInfo → Option DeviceInfo
unfolding parse_core_device_info_rsp
remember_device_info fuel h p d =
    let parsed : Option DeviceInfo = parse_core_device_info_rsp fuel p d in
    if h.mt == mt_rsp && h.gid == 0x00 && h.oid == 0x02 && not h.pbf then parsed else some d

-- READ_CALIB_DATA_NTF: the data are taken once, if they have the size that is waited for.
abbrev pub is_awaited : Header → Bytes → Cookie → Bool
is_awaited h p k =
    h.mt == mt_ntf
    && h.gid == 0x0A
    && h.oid == 0x01
    && not k.is_valid
    && leb 2 (byte p 3)
    && byte p 4 == 0x00
    && byte p 5 == k.len

unfoldable pub take_calib_data : Header → Option Cookie → Work → Work
unfolding slice
take_calib_data h none w = w
take_calib_data h (some k) w =
    let read : Cookie = record k { is_valid = true; buffer = slice w.packet 6 k.len } in
    let posted : Work = record w {
      control = record (w.control) { cookie = some read };
      events = w.events ++ post calib_data_ntf ∷ [];
    } in
    if is_awaited h w.packet k then posted else w

unfoldable pub read_calib_data : Header → Work → Work
unfolding take_calib_data
read_calib_data h w = take_calib_data h w.control.cookie w

-- The two branches of a thermal error, which look at the packet as it is then.
unfoldable pub thermal_error : Environment → Header → Work → Work
unfolding handle_thermal_error_status
thermal_error env h w =
    let s : ℕ = byte w.packet 4 in
    let handled : Work = handle_thermal_error_status env (record w { skip = true }) in
    if h.gid == 0x00 && h.oid == 0x07 && (s == 0x54 || s == 0x59) then handled else w

unfoldable pub hw_reset : Header → Work → Work
unfolding clear_thermal_error_status
hw_reset h w =
    let cleared : Work = clear_thermal_error_status w in
    if h.gid == 0x00 && h.oid == 0x01 && byte w.packet 4 == 0xFE then cleared else w

-- phNxpUciHal_process_response
unfoldable pub process_response : Environment → Header → Work → Option Work
unfolding thermal_error hw_reset remember_device_info read_calib_data
process_response env h w =
    let w₁ : Work = hw_reset h (thermal_error env h w) in
    and_then (remember_device_info env.fuel h w₁.packet w₁.control.device_info) λ d.
      some (read_calib_data h (record w₁ { control = record (w₁.control) { device_info = d } }))

-- The vendor's parameters that a device may lack: UCI_EXT_PARAM_DELAY_CALIBRATION_VALUE and so on.
abbrev pub is_optional_ext_param : ℕ → Bool
is_optional_ext_param x = leb x 0x05 || x == 0x26 || x == 0x27 || x == 0x28 || x == 0x30

-- The loop of phNxpUciHal_process_ext_rsp over pairs of a parameter and its status, where the
-- extended ones have two bytes. It ends within as many rounds as the response has bytes.
unfoldable pub ext_rsp_params : ℕ → ℕ → Bytes → ℕ → Option ℕ
ext_rsp_params zero index p status = if ltb index (length p) then none else some status
ext_rsp_params (suc n) index p status =
    let id : ℕ = byte p index in
    let ext_id : ℕ = byte p (index + 1) in
    let ext_missing : Bool = byte p (index + 2) == 0x55 in
    let missing : Bool = byte p (index + 1) == 0x55 in
    let ext_status : ℕ = if is_optional_ext_param ext_id then success else status in
    let new_status : ℕ = if id == 0x01 then success else status in
    let ext_rest : Option ℕ = ext_rsp_params n (index + 3) p ext_status in
    let rest : Option ℕ = ext_rsp_params n (index + 2) p new_status in
    if not (ltb index (length p))
    then some status
    else if id == 0xE4
    then if is_optional_ext_param ext_id && not ext_missing then some failed else ext_rest
    else if id == 0x01 && not missing
    then some failed
    else rest

-- phNxpUciHal_process_ext_rsp
unfoldable pub process_ext_rsp : Bytes → Option ℕ
unfolding ext_rsp_params
process_ext_rsp p =
    let looped : Option ℕ = ext_rsp_params (length p) 6 p (byte p 4) in
    if byte p 4 == 0x00 then some success else looped
