-- ===== src/Hal/Receive/Startup.antt =====
-- The notifications that phNxpUciHal_read_complete of uwb/halimpl/hal/phNxpUciHal.cc looks at while
-- the device is being initialised.
use device_xiaomi_odin.Prelude.{ℕ, true, ◌&&◌, ◌||◌, [], ◌∷◌, ◌++◌, ◌==◌, if◌then◌else◌}
use device_xiaomi_odin.Uci.Packet.{byte, mt_ntf}
use device_xiaomi_odin.Hal.Receive.State.{
  Header, Control, dev_status_ntf, binding_status_ntf, get_binding_status_ntf, do_bind_ntf, post,
  Work,
}

abbrev pub uwb_device_init : ℕ
uwb_device_init = 0

abbrev pub uwb_device_ready : ℕ
uwb_device_ready = 1

-- CORE_DEVICE_STATUS_NTF
unfoldable pub device_status : Header → Work → Work
device_status h w =
    let s : ℕ = byte w.packet 4 in
    let noted : Work = record w { control = record (w.control) { device_state = s } } in
    let posted : Work = record noted {
      skip = true;
      events = w.events ++ post dev_status_ntf ∷ [];
    } in
    if h.gid == 0x00 && h.oid == 0x01
    then if s == uwb_device_init || s == uwb_device_ready then posted else noted
    else w

-- BINDING_STATUS_NTF
unfoldable pub binding_status_of : Header → Work → Work
binding_status_of h w =
    let noted : Control = record (w.control) { binding_status = byte w.packet 4 } in
    let posted : Work = record w {
      control = noted;
      skip = true;
      events = w.events ++ post binding_status_ntf ∷ [];
    } in
    if h.gid == 0x0E && h.oid == 0x06 then posted else w

-- UWB_ESE_BINDING_NTF
unfoldable pub ese_binding : Header → Work → Work
ese_binding h w =
    let noted : Control = record (w.control) {
      binding_count = byte w.packet 5;
      binding_status = byte w.packet 6;
    } in
    let posted : Work = record w {
      control = noted;
      skip = true;
      events = w.events ++ post do_bind_ntf ∷ [];
    } in
    if h.mt == mt_ntf && h.gid == 0x0F && h.oid == 0x31 then posted else w

-- UWB_ESE_BINDING_CHECK_NTF, which goes on to the stack as a BINDING_STATUS_NTF.
unfoldable pub binding_check : Header → Work → Work
binding_check h w =
    let s : ℕ = byte w.packet 4 in
    let posted : Work = record w {
      control = record (w.control) { binding_status = s };
      packet = 0x6E ∷ 0x06 ∷ 0x00 ∷ 0x01 ∷ s ∷ [];
      events = w.events ++ post get_binding_status_ntf ∷ [];
    } in
    if h.mt == mt_ntf && h.gid == 0x0F && h.oid == 0x32 then posted else w

-- The branch `if(!uwb_device_initialized)`.
unfoldable pub startup : Header → Work → Work
unfolding device_status binding_status_of ese_binding binding_check
startup h w =
    let looked : Work = binding_check h (ese_binding h (binding_status_of h (device_status h w))) in
    if w.control.device_initialized then w else looked
