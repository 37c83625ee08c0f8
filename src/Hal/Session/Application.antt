-- ===== src/Hal/Session/Application.antt =====
-- phNxpUciHal_sessionInitialization of uwb/halimpl/hal/phNxpUciHal.cc, and the binding of the device
-- to its secure element: phNxpUciHal_parse_binding_status_ntf.
use device_xiaomi_odin.Prelude.{
  ℕ, ◌+◌, ◌%◌, Bool, not, ◌&&◌, Option, none, some, List, [], ◌∷◌, ◌++◌, ltb, leb, ◌==◌,
  if◌then◌else◌, Bytes, length,
}
use device_xiaomi_odin.Status.{success, failed}
use device_xiaomi_odin.Config.Text.{codes}
use device_xiaomi_odin.Config.Cascade.{Cascade, get_byte_array}
use device_xiaomi_odin.Hal.Session.{Device, Sent, send_ext_cmd, disable_dpd}

-- The parameters of the application for the type of the device, in a buffer of 260 bytes.
abbrev pub app_config : Cascade → ℕ → Option Bytes
app_config config device_type =
    get_byte_array
      (if device_type == b'T'
        then codes "NXP_UWB_EXT_APP_SR1XX_T_CONFIG"
        else if device_type == b'S'
        then codes "NXP_UWB_EXT_APP_SR1XX_S_CONFIG"
        else codes "NXP_UWB_EXT_APP_DEFAULT_CONFIG")
      260 config

-- The command with them for a session, whose id is four bytes; only the command's success or failure
-- differs in what is sent, and neither is reported.
abbrev pub send_app_config : Device → Bytes → Option Bytes → List Bytes → Sent
send_app_config dev session_id none sent = (success, sent)
send_app_config dev session_id (some v) sent =
    let cmd : Bytes = 0x2F ∷ 0x00 ∷ 0x00 ∷ (4 + length v) % 256 ∷ (session_id ++ v) in
    if ltb 0 (length v) && leb (length v) 252
    then (success, (send_ext_cmd dev cmd sent).1)
    else (success, sent)

-- phNxpUciHal_sessionInitialization
unfoldable pub session_initialization : Bool → Device → Cascade → ℕ → Bytes → List Bytes → Sent
session_initialization is_open dev config device_type session_id sent =
    let done : Sent = send_app_config dev session_id (app_config config device_type) sent in
    if not is_open then (failed, sent) else done

-- What the binding waits for: whether each notification comes in time, and the status and count that
-- the one for the binding brings.
pub record Notifications : Type 0 where
  pub bind_posted : Bool
  pub bound_status : ℕ
  pub bound_count : ℕ
  pub check_posted : Bool
  pub check_posted_again : Bool
  pub checked_status : ℕ

-- A command that is followed by the wait for its notification.
abbrev pub awaited : Bool → Sent → Sent
awaited posted (status, sent) =
    if not (status == success)
    then (status, sent)
    else if posted
    then (success, sent)
    else (failed, sent)

-- phNxpUciHal_do_bind and phNxpUciHal_get_binding_status
unfoldable pub do_bind : Device → Bool → List Bytes → Sent
do_bind dev posted sent = awaited posted (send_ext_cmd dev (0x2F ∷ 0x31 ∷ 0x00 ∷ 0x00 ∷ []) sent)

unfoldable pub get_binding_status : Device → Bool → List Bytes → Sent
get_binding_status dev posted sent =
    awaited posted (send_ext_cmd dev (0x2F ∷ 0x32 ∷ 0x00 ∷ 0x00 ∷ []) sent)

-- What follows a success.
abbrev pub on_success : Sent → (List Bytes → Sent) → Sent
on_success (status, sent) k = if status == success then k sent else (status, sent)

-- The case UWB_DEVICE_NOT_BOUND.
unfoldable pub bind_device : Device → Notifications → List Bytes → Sent
unfolding do_bind get_binding_status
bind_device dev n sent = on_success (disable_dpd dev sent) λ sent₁.
    on_success (do_bind dev n.bind_posted sent₁) λ sent₂.
      if n.bound_status == 1 && ltb n.bound_count 3
      then get_binding_status dev n.check_posted sent₂
      else (success, sent₂)

abbrev pub as_byte : Sent → Sent
as_byte (status, sent) = (status % 256, sent)

-- The case UWB_DEVICE_BOUND_UNLOCKED, whose own `status` is a byte; if the second wait is in vain the
-- stack gets the binding status.
unfoldable pub lock_device : Device → Notifications → List Bytes → Sent × List Bytes
unfolding get_binding_status
lock_device dev n sent =
    let (status, sent') =
      on_success (as_byte (disable_dpd dev sent))
        λ sent₁. as_byte (get_binding_status dev n.check_posted sent₁) in
    let told : List Bytes = (0x6E ∷ 0x06 ∷ 0x00 ∷ 0x01 ∷ n.checked_status ∷ []) ∷ [] in
    if not (status == success)
    then ((status, sent'), [])
    else if n.check_posted_again
    then ((success, sent'), [])
    else ((success, sent'), told)

-- phNxpUciHal_parse_binding_status_ntf for a binding status: the result, the commands, and what the
-- stack gets.
unfoldable pub parse_binding_status_ntf :
    Device → Notifications → ℕ → List Bytes → Sent × List Bytes
unfolding bind_device lock_device
parse_binding_status_ntf dev n binding sent =
    if binding == 0
    then (bind_device dev n sent, [])
    else if binding == 1
    then lock_device dev n sent
    else ((success, sent), [])
