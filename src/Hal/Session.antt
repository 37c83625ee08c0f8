-- ===== src/Hal/Session.antt =====
-- The commands that the HAL sends on its own account: phNxpUciHal_send_ext_cmd and
-- phNxpUciHal_set_board_config of uwb/halimpl/hal/phNxpUciHal_ext.cc, and the small commands of
-- uwb/halimpl/hal/phNxpUciHal.cc.
pub mod Vendor
pub mod Boot
pub mod Application
mod Tests
use device_xiaomi_odin.Prelude.{
  ℕ, ◌+◌, ◌%◌, Bool, true, false, not, ◌&&◌, Option, none, some, List, [], ◌∷◌, ◌++◌, leb, ◌==◌,
  if◌then◌else◌, Bytes, length,
}
use device_xiaomi_odin.Status.{success, failed}
use device_xiaomi_odin.Uci.Packet.{uci_max_data_len}
use device_xiaomi_odin.Config.Text.{codes}
use device_xiaomi_odin.Config.Cascade.{Cascade, get_num}

-- What phNxpUciHal_process_ext_cmd_rsp gives for the last of the commands that have been sent so far.
abbrev pub Device : Type 0
Device = List Bytes → ℕ

-- A status, and the commands that have been sent, the last one at the end.
abbrev pub Sent : Type 0
Sent = ℕ × List Bytes

-- phNxpUciHal_send_ext_cmd
unfoldable pub send_ext_cmd : Device → Bytes → List Bytes → Sent
send_ext_cmd dev p sent =
    let sent' : List Bytes = sent ++ p ∷ [] in
    if leb uci_max_data_len (length p) then (failed, sent) else (dev sent', sent')

-- A number of the configuration as a byte, or 0.
abbrev pub byte_or_0 : Option ℕ → ℕ
byte_or_0 none = 0
byte_or_0 (some n) = n % 256

-- phNxpUciHal_set_board_config
unfoldable pub set_board_config : Device → Cascade → List Bytes → Sent
unfolding send_ext_cmd
set_board_config dev config sent =
    let board : ℕ = byte_or_0 (get_num (codes "UWB_BOARD_VARIANT_CONFIG") 8 config) in
    let version : ℕ = byte_or_0 (get_num (codes "UWB_BOARD_VARIANT_VERSION") 8 config) in
    send_ext_cmd dev (0x2E ∷ 0x00 ∷ 0x00 ∷ 0x02 ∷ board ∷ version ∷ []) sent

-- phNxpUciHal_uwb_reset, phNxpUciHal_disable_dpd, and the commands of phNxpUciHal_do_bind and
-- phNxpUciHal_get_binding_status
unfoldable pub uwb_reset : Device → List Bytes → Sent
unfolding send_ext_cmd
uwb_reset dev sent = send_ext_cmd dev (0x20 ∷ 0x00 ∷ 0x00 ∷ 0x01 ∷ 0x00 ∷ []) sent

unfoldable pub disable_dpd : Device → List Bytes → Sent
unfolding send_ext_cmd
disable_dpd dev sent =
    send_ext_cmd dev (0x20 ∷ 0x04 ∷ 0x00 ∷ 0x04 ∷ 0x01 ∷ 0x01 ∷ 0x01 ∷ 0x00 ∷ []) sent

-- phNxpUciHal_sendGetCoreDeviceInfo, whose result is a byte: nothing is sent if the information is
-- cached.
unfoldable pub send_get_core_device_info : Device → Bool → List Bytes → Sent
unfolding send_ext_cmd
send_get_core_device_info dev cached sent =
    let (status, sent') = send_ext_cmd dev (0x20 ∷ 0x02 ∷ 0x00 ∷ 0x00 ∷ []) sent in
    if cached then (success, sent) else (status % 256, sent')
