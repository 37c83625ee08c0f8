-- ===== src/Hal/Session/Vendor.antt =====
-- phNxpUciHal_applyVendorConfig of uwb/halimpl/hal/phNxpUciHal.cc, with parseAntennaConfig and
-- phNxpUciHal_configureLowPowerMode: the command blocks of the configuration are sent in order.
pub mod Sends
pub mod Blocks
use device_xiaomi_odin.Prelude.{
  ℕ, zero, suc, ◌+◌, ◌%◌, Bool, true, false, not, ◌&&◌, Option, none, some, List, [], ◌∷◌, ◌++◌,
  and_then, ltb, leb, ◌==◌, if◌then◌else◌, Bytes, length,
}
use device_xiaomi_odin.Status.{success}
use device_xiaomi_odin.Uci.Packet.{byte}
use device_xiaomi_odin.Config.Text.{codes}
use device_xiaomi_odin.Config.Cascade.{Cascade, get_num, get_byte_array}
use device_xiaomi_odin.Hal.CapsInfo.{Antenna}
use device_xiaomi_odin.Hal.Session.{Device, Sent, send_ext_cmd}

-- The loop of parseAntennaConfig, on the size of the block and the buffer that it stands in. Its index
-- is a byte and wraps around; none stands for a loop that is not over when the fuel is.
unfoldable pub antenna_params : ℕ → ℕ → ℕ → Bytes → Antenna → Option Antenna
antenna_params zero index size p a = none
antenna_params (suc n) index size p a =
    let tag : ℕ = byte p index in
    let sub_tag : ℕ = byte p ((index + 1) % 256) in
    let len : ℕ = byte p ((index + 2) % 256) in
    let at : ℕ = (index + 3) % 256 in
    let found : Antenna = record { is_rx_pair_defined = true; number_of_pairs = byte p at } in
    let rest : Option Antenna = antenna_params n ((at + len) % 256) size p a in
    if not (ltb index size)
    then some a
    else if tag == 0xE4 && sub_tag == 0x62
    then some found
    else rest

-- parseAntennaConfig, with what the buffer holds behind the block.
unfoldable pub parse_antenna_config : ℕ → Bytes → Bytes → Antenna → Option Antenna
unfolding antenna_params
parse_antenna_config fuel behind [] a = some a
parse_antenna_config fuel behind (x ∷ p) a =
    antenna_params fuel 5 (length (x ∷ p)) ((x ∷ p) ++ behind) a

-- What has been sent, and what is known of the antennas.
pub record Session : Type 0 where
  pub sent : List Bytes
  pub antenna : Antenna

-- A status with the session; none stands for a call that does not return.
abbrev pub Result : Type 0
Result = Option (ℕ × Session)

-- What follows unless a status has been returned.
abbrev pub then_ok : Result → (Session → Result) → Result
then_ok none k = none
then_ok (some (status, s)) k = if status == success then k s else some (status, s)

-- A block that the configuration has and that is not empty.
abbrev pub sendable : Option Bytes → Option Bytes
sendable none = none
sendable (some []) = none
sendable (some (x ∷ v)) = some (x ∷ v)

abbrev pub send_block : Device → Option Bytes → Session → Result
send_block dev none s = some (success, s)
send_block dev (some p) s =
    let (status, sent') = send_ext_cmd dev p s.sent in some (status, record s { sent = sent' })

-- A block that the antennas are read from, before its status is looked at.
abbrev pub send_device_block : ℕ → Bytes → Device → Option Bytes → Session → Result
send_device_block fuel behind dev none s = some (success, s)
send_device_block fuel behind dev (some p) s =
    let (status, sent') = send_ext_cmd dev p s.sent in
    and_then (parse_antenna_config fuel behind p s.antenna)
      λ a. some (status, record { sent = sent'; antenna = a })

-- NXP_MAX_CONFIG_STRING_LEN
abbrev pub max_config_len : ℕ
max_config_len = 260

-- A block of the configuration, read into a buffer of that size.
abbrev pub block : Cascade → Bytes → Option Bytes
block config name = sendable (get_byte_array name max_config_len config)

abbrev pub user_fw_block : Cascade → ℕ → Option Bytes
user_fw_block config boot_mode =
    if boot_mode == 0x01 then block config (codes "UWB_USER_FW_BOOT_MODE_CONFIG") else none

-- The block for the type of the device.
abbrev pub device_block : Cascade → ℕ → Option Bytes
device_block config device_type =
    if device_type == b'T'
    then block config (codes "UWB_CORE_EXT_DEVICE_SR1XX_T_CONFIG")
    else if device_type == b'S'
    then block config (codes "UWB_CORE_EXT_DEVICE_SR1XX_S_CONFIG")
    else block config (codes "UWB_CORE_EXT_DEVICE_DEFAULT_CONFIG")

-- NXP_CORE_CONF_BLK_1 to NXP_CORE_CONF_BLK_10
abbrev pub core_names : List Bytes
core_names =
    codes "NXP_CORE_CONF_BLK_1"
    ∷ codes "NXP_CORE_CONF_BLK_2"
    ∷ codes "NXP_CORE_CONF_BLK_3"
    ∷ codes "NXP_CORE_CONF_BLK_4"
    ∷ codes "NXP_CORE_CONF_BLK_5"
    ∷ codes "NXP_CORE_CONF_BLK_6"
    ∷ codes "NXP_CORE_CONF_BLK_7"
    ∷ codes "NXP_CORE_CONF_BLK_8"
    ∷ codes "NXP_CORE_CONF_BLK_9"
    ∷ codes "NXP_CORE_CONF_BLK_10"
    ∷ []

-- The loop over them.
unfoldable pub send_core_blocks : Device → Cascade → List Bytes → Session → Result
send_core_blocks dev config [] s = some (success, s)
send_core_blocks dev config (name ∷ names) s =
    then_ok (send_block dev (block config name) s) (send_core_blocks dev config names)

-- The command of phNxpUciHal_configureLowPowerMode.
abbrev pub low_power_cmd : Option ℕ → Option Bytes
low_power_cmd none = none
low_power_cmd (some v) = some (0x20 ∷ 0x04 ∷ 0x00 ∷ 0x04 ∷ 0x01 ∷ 0x01 ∷ 0x01 ∷ v ∷ [])

abbrev pub low_power_block : Cascade → Option Bytes
low_power_block config = low_power_cmd (get_num (codes "UWB_LOW_POWER_MODE") 1 config)

-- phNxpUciHal_configureLowPowerMode, and the return value behind it: a failure is not reported.
unfoldable pub finish_low_power : Device → Cascade → Session → Result
finish_low_power dev config s =
    and_then (send_block dev (low_power_block config) s) λ (_, s'). some (success, s')

-- phNxpUciHal_applyVendorConfig, with what earlier blocks have left in the buffer behind the one of the
-- device.
unfoldable pub apply_vendor_config : ℕ → Bytes → Device → Cascade → ℕ → ℕ → Session → Result
unfolding send_core_blocks finish_low_power
apply_vendor_config fuel behind dev config boot_mode device_type s =
    let ntf : Option Bytes = block config (codes "NXP_UWB_EXTENDED_NTF_CONFIG") in
    let xtal : Option Bytes = block config (codes "NXP_UWB_XTAL_38MHZ_CONFIG") in
    then_ok (send_block dev (user_fw_block config boot_mode) s) λ s₁.
      then_ok (send_block dev ntf s₁) λ s₂.
        then_ok (send_device_block fuel behind dev (device_block config device_type) s₂) λ s₃.
          then_ok (send_block dev xtal s₃) λ s₄.
            then_ok (send_core_blocks dev config core_names s₄) λ s₅. finish_low_power dev config s₅
