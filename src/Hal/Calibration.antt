-- ===== src/Hal/Calibration.antt =====
-- The calibration of uwb/halimpl/hal/phNxpUciHal_ext.cc, from the settings `cal.*` of the
-- configuration: sr1xx_apply_calibration and the extcal_do_ functions.
pub mod Delays
use device_xiaomi_odin.Prelude.{
  ℕ, ◌+◌, ◌-◌, ◌*◌, ◌/◌, ◌%◌, ◌^◌, Bool, not, ◌&&◌, Option, none, some, List, [], ◌∷◌, ◌++◌, ◌==◌,
  if◌then◌else◌, Bytes, length, get_or,
}
use device_xiaomi_odin.Status.{success, failed}
use device_xiaomi_odin.Config.Text.{codes}
use device_xiaomi_odin.Config.Cascade.{Cascade, get_num, get_byte_array}
use device_xiaomi_odin.Hal.Session.{Device, Sent, send_ext_cmd}

-- extcal_param_id_t
pub data Param : Type 0 where
  clk_accuracy rx_ant_delay tx_power tx_base_band_control ddfs_tone_config tx_pulse_shape : Param

-- sr1xx_set_calibration and sr1xx_set_conf
unfoldable pub set_calibration : Device → ℕ → Bytes → List Bytes → Sent
unfolding send_ext_cmd
set_calibration dev ch tlv sent =
    let ch' : ℕ = if ch == 0 then 9 else ch in
    send_ext_cmd dev (0x2F ∷ 0x21 ∷ 0x00 ∷ (length tlv + 1) % 256 ∷ ch' ∷ tlv) sent

unfoldable pub set_conf : Device → Bytes → List Bytes → Sent
unfolding send_ext_cmd
set_conf dev tlv sent =
    send_ext_cmd dev (0x20 ∷ 0x04 ∷ 0x00 ∷ (length tlv + 1) % 256 ∷ 1 ∷ tlv) sent

-- Whether the data are `size` bytes for each of the entries that their first byte counts.
abbrev pub is_table : ℕ → ℕ → Bytes → Bool
is_table ch size v =
    not (ch == 0)
    && not (length v == 0)
    && not (get_or 0 v 0 == 0)
    && get_or 0 v 0 * size == length v - 1

-- sr1xx_apply_calibration
unfoldable pub apply_calibration : Device → Param → ℕ → Bytes → List Bytes → Sent
unfolding set_calibration set_conf
apply_calibration dev clk_accuracy ch v sent =
    let done : Sent = set_calibration dev ch (0x01 ∷ 7 ∷ 3 ∷ v) sent in
    if not (length v == 6) then (failed, sent) else done
apply_calibration dev rx_ant_delay ch v sent =
    let done : Sent = set_calibration dev ch (0x02 ∷ length v % 256 ∷ v) sent in
    if is_table ch 3 v then done else (failed, sent)
apply_calibration dev tx_power ch v sent =
    let done : Sent = set_calibration dev ch (0x04 ∷ length v % 256 ∷ v) sent in
    if is_table ch 5 v then done else (failed, sent)
apply_calibration dev tx_base_band_control ch v sent =
    let done : Sent = set_conf dev (0xE4 ∷ 0x26 ∷ 1 ∷ get_or 0 v 0 ∷ []) sent in
    if not (length v == 1) then (failed, sent) else done
apply_calibration dev ddfs_tone_config ch v sent =
    let done : Sent = set_conf dev (0xE4 ∷ 0x27 ∷ length v % 256 ∷ v) sent in
    if length v == 0 then (failed, sent) else done
apply_calibration dev tx_pulse_shape ch v sent =
    let done : Sent = set_conf dev (0xE4 ∷ 0x28 ∷ length v % 256 ∷ v) sent in
    if length v == 0 then (failed, sent) else done

-- A byte of the configuration, or 0.
abbrev pub num_or_0 : Option ℕ → ℕ
num_or_0 none = 0
num_or_0 (some n) = n

-- sr1xx_read_otp for the crystal: the command of otp_read_data, and the three bytes that the
-- notification brings in time, if it does, as the six bytes of the parameter.
abbrev pub xtal_of_otp : Option Bytes → Bytes
xtal_of_otp none = []
xtal_of_otp (some v) = get_or 0 v 0 ∷ 0 ∷ get_or 0 v 1 ∷ 0 ∷ get_or 0 v 2 ∷ 0 ∷ []

unfoldable pub read_otp : Device → Option Bytes → List Bytes → Bytes × List Bytes
unfolding send_ext_cmd
read_otp dev otp sent =
    let (status, sent') =
      send_ext_cmd dev (0x2A ∷ 0x01 ∷ 0x00 ∷ 0x03 ∷ 0x09 ∷ 0x01 ∷ 0x02 ∷ []) sent in
    if status == success then (xtal_of_otp otp, sent') else ([], sent')

abbrev pub bytes_or_none : Option Bytes → Bytes
bytes_or_none none = []
bytes_or_none (some v) = v

-- extcal_do_xtal
unfoldable pub do_xtal : Device → Cascade → Option Bytes → List Bytes → List Bytes
unfolding read_otp apply_calibration
do_xtal dev config otp sent =
    let from_otp : Bool = not (num_or_0 (get_num (codes "cal.otp.xtal") 1 config) == 0) in
    let (v, sent₁) : Bytes × List Bytes = if from_otp then read_otp dev otp sent else ([], sent) in
    let configured : Bytes = bytes_or_none (get_byte_array (codes "cal.xtal") 32 config) in
    let v' : Bytes = if length v == 0 then configured else v in
    if length v' == 0 then sent₁ else (apply_calibration dev clk_accuracy 0 v' sent₁).1

-- The keys "cal.ant%u.ch%u.<name>"; both numbers have one digit.
abbrev pub antenna_key : ℕ → ℕ → Bytes → Bytes
antenna_key ant ch name =
    codes "cal.ant" ++ (b'0' + ant) ∷ (codes ".ch" ++ (b'0' + ch) ∷ (codes "." ++ name))

abbrev pub cal_channels : List ℕ
cal_channels = 5 ∷ 6 ∷ 8 ∷ 9 ∷ []

abbrev pub antennas : List ℕ
antennas = 1 ∷ 2 ∷ 3 ∷ 4 ∷ 5 ∷ 6 ∷ 7 ∷ 8 ∷ []

-- Bit `ant - 1` of a mask.
abbrev pub has_antenna : ℕ → ℕ → Bool
has_antenna mask ant = mask / 2 ^ (ant - 1) % 2 == 1

-- What an antenna adds to the entries for a channel, if its setting is there.
abbrev pub delay_entry : ℕ → Option ℕ → Option Bytes
delay_entry ant none = none
delay_entry ant (some v) = some (ant ∷ v % 256 ∷ v / 256 ∷ [])

abbrev pub power_entry : ℕ → Option Bytes → Option Bytes
power_entry ant none = none
power_entry ant (some v) = some (ant ∷ v)

abbrev pub entry_of : Cascade → Param → ℕ → ℕ → Option Bytes
entry_of config tx_power ch ant =
    power_entry ant (get_byte_array (antenna_key ant ch (codes "tx_power")) 32 config)
entry_of config _ ch ant =
    delay_entry ant (get_num (antenna_key ant ch (codes "ant_delay")) 2 config)

abbrev pub add_entry : Option Bytes → ℕ × Bytes → ℕ × Bytes
add_entry none r = r
add_entry (some e) (n, v) = (n + 1, e ++ v)

-- The loop over the antennas: the number of the entries, and their bytes.
unfoldable pub entries : Cascade → Param → ℕ → ℕ → List ℕ → ℕ × Bytes
entries config id mask ch [] = (0, [])
entries config id mask ch (ant ∷ ants) =
    let rest : ℕ × Bytes = entries config id mask ch ants in
    if has_antenna mask ant then add_entry (entry_of config id ch ant) rest else rest

-- The loop over the channels of extcal_do_ant_delay and extcal_do_tx_power.
unfoldable pub do_channels : Device → Cascade → Param → ℕ → List ℕ → List Bytes → List Bytes
unfolding entries apply_calibration
do_channels dev config id mask [] sent = sent
do_channels dev config id mask (ch ∷ chs) sent =
    let (n, v) = entries config id mask ch antennas in
    let sent' : List Bytes = (apply_calibration dev id ch (n ∷ v) sent).1 in
    do_channels dev config id mask chs (if n == 0 then sent else sent')

-- extcal_do_ant_delay and extcal_do_tx_power
unfoldable pub do_ant_delay : Device → Cascade → ℕ → List Bytes → List Bytes
unfolding do_channels
do_ant_delay dev config mask sent = do_channels dev config rx_ant_delay mask cal_channels sent

unfoldable pub do_tx_power : Device → Cascade → ℕ → List Bytes → List Bytes
unfolding do_channels
do_tx_power dev config mask sent = do_channels dev config tx_power mask cal_channels sent

-- extcal_do_tx_pulse_shape
unfoldable pub do_tx_pulse_shape : Device → Cascade → List Bytes → List Bytes
unfolding apply_calibration
do_tx_pulse_shape dev config sent =
    let v : Bytes = bytes_or_none (get_byte_array (codes "cal.tx_pulse_shape") 64 config) in
    if length v == 0 then sent else (apply_calibration dev tx_pulse_shape 0 v sent).1

-- extcal_do_tx_base_band: the tone is enabled only if its configuration has been accepted.
unfoldable pub do_tx_base_band : Device → Cascade → List Bytes → List Bytes
unfolding apply_calibration
do_tx_base_band dev config sent =
    let ddfs : Bool = not (num_or_0 (get_num (codes "cal.ddfs_enable") 1 config) == 0) in
    let dc : Bool = not (num_or_0 (get_num (codes "cal.dc_suppress") 1 config) == 0) in
    let tone : Bytes = bytes_or_none (get_byte_array (codes "cal.ddfs_tone_config") 256 config) in
    let (status, sent₁) : Sent =
      if ddfs && not (length tone == 0)
      then apply_calibration dev ddfs_tone_config 0 tone sent
      else (failed, sent) in
    let enabled : Bool = ddfs && not (length tone == 0) && status == success in
    let flag : ℕ = (if enabled then 0x01 else 0) + (if dc then 0x02 else 0) in
    (apply_calibration dev tx_base_band_control 0 (flag ∷ []) sent₁).1

-- phNxpUciHal_extcal_handle_coreinit: the masks, which are 1 if they are not configured, and the
-- commands that are sent.
abbrev pub mask_or_1 : Option ℕ → ℕ
mask_or_1 none = 1
mask_or_1 (some n) = n

unfoldable pub handle_coreinit : Device → Cascade → Option Bytes → List Bytes → ℕ × ℕ × List Bytes
unfolding do_xtal do_ant_delay
handle_coreinit dev config otp sent =
    let rx : ℕ = mask_or_1 (get_num (codes "cal.rx_antenna_mask") 1 config) in
    let tx : ℕ = mask_or_1 (get_num (codes "cal.tx_antenna_mask") 1 config) in
    (rx, tx, do_ant_delay dev config rx (do_xtal dev config otp sent))
