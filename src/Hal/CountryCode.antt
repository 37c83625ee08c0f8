-- ===== src/Hal/CountryCode.antt =====
-- phNxpUciHal_handle_set_country_code of uwb/halimpl/hal/phNxpUciHal_ext.cc, with
-- extcal_do_restrictions: the configuration, the settings of the country and the map of its
-- capabilities together, and the response to the stack.
pub mod Invalid
use device_xiaomi_odin.Prelude.{
  ℕ, ◌+◌, ◌%◌, Bool, true, false, not, ◌&&◌, ◌||◌, Option, none, some, List, [], ◌∷◌, ◌++◌, ltb,
  ◌==◌, if◌then◌else◌, Bytes, length,
}
use device_xiaomi_odin.Config.Text.{codes}
use device_xiaomi_odin.Config.Cascade.{
  Cascade, Environment, get_num, get_byte_array, set_country_code,
}
use device_xiaomi_odin.Uci.Packet.{uci_max_data_len}
use device_xiaomi_odin.Uci.Tlv.{TagMap, get_conf_map}
use device_xiaomi_odin.Uci.Country.{
  RuntimeSettings, reset_settings, is_valid_country_code, apply_country_caps,
}
use device_xiaomi_odin.Hal.Session.{Device}
use device_xiaomi_odin.Hal.TxPower.{set_calib_param}
use device_xiaomi_odin.Hal.Calibration.{do_tx_power, do_tx_pulse_shape, do_tx_base_band}

-- The configuration, nxpucihal_ctrl.rt_settings, conf_map and isCountryCodeMapCreated, the mask of the
-- antennas, gtx_power, and the commands that have been sent.
pub record State : Type 0 where
  pub config : Cascade
  pub settings : RuntimeSettings
  pub conf_map : TagMap
  pub map_created : Bool
  pub tx_antenna_mask : ℕ
  pub gtx_power : Bytes
  pub sent : List Bytes

abbrev pub mask_of : Option ℕ → RuntimeSettings → RuntimeSettings
mask_of none s = s
mask_of (some m) s = record s { restricted_channel_mask = m }

abbrev pub disable_of : Option ℕ → RuntimeSettings → RuntimeSettings
disable_of none s = s
disable_of (some d) s = record s { uwb_enable = d == 0 }

-- extcal_do_restrictions
unfoldable pub do_restrictions : Cascade → ℕ → ℕ → RuntimeSettings
do_restrictions config c₀ c₁ =
    let masked : RuntimeSettings =
      mask_of (get_num (codes "cal.restricted_channels") 2 config) reset_settings in
    let s : RuntimeSettings = disable_of (get_num (codes "cal.uwb_disable") 1 config) masked in
    let forced : RuntimeSettings = record s { uwb_enable = false } in
    if not (is_valid_country_code c₀ c₁) then forced else s

-- COUNTRY_CODE_CAPS, if the configuration has them and they are not empty.
abbrev pub non_empty : Option Bytes → Option Bytes
non_empty none = none
non_empty (some []) = none
non_empty (some (x ∷ v)) = some (x ∷ v)

-- The calls of phNxpUciHal_setCalibParamTxPower, one for each offset in its turn: gtx_power and the
-- commands that have been sent.
unfoldable pub set_powers : Device → List ℕ → Bytes → List Bytes → Bytes × List Bytes
unfolding set_calib_param
set_powers dev [] g sent = (g, sent)
set_powers dev (o ∷ os) g sent =
    let (g', sent') = set_calib_param dev o g sent in set_powers dev os g' sent'

-- The capabilities of the country are applied, which sets powers, and read into the map.
unfoldable pub load_caps : Device → ℕ → ℕ → Option Bytes → State → State
unfolding set_powers
load_caps dev c₀ c₁ none s = s
load_caps dev c₀ c₁ (some caps) s =
    let (settings, tlvs) = apply_country_caps c₀ c₁ caps uci_max_data_len in
    let (g, sent) = set_powers dev settings.power_updates s.gtx_power s.sent in
    let (ok, m) = get_conf_map tlvs s.conf_map in
    record s { settings = settings; conf_map = m; map_created = ok; gtx_power = g; sent = sent }

-- The calibrations that a country has where its capabilities are not configured.
unfoldable pub calibrate : Device → State → State
calibrate dev s =
    let sent₁ : List Bytes = do_tx_power dev s.config s.tx_antenna_mask s.sent in
    let done : State = record s {
      sent = do_tx_base_band dev s.config (do_tx_pulse_shape dev s.config sent₁);
    } in
    if s.settings.uwb_enable then done else s

unfoldable pub apply_extra : Device → ℕ → ℕ → State → State
unfolding do_restrictions calibrate
apply_extra dev c₀ c₁ s =
    let restricted : State = record s { settings = do_restrictions s.config c₀ c₁ } in
    if not s.map_created then calibrate dev restricted else s

-- The response to ANDROID_SET_COUNTRY_CODE: UCI_STATUS_CODE_ANDROID_REGULATION_UWB_OFF if UWB is
-- disabled.
abbrev pub country_response : RuntimeSettings → Bytes
country_response s = 0x4C ∷ 0x01 ∷ 0x00 ∷ 0x01 ∷ (if s.uwb_enable then 0x00 else 0x53) ∷ []

-- phNxpUciHal_handle_set_country_code: what is left, and what the stack gets.
unfoldable pub handle_set_country_code : Environment → Device → ℕ → ℕ → State → State × Bytes
unfolding load_caps apply_extra
handle_set_country_code env dev c₀ c₁ s =
    let (config, changed) = set_country_code env (c₀ ∷ c₁ ∷ []) s.config in
    let moved : State = record s { config = config } in
    let caps : Option Bytes =
      non_empty (get_byte_array (codes "UWB_COUNTRY_CODE_CAPS") uci_max_data_len config) in
    let applied : State = apply_extra dev c₀ c₁ (load_caps dev c₀ c₁ caps moved) in
    let s' : State = if changed then applied else moved in (s', country_response s'.settings)
