-- ===== src/Hal/Session/Tests.antt =====
-- The HAL's own commands on a small configuration.
use device_xiaomi_odin.Prelude.{
  ℕ, ◌≡◌, ◌⊎◌, Bytes, refl, Option, true, false, none, some, [], ◌∷◌, ◌==◌, if◌then◌else◌,
}
use device_xiaomi_odin.Int.{pos}
use device_xiaomi_odin.Status.{success, failed, pending}
use device_xiaomi_odin.Config.Param.{number, byte_array, lookup, bytes_eq}
use device_xiaomi_odin.Config.Text.{codes}
use device_xiaomi_odin.Config.File.{FileSystem, no_file}
use device_xiaomi_odin.Config.Cascade.{
  Cascade, Environment, no_cascade, find_param, get_num, get_byte_array, set_country_code,
}
use device_xiaomi_odin.Uci.Country.{reset_settings}
use device_xiaomi_odin.Hal.Session.{Device}
use device_xiaomi_odin.Hal.Session.Vendor.{
  Session, device_block, low_power_block, parse_antenna_config, apply_vendor_config,
}
use device_xiaomi_odin.Hal.Session.Vendor.Sends.{IsAllSent, IsStopped, present}
use device_xiaomi_odin.Hal.Session.Vendor.Blocks.{
  AntennaEnds, vendor_blocks, apply_vendor_config-Sends,
}
use device_xiaomi_odin.Hal.Session.Boot.{Round, Semaphores}
use device_xiaomi_odin.Hal.Calibration.{do_ant_delay}
use device_xiaomi_odin.Hal.Calibration.Delays.{do_ant_delay_lem}
use device_xiaomi_odin.Hal.CountryCode.{State, handle_set_country_code}

-- A parameter, and the one that defines three pairs of receiving antennas.
abbrev antenna_block : Bytes
antenna_block = 0x20 ∷ 0x04 ∷ 0 ∷ 8 ∷ 2 ∷ 0xE4 ∷ 0x01 ∷ 1 ∷ 0 ∷ 0xE4 ∷ 0x62 ∷ 1 ∷ 3 ∷ []

abbrev config : Cascade
config = record no_cascade {
  main = record no_file {
    settings =
        (codes "NXP_UWB_EXTENDED_NTF_CONFIG", byte_array (0x20 ∷ 0x04 ∷ 0 ∷ 0 ∷ []))
        ∷ (codes "UWB_CORE_EXT_DEVICE_SR1XX_T_CONFIG", byte_array antenna_block)
        ∷ (codes "NXP_CORE_CONF_BLK_2", byte_array (0x2F ∷ 0x01 ∷ 0 ∷ 0 ∷ []))
        ∷ (codes "UWB_LOW_POWER_MODE", number 1)
        ∷ [];
    valid = true;
  };
}

abbrev accepts : Device
accepts sent = success

abbrev started : Session
started = record { sent = []; antenna = record { is_rx_pair_defined = false; number_of_pairs = 0 } }

antenna-AntennaEnds : AntennaEnds 10 (0xE4 ∷ []) (device_block config b'T')
unfolding get_byte_array find_param lookup bytes_eq parse_antenna_config
antenna-AntennaEnds = λ a. (record { is_rx_pair_defined = true; number_of_pairs = 3 }, refl)

apply_vendor_config-Sends_example :
    (status : ℕ) × (s' : Session) × (apply_vendor_config 10
        (0xE4 ∷ [])
        accepts
        config
        0
        b'T'
        started
      ≡ some (status, s'))
    × (IsAllSent accepts []
          (vendor_blocks config 0 b'T')
          (present (low_power_block config))
          status
          s'.sent
        ⊎ IsStopped accepts [] (vendor_blocks config 0 b'T') status s'.sent)
apply_vendor_config-Sends_example =
    apply_vendor_config-Sends 10 (0xE4 ∷ []) accepts config 0 b'T' started antenna-AntennaEnds

abbrev semaphores : Semaphores
semaphores = record {
  dev_status = true;
  binding_status = true;
  get_binding_status = true;
  do_bind = true;
}

abbrev round : Round
round = record {
  read = pending;
  init_wait = record { posted = true; state = 0 };
  board_config = success;
  ready_wait = record { posted = true; state = 1 };
  reset = success;
  reset_wait = record { posted = true; state = 1 };
  device_info = success;
  binding_posted = true;
  user_boot_mode = true;
  binding_allowed = true;
  vendor_config = some success;
}

-- The first two downloads fail.
abbrev third_works : ℕ → Option ℕ
third_works n = some (if n == 2 then success else failed)

abbrev no_files : FileSystem
no_files path = none

abbrev environment : Environment
environment = record { files = no_files; sku = []; atoi = λ s. pos 0 }

abbrev state : State
state = record {
  config = config;
  settings = reset_settings;
  conf_map = [];
  map_created = false;
  tx_antenna_mask = 1;
  gtx_power = [];
  sent = [];
}

-- A map that an earlier country has left keeps UWB on for an invalid code.
stale_map :
    let (s', response) =
      handle_set_country_code environment accepts b'0' b'0' (record state { map_created = true }) in
    (s'.settings.uwb_enable ≡ true) × (response ≡ 0x4C ∷ 0x01 ∷ 0x00 ∷ 0x01 ∷ 0x00 ∷ [])
unfolding handle_set_country_code set_country_code get_byte_array find_param lookup bytes_eq
stale_map = (refl, refl)

-- The first antenna has a delay for two channels, the second one, which the mask leaves out, for one.
abbrev calibrated : Cascade
calibrated = record no_cascade {
  main = record no_file {
    settings =
        (codes "cal.ant1.ch5.ant_delay", number 0x3A00)
        ∷ (codes "cal.ant1.ch9.ant_delay", number 0x3A2B)
        ∷ (codes "cal.ant2.ch9.ant_delay", number 0x3A2C)
        ∷ [];
    valid = true;
  };
}

do_ant_delay_lem_example :
    do_ant_delay accepts calibrated 1 []
    ≡ (0x2F ∷ 0x21 ∷ 0 ∷ 7 ∷ 5 ∷ 2 ∷ 4 ∷ 1 ∷ 1 ∷ 0x00 ∷ 0x3A ∷ [])
      ∷ (0x2F ∷ 0x21 ∷ 0 ∷ 7 ∷ 9 ∷ 2 ∷ 4 ∷ 1 ∷ 1 ∷ 0x2B ∷ 0x3A ∷ [])
      ∷ []
unfolding get_num find_param lookup bytes_eq
do_ant_delay_lem_example = do_ant_delay_lem accepts calibrated 1 []
