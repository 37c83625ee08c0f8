-- ===== src/Hal/Tests.antt =====
-- Packets that the HAL receives.
use device_xiaomi_odin.Prelude.{
  suc, zero, ℕ, ◌≡◌, ◌≢◌, ◌⊎◌, refl, ◌≤◌, true, false, none, some, [], ◌∷◌, Bytes, arith,
}
use device_xiaomi_odin.Status.{success, pending}
use device_xiaomi_odin.Tml
use device_xiaomi_odin.Tml.State.{fresh}
use device_xiaomi_odin.Tml.Api.{AllSucceed}
use device_xiaomi_odin.Uci.Blocking.{app_config}
use device_xiaomi_odin.Int.{pos}
use device_xiaomi_odin.Timer.{empty}
use device_xiaomi_odin.Config.Cascade.{no_cascade}
use device_xiaomi_odin.Hal.Write.{write_unlocked}
use device_xiaomi_odin.Hal.Write.AppConfig.{answered, write_unlocked-app_config}
use device_xiaomi_odin.Hal.Lifecycle.{Hal, OpenEnvironment, open_hal, close_hal}
use device_xiaomi_odin.Hal.Lifecycle.OpenClose.{IsOpened, IsRefused, open_hal_lem}
use device_xiaomi_odin.Uci.Parse.{Caps}
use device_xiaomi_odin.Hal.CapsInfo.{Antenna, parse_get_caps_info}
use device_xiaomi_odin.Hal.CapsInfo.Rewrite.{plain, vendor, versions}
use device_xiaomi_odin.Hal.CapsInfo.Report.{parse_get_caps_info_lem}
use device_xiaomi_odin.Hal.Receive.{response_status, read_complete}
use device_xiaomi_odin.Hal.Receive.State.{header, DeviceInfo, Control, Environment, Work}
use device_xiaomi_odin.Hal.Receive.Calls.{delivered, reads}
use device_xiaomi_odin.Hal.Receive.Response.{note_params, remember_device_info}
use device_xiaomi_odin.Hal.Receive.Delivery.{read_complete-delivers}
use device_xiaomi_odin.Hal.Receive.OwnCommands.{own_result, read_complete-own}

abbrev antenna : Antenna
antenna = record { is_rx_pair_defined = true; number_of_pairs = 1 }

abbrev no_info : DeviceInfo
no_info = record {
  is_cached = false;
  response = [];
  device_type = 0;
  fw_version = [];
  fw_boot_mode = 0;
}

abbrev no_caps : Caps
no_caps = record {
  input_map = [];
  conf_map = [];
  map_created = false;
  restricted_channel_mask = 0;
  is_skip_packet = false;
}

abbrev waiting : Control
waiting = record {
  caps = no_caps;
  is_open = true;
  has_stack = true;
  device_initialized = true;
  device_state = 0;
  binding_status = 0;
  binding_count = 0;
  fw_dwnld_mode = false;
  ext_enabled = true;
  ext_waiting = true;
  ext_status = 0xFF;
  thermal_recovery = false;
  recovery_timer_started = false;
  device_info = no_info;
  cookie = none;
}

abbrev environment : Environment
environment = record {
  fuel = 10;
  antenna = antenna;
  vendor_capability = some (0xA7 ∷ 1 ∷ 3 ∷ []);
  timer_start = success;
}

-- A report with an entry of the vendor, one of FiRa and the protocol versions of CCC.
parse_get_caps_info_lem_example :
    parse_get_caps_info antenna (some (0xA7 ∷ 1 ∷ 3 ∷ [])) (
      0x40 ∷ 0x03 ∷ 0x00 ∷ 13 ∷ 0x00 ∷ 3 ∷ 0xE3 ∷ 0x02 ∷ 1 ∷ 9 ∷ 0x0E ∷ 1 ∷ 0xFF ∷ 0xA4 ∷ 2 ∷ 1 ∷ 0
      ∷ [])
    ≡ some (
        0x40 ∷ 0x03 ∷ 0x00 ∷ 12 ∷ 0x00 ∷ 3 ∷ 0x0E ∷ 1 ∷ 0xFF ∷ 0xA4 ∷ 2 ∷ 0 ∷ 1 ∷ 0xA7 ∷ 1 ∷ 3 ∷ [])
parse_get_caps_info_lem_example =
    parse_get_caps_info_lem antenna
      (vendor 0xE3 0x02 (9 ∷ []) ∷ plain 0x0E (0xFF ∷ []) ∷ versions 1 0 ∷ []) 0xA7 (3 ∷ []) []
      (refl, (refl, (tt, tt))) (omega arith) (omega arith)

-- With one antenna pair, the AoA support is written over the value of the entry in front, and is
-- itself reported with that value.
aoa_overwrites :
    parse_get_caps_info antenna none
      (0x40 ∷ 0x03 ∷ 0x00 ∷ 8 ∷ 0x00 ∷ 2 ∷ 0x0E ∷ 1 ∷ 0xFF ∷ 0x13 ∷ 1 ∷ 5 ∷ [])
    ≡ some (0x40 ∷ 0x03 ∷ 0x00 ∷ 8 ∷ 0x00 ∷ 2 ∷ 0x0E ∷ 1 ∷ 0x01 ∷ 0x13 ∷ 1 ∷ 5 ∷ [])
unfolding parse_get_caps_info
aoa_overwrites = refl

abbrev device_info_rsp : Bytes
device_info_rsp =
    0x40 ∷ 0x02 ∷ 0 ∷ 15 ∷ 0 ∷ 1 ∷ 1 ∷ 2 ∷ 0 ∷ 2 ∷ 0 ∷ 2 ∷ 0 ∷ 5 ∷ 0x01 ∷ 3 ∷ 33 ∷ 7 ∷ 1 ∷ []

abbrev info : DeviceInfo
info = record {
  is_cached = true;
  response = device_info_rsp;
  device_type = 0;
  fw_version = 33 ∷ 7 ∷ 1 ∷ [];
  fw_boot_mode = 0;
}

read_complete-own_example :
    read_complete environment success device_info_rsp waiting
    ≡ some (own_result device_info_rsp waiting info success)
unfolding header remember_device_info response_status
read_complete-own_example =
    read_complete-own environment device_info_rsp waiting info success refl refl refl refl

read_complete-delivers_example :
    (w : Work) × (read_complete environment success device_info_rsp waiting ≡ some w)
    × (delivered w.events ≤ 1)
    × (reads w.events ≡ 1)
unfolding header remember_device_info parse_get_caps_info
read_complete-delivers_example =
    read_complete-delivers environment device_info_rsp device_info_rsp waiting info refl refl refl

-- The vendor's AoA parameter goes, and channel 9 is not allowed.
write_unlocked-app_config_example :
    write_unlocked
      (record { fuel = 5; sem_ok = true; tml_write = pending; waited = true; tx_power_offset = 0 })
      false
      (app_config 1 0 0 0 ((0xE3, 1 ∷ []) ∷ (0x04, 9 ∷ []) ∷ []))
      (record no_caps { restricted_channel_mask = 512 })
    ≡ some (answered 15 (record no_caps { restricted_channel_mask = 512 }))
write_unlocked-app_config_example =
    write_unlocked-app_config
      (record { fuel = 5; sem_ok = true; tml_write = pending; waited = true; tx_power_offset = 0 })
      false 1 0 0 0 ((0xE3, 1 ∷ []) ∷ (0x04, 9 ∷ []) ∷ [])
      (record no_caps { restricted_channel_mask = 512 })
      (
        (omega arith, refl, omega arith, omega arith),
        ((omega arith, refl, omega arith, omega arith), tt),
      )
      (omega arith) (omega arith) (refl, refl, refl)

abbrev closed : Hal
closed = record {
  is_open = false;
  has_stack = false;
  open_status = false;
  device_initialized = false;
  tml = none;
  is_locked = false;
  timers = empty;
  timeout_timer_id = 0;
  config = no_cascade;
}

abbrev comes_up : Tml.Environment
comes_up = record {
  allocated = true;
  spi_open = 0;
  rx_sem_init = 0;
  tx_sem_init = 0;
  wait_read_init = 0;
  read_abort_init = 0;
  post_sem_init = 0;
  reader_create = 0;
  writer_create = 0;
}

abbrev queue : ℕ
queue = 5

abbrev no_thread : OpenEnvironment
no_thread = record {
  files = record { files = λ path. none; sku = []; atoi = λ s. pos 0 };
  timer_create = some 9;
  monitor = true;
  queue = queue;
  tml = comes_up;
  thread_created = false;
}

open_hal_lem_example :
    let (status, h, reports) = open_hal no_thread closed in
    ((AllSucceed comes_up × (queue ≢ 0)) × (false ≡ true) × IsOpened queue h reports status)
    ⊎ (((false ≡ false) ⊎ ¬ (AllSucceed comes_up × (queue ≢ 0))) × IsRefused h reports)
open_hal_lem_example = open_hal_lem no_thread closed refl (refl, refl)

-- Without its client thread the HAL is closed, and opening it returns success.
open_without_thread :
    let (status, h, reports) = open_hal no_thread closed in (status ≡ success) × (h.is_open ≡ false)
unfolding open_hal Tml.init Tml.shutdown
open_without_thread = (refl, refl)

-- Without a semaphore, closing returns with the lock held.
close_without_semaphore :
    (close_hal false (record closed { is_open = true; tml = some (fresh 5) })).1.is_locked ≡ true
unfolding close_hal
close_without_semaphore = refl

-- A parameter of the device information with a length byte of 254 is read for ever.
abbrev endless_info : Bytes
endless_info = 0x40 ∷ 0x02 ∷ 0 ∷ 20 ∷ 0 ∷ 1 ∷ 1 ∷ 2 ∷ 0 ∷ 2 ∷ 0 ∷ 2 ∷ 0 ∷ 10 ∷ 0x05 ∷ 254 ∷ []

note_params_never : (n : ℕ) → note_params n 24 14 endless_info no_info ≡ none
unfolding note_params
note_params_never zero = refl
note_params_never (suc n) = note_params_never n
