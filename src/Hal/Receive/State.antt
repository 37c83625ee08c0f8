-- ===== src/Hal/Receive/State.antt =====
-- The parts of nxpucihal_ctrl and extNxpucihal_ctrl of uwb/halimpl/hal that a received packet
-- touches, and what receiving it asks for.
use device_xiaomi_odin.Prelude.{ℕ, ◌/◌, ◌%◌, Bool, Option, List, ◌==◌, Bytes}
use device_xiaomi_odin.Uci.Packet.{byte, message_type}
use device_xiaomi_odin.Uci.Parse.{Caps, Action, set_country_code, process_calibration, to_stack}
use device_xiaomi_odin.Hal.CapsInfo.{Antenna}

-- The first two bytes of a packet: mt, pbf, gid and oid.
pub record Header : Type 0 where
  pub mt : ℕ
  pub pbf : Bool
  pub gid : ℕ
  pub oid : ℕ

unfoldable pub header : Bytes → Header
header p = record {
  mt = message_type p;
  pbf = byte p 0 / 16 % 2 == 1;
  gid = byte p 0 % 16;
  oid = byte p 1 % 64;
}

-- The cache of CORE_DEVICE_INFO_RSP; the firmware version is three numbers.
pub record DeviceInfo : Type 0 where
  pub is_cached : Bool
  pub response : Bytes
  pub device_type : ℕ
  pub fw_version : List ℕ
  pub fw_boot_mode : ℕ

-- ReadOtpCookie; the buffer is what has been read.
pub record Cookie : Type 0 where
  pub is_valid : Bool
  pub len : ℕ
  pub buffer : Bytes

-- The fields of the control blocks. `is_open` is halStatus != HAL_STATUS_CLOSE, `has_stack` says that
-- p_uwb_stack_data_cback is set, and `cookie` is the context of calib_data_ntf_wait.
pub record Control : Type 0 where
  pub caps : Caps
  pub is_open : Bool
  pub has_stack : Bool
  pub device_initialized : Bool
  pub device_state : ℕ
  pub binding_status : ℕ
  pub binding_count : ℕ
  pub fw_dwnld_mode : Bool
  pub ext_enabled : Bool
  pub ext_waiting : Bool
  pub ext_status : ℕ
  pub thermal_recovery : Bool
  pub recovery_timer_started : Bool
  pub device_info : DeviceInfo
  pub cookie : Option Cookie

-- What receiving a packet takes from elsewhere: UWB_VENDOR_CAPABILITY of the configuration, the
-- antennas, the status of phOsalUwb_Timer_Start, and the fuel of the loops over a packet.
pub record Environment : Type 0 where
  pub fuel : ℕ
  pub antenna : Antenna
  pub vendor_capability : Option Bytes
  pub timer_start : ℕ

-- The semaphores that are posted.
pub data Wait : Type 0 where
  ext_cb dev_status_ntf binding_status_ntf get_binding_status_ntf do_bind_ntf : Wait
  calib_data_ntf : Wait

-- The calls that are made: the callback of the stack, SEM_POST, the handling of a country code and
-- of a calibration command, the timer and the condition of the recovery, and phTmlUwb_Read.
pub data Event : Type 0 where
  deliver : Bytes → Event
  post : Wait → Event
  handle_country : ℕ → ℕ → Event
  handle_calibration : Bytes → Event
  start_recovery_timer stop_recovery_timer signal_recovery : Event
  read_again : Event

abbrev pub of_action : Action → Event
of_action (set_country_code a b) = handle_country a b
of_action (process_calibration p) = handle_calibration p
of_action (to_stack p) = deliver p

-- A packet in work: p_rx_data with its length, isSkipPacket and bWakeupExtCmd.
pub record Work : Type 0 where
  pub control : Control
  pub packet : Bytes
  pub skip : Bool
  pub wakeup : Bool
  pub events : List Event
