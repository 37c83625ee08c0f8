-- ===== src/Hal/TxPower/Tests.antt =====
-- The powers of a calibration with one antenna, under two countries.
use device_xiaomi_odin.Status.{success}
use device_xiaomi_odin.Hal.Session.{Device}
use device_xiaomi_odin.Hal.TxPower.Shift.{Power}

abbrev accepts : Device
accepts sent = success

abbrev power : Power
power = record { antenna = 1; peak_low = 0; peak_high = 0; rms = 0x0150 }
