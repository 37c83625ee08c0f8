-- ===== src/Uci.antt =====
-- uwb/halimpl/hal/phNxpUciHal.cc and phNxpUciHal_ext.cc: what the HAL does with UCI packets.
pub mod Packet
pub mod Tlv
pub mod Parse
pub mod CapsReport
pub mod Blocking
pub mod AppConfig
pub mod Country
pub mod Command
mod Tests
