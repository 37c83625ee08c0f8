-- ===== src/Fwd.antt =====
-- uwb/halimpl/fwd/sr1xx: the download of the firmware to the boot ROM of the chip.
pub mod Apdu
pub mod Command
pub mod Master
pub mod Info
pub mod Download
mod Tests
