-- ===== src/Hal.antt =====
-- uwb/halimpl/hal: what the HAL does with received packets, and how it sets the device up.
pub mod CapsInfo
pub mod Receive
mod Tests
pub mod Session
pub mod Calibration
pub mod CountryCode
pub mod TxPower
pub mod Write
pub mod Lifecycle
pub mod Client
