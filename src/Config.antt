-- ===== src/Config.antt =====
-- uwb/halimpl/utils/phNxpConfig.cc: configuration files and the settings read from them.
pub mod Chars
pub mod Param
pub mod Reader
pub mod Text
pub mod File
pub mod Region
pub mod Cascade
