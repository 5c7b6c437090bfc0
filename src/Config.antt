-- ===== src/Config.antt =====
-- swayr/src/config.rs: the configuration of swayrd, its defaults and the getters that fall back on
-- them. Reading and writing the file is not modelled.
pub mod Defaults
pub mod Getters
