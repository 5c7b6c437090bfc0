-- ===== src/Bar.antt =====
-- swayrbar: the status bar, a program of its own that shares swayr/src/shared/ with swayr.
pub mod Config
pub mod Outside
pub mod Quiet
pub mod Module
pub mod Defaults
pub mod Window
pub mod Battery
pub mod Pactl
pub mod Nmcli
pub mod Date
pub mod Sysinfo
pub mod Status
pub mod Clicks
pub mod Events
