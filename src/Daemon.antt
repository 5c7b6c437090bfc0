-- ===== src/Daemon.antt =====
-- swayr/src/daemon.rs: the threads of swayrd, a module for each, and the system that they form.
pub mod LockIn
pub mod Events
pub mod Monitor
pub mod AutoNop
pub mod System
pub mod Serve
