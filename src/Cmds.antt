-- ===== src/Cmds.antt =====
-- swayr/src/cmds.rs: the commands of swayrd.
pub mod Command
pub mod World
pub mod Run
pub mod Matching
pub mod Direction
pub mod Walk
pub mod SwitchTo
pub mod Tiling
pub mod Select
pub mod Swaymsg
pub mod Exec
