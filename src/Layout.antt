-- ===== src/Layout.antt =====
-- swayr/src/layout.rs: automatic tiling, and the frame of the commands that lay a workspace out anew.
pub mod Tiling
pub mod Relayout
