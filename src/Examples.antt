-- ===== src/Examples.antt =====
-- The theorems at concrete inputs: a small tree of windows, and short runs of the threads.
pub mod Data
pub mod Trees
pub mod Daemons
pub mod Criterions
pub mod Commands
pub mod Texts
pub mod Bars
pub mod Starts
