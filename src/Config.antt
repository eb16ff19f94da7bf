-- ===== src/Config.antt =====
-- pkg/config: what a run is asked to do.
pub mod Object
pub mod Profiles
