-- ===== src/Workload.antt =====
-- pkg/workload: how a run is put together and how it ends.
pub mod Finalize
pub mod Object
pub mod Backend
