-- ===== src/Worker.antt =====
-- pkg/worker: the phases that a worker pod runs on its buckets.
pub mod Spec
pub mod Acc
pub mod Purge
pub mod Platform
pub mod Ranged
pub mod Script
pub mod Object
pub mod Verify
pub mod Reading
pub mod Setup
pub mod Listing
pub mod Deleting
mod Samples
mod Tests
pub mod Walk
pub mod Run
