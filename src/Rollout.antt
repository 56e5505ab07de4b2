-- ===== src/Rollout.antt =====
-- The rollout views of src/rollout: read-only, derived from one snapshot.
pub mod Snapshot
pub mod Views
pub mod Health
pub mod Failures
pub mod Explain
pub mod History
pub mod Counts
mod Tests
