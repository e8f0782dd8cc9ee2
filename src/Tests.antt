-- ===== src/Tests.antt =====
-- The theorems at concrete inputs.
pub mod Artifacts
pub mod Setting
pub mod Decisions
pub mod Logs
pub mod Runs
pub mod Guards
pub mod Snapshots
pub mod Envelopes
pub mod Imports
pub mod Parties
