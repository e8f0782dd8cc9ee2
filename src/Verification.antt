-- ===== src/Verification.antt =====
-- The stateless verifiers, packages/core/src/verification and packages/core/src/replay/verify.ts.
pub mod Types
pub mod Snapshots
pub mod Envelopes
pub mod Authorizations
pub mod Events
pub mod Replays
