-- ===== src/Engine.antt =====
-- The policy engine, packages/core/src/policy/PolicyEngine.ts: its options and state, the checks of
-- its input, the loop over the modules' results, the decision and the authorization, the snapshot
-- and the engine's own verification. The proofs are in the modules whose names say what they prove.
pub mod Options
pub mod Validate
pub mod Apply
pub mod Snapshot
pub mod Emit
pub mod Evaluate
pub mod Verify
pub mod Run
pub mod Import
