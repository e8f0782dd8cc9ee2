-- ===== src/Modules.antt =====
-- The policy modules of packages/core/src/policy/modules, one file each, and their two rosters.
pub mod KillSwitch
pub mod Allowlist
pub mod Budget
pub mod Velocity
pub mod Replay
pub mod Concurrency
pub mod RecursionDepth
pub mod ToolAmplification
pub mod Spec
pub mod Sound
pub mod Reasons
pub mod Deltas
