-- ===== src/Engine/Apply.antt =====
-- The rosters of modules, their results, and the loop of `evaluatePure` that merges the proposed
-- changes into a working state.
pub mod Outcomes
pub mod Effects
pub mod Shared
pub mod Limits
use oxdeai_core.Prelude.{String, Option, none, some, List, [], ◌∷◌, ◌++◌, map}
use oxdeai_core.Intent.{Intent, IntentType, execute, release, intent_type}
use oxdeai_core.State.{State}
use oxdeai_core.Policy.{ReasonCode, StateDelta, PolicyResult, allow, deny}
use oxdeai_core.Modules.KillSwitch.{kill_switch_module}
use oxdeai_core.Modules.Allowlist.{allowlist_module}
use oxdeai_core.Modules.Budget.{budget_module}
use oxdeai_core.Modules.Velocity.{velocity_module}
use oxdeai_core.Modules.Replay.{replay_module}
use oxdeai_core.Modules.Concurrency.{concurrency_module}
use oxdeai_core.Modules.RecursionDepth.{recursion_depth_module}
use oxdeai_core.Modules.ToolAmplification.{tool_amplification_module}
use oxdeai_core.Merge.{deep_merge, aliased}
use oxdeai_core.Engine.Options.{Mode, fail_fast, collect_all}

-- `PolicyModule`; what its codec serializes is in the registry of codecs.
pub record PolicyModule : Type 0 where
  pub id : String
  pub evaluate : Intent → State → PolicyResult

abbrev pub release_modules : List PolicyModule
release_modules =
    record { id = "KillSwitchModule"; evaluate = kill_switch_module }
    ∷ record { id = "ReplayModule"; evaluate = replay_module }
    ∷ record { id = "ConcurrencyModule"; evaluate = concurrency_module }
    ∷ []

abbrev pub execute_modules : List PolicyModule
execute_modules =
    record { id = "KillSwitchModule"; evaluate = kill_switch_module }
    ∷ record { id = "AllowlistModule"; evaluate = allowlist_module }
    ∷ record { id = "ReplayModule"; evaluate = replay_module }
    ∷ record { id = "RecursionDepthModule"; evaluate = recursion_depth_module }
    ∷ record { id = "ConcurrencyModule"; evaluate = concurrency_module }
    ∷ record { id = "ToolAmplificationModule"; evaluate = tool_amplification_module }
    ∷ record { id = "BudgetModule"; evaluate = budget_module }
    ∷ record { id = "VelocityModule"; evaluate = velocity_module }
    ∷ []

abbrev pub modules_for : IntentType → List PolicyModule
modules_for release = release_modules
modules_for execute = execute_modules

-- `modules.map((m) => m.evaluate(intent, working))`: all are evaluated on the state as it was given.
unfoldable pub evaluate_modules : Intent → State → List PolicyResult
evaluate_modules intent state =
    map (λ m. m.evaluate intent state) (modules_for (intent_type intent))

-- The variables of the loop. `caller` is the content of the object that the caller passed, into
-- whose nested objects the merges write.
pub record Applied : Type 0 where
  pub caller : State
  pub working : State
  pub deny_reasons : List ReasonCode

-- `working = deepMerge(working, delta)`
abbrev pub merge_delta : Option StateDelta → Applied → Applied
merge_delta none a = a
merge_delta (some delta) a =
    let merged = deep_merge a.working delta in
    record a { caller = aliased a.caller merged; working = merged }

unfoldable pub apply_results : Mode → List PolicyResult → Applied → Applied
apply_results mode [] a = a
apply_results mode (allow delta ∷ results) a = apply_results mode results (merge_delta delta a)
apply_results fail_fast (deny reasons ∷ results) a = record a {
  deny_reasons = a.deny_reasons ++ reasons;
}
apply_results collect_all (deny reasons ∷ results) a =
    apply_results collect_all results (record a { deny_reasons = a.deny_reasons ++ reasons })
