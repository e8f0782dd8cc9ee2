-- ===== src/Engine/Evaluate/Denied.antt =====
-- What a denied intent leaves in the caller's state object: the changes of the modules that stand
-- before the one that denies.
use oxdeai_core.Prelude.{◌≡◌, Option, none, some, List, [], ◌∷◌}
use oxdeai_core.Authorization.{Authorization}
use oxdeai_core.Intent.{Intent}
use oxdeai_core.State.{State}
use oxdeai_core.Policy.{ReasonCode, StateDelta, deny, no_delta}
use oxdeai_core.Modules.KillSwitch.{kill_switch_module}
use oxdeai_core.Modules.Allowlist.{allowlist_module}
use oxdeai_core.Modules.Budget.{budget_module}
use oxdeai_core.Modules.Replay.{replay_module}
use oxdeai_core.Modules.Concurrency.{concurrency_module}
use oxdeai_core.Modules.RecursionDepth.{recursion_depth_module}
use oxdeai_core.Modules.ToolAmplification.{tool_amplification_module}
use oxdeai_core.Modules.Deltas.{slot_change, replay_change}
use oxdeai_core.Engine.Apply.Outcomes.{IsAllow}

-- The changes of the six modules before the budget module.
abbrev early_deltas : Intent → State → Option StateDelta → List (Option StateDelta)
early_deltas intent state tool =
    none
    ∷ none
    ∷ some (record no_delta { replay = some (replay_change intent state) })
    ∷ none
    ∷ some (record no_delta { concurrency = some (slot_change intent state) })
    ∷ tool
    ∷ []

-- An intent that the first six modules allow and the budget module denies.
pub record IsOverBudget (intent : Intent) (state : State) : Type 0 where
  pub alive : IsAllow (kill_switch_module intent state)
  pub listed : IsAllow (allowlist_module intent state)
  pub fresh : IsAllow (replay_module intent state)
  pub shallow : IsAllow (recursion_depth_module intent state)
  pub slot : IsAllow (concurrency_module intent state)
  pub room : IsAllow (tool_amplification_module intent state)
  pub reason : ReasonCode
  pub over : budget_module intent state ≡ deny (reason ∷ [])
