-- ===== src/Modules/Reasons.antt =====
-- Every denial of a policy module has a reason.
use oxdeai_core.Prelude.{◌≢◌, [], arith}
use oxdeai_core.Intent.{Intent}
use oxdeai_core.State.{State}
use oxdeai_core.Policy.{deny}
use oxdeai_core.Modules.KillSwitch.{kill_switch_module}
use oxdeai_core.Modules.Allowlist.{allowlist_module}
use oxdeai_core.Modules.Budget.{budget_module}
use oxdeai_core.Modules.Velocity.{velocity_module}
use oxdeai_core.Modules.Replay.{replay_module}
use oxdeai_core.Modules.Concurrency.{concurrency_module}
use oxdeai_core.Modules.RecursionDepth.{recursion_depth_module}
use oxdeai_core.Modules.ToolAmplification.{tool_amplification_module}

-- No module denies with no reason.
module _ (intent : Intent) (state : State) where
  pub kill_switch-ne-deny : kill_switch_module intent state ≢ deny []
  unfolding kill_switch_module
  kill_switch-ne-deny = ground arith

  pub allowlist-ne-deny : allowlist_module intent state ≢ deny []
  unfolding allowlist_module
  allowlist-ne-deny = ground arith

  pub budget-ne-deny : budget_module intent state ≢ deny []
  unfolding budget_module
  budget-ne-deny = ground arith

  pub velocity-ne-deny : velocity_module intent state ≢ deny []
  unfolding velocity_module
  velocity-ne-deny = ground arith

  pub replay-ne-deny : replay_module intent state ≢ deny []
  unfolding replay_module
  replay-ne-deny = ground arith

  pub concurrency-ne-deny : concurrency_module intent state ≢ deny []
  unfolding concurrency_module
  concurrency-ne-deny = ground arith

  pub recursion_depth-ne-deny : recursion_depth_module intent state ≢ deny []
  unfolding recursion_depth_module
  recursion_depth-ne-deny = ground arith

  pub tool_amplification-ne-deny : tool_amplification_module intent state ≢ deny []
  unfolding tool_amplification_module
  tool_amplification-ne-deny = ground arith
