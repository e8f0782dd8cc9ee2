-- ===== src/Codec.antt =====
-- The registry of the codecs of packages/core/src/policy/modules: what each policy module
-- serializes of the state. `none` is a thrown error.
pub mod Sorting
pub mod Policies
pub mod Limits
pub mod Reading
pub mod Restoring
use oxdeai_core.Prelude.{
  ℕ, zero, suc, ℤ, String, Bool, true, false, not, Option, none, some, List, [], ◌∷◌, ◌++◌, map,
  ◌==◌, ◌&&◌, ◌||◌, ◌>>=◌, ◌>>◌, require, leb, ltb, nat_eq, any, get_or, show_ℕ, show_ℤ,
  if◌then◌else◌,
}
use oxdeai_core.Dict.{Dict, get, keys}
use oxdeai_core.Json.{
  Json, undefined, bool, num, str, arr, obj, Items, nil, item, Fields, end, field,
}
use oxdeai_core.Json.Order.{str_ltb}
use oxdeai_core.Crypto.{◌+++◌}
use oxdeai_core.Intent.{action_name}
use oxdeai_core.State.{
  KillSwitchState, AllowLists, VelocityConfig, VelocityCounter, VelocityState, NonceEntry,
  ReplayState, ActiveAuth, ConcurrencyState, RecursionState, ToolEvent, ToolLimitsState, State,
}
use oxdeai_core.Audit.{str_items}
use oxdeai_core.Codec.Policies.{
  normalize_allowlists, normalize_budget, normalize_velocity, normalize_replay,
}
use oxdeai_core.Codec.Limits.{
  normalize_concurrency, normalize_recursion, normalize_tool_limits, normalize_kill_switch,
}

-- `serializeState` of each codec of the registry.
unfoldable pub module_codecs : Dict (State → Option Json)
unfolding normalize_allowlists normalize_budget normalize_velocity normalize_replay
    normalize_concurrency normalize_recursion normalize_tool_limits normalize_kill_switch
module_codecs =
    ("AllowlistModule", λ s. some (normalize_allowlists s.allowlists))
    ∷ ("BudgetModule", λ s. normalize_budget s)
    ∷ ("VelocityModule", λ s. normalize_velocity s.velocity)
    ∷ ("ReplayModule", λ s. normalize_replay s.replay)
    ∷ ("ConcurrencyModule", λ s. normalize_concurrency s.concurrency)
    ∷ ("RecursionDepthModule", λ s. normalize_recursion s.recursion)
    ∷ ("ToolAmplificationModule", λ s. normalize_tool_limits s.tool_limits)
    ∷ ("KillSwitchModule", λ s. normalize_kill_switch s.kill_switch)
    ∷ []
