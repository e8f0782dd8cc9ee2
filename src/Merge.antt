-- ===== src/Merge.antt =====
-- The deep merge of a proposed change into a state: `mergeInto` and `deepMerge` of
-- packages/core/src/policy/PolicyEngine.ts, at the types of the state.
--
-- `deepMerge` copies the outer object of its base and no other: `mergeInto` then writes into the
-- base's own nested objects. So the result shares them with the base, and `aliased` is the content
-- of an older copy once a later one has been merged into.
use oxdeai_core.Prelude.{Option, none, some}
use oxdeai_core.Dict.{Dict, merge_into, assign}
use oxdeai_core.State.{
  BudgetState, VelocityCounter, VelocityState, ReplayState, ActiveAuth, ConcurrencyState,
  ToolLimitsState, State,
}
use oxdeai_core.Policy.{StateDelta}
pub mod Laws

abbrev pub merge_budget : BudgetState → BudgetState → BudgetState
merge_budget dst src = record {
  budget_limit = merge_into assign dst.budget_limit src.budget_limit;
  spent_in_period = merge_into assign dst.spent_in_period src.spent_in_period;
}

-- All fields of a counter are written.
abbrev pub merge_counter : VelocityCounter → VelocityCounter → VelocityCounter
merge_counter dst src = record { window_start = src.window_start; count = src.count }

abbrev pub merge_velocity : VelocityState → VelocityState → VelocityState
merge_velocity dst src = record {
  config = record {
    window_seconds = src.config.window_seconds;
    max_actions = src.config.max_actions;
  };
  counters = merge_into merge_counter dst.counters src.counters;
}

-- Arrays are no plain objects: they are assigned.
abbrev pub merge_replay : ReplayState → ReplayState → ReplayState
merge_replay dst src = record {
  window_seconds = src.window_seconds;
  max_nonces_per_agent = src.max_nonces_per_agent;
  nonces = merge_into assign dst.nonces src.nonces;
}

abbrev pub merge_auth : ActiveAuth → ActiveAuth → ActiveAuth
merge_auth dst src = record { expires_at = src.expires_at }

abbrev pub merge_concurrency : ConcurrencyState → ConcurrencyState → ConcurrencyState
merge_concurrency dst src = record {
  max_concurrent = merge_into assign dst.max_concurrent src.max_concurrent;
  active = merge_into assign dst.active src.active;
  active_auths = merge_into (merge_into merge_auth) dst.active_auths src.active_auths;
}

abbrev pub merge_by_tool {ℓ} :
    {V : Type ℓ} → Option (Dict (Dict V)) → Option (Dict (Dict V)) → Option (Dict (Dict V))
merge_by_tool dst none = dst
merge_by_tool none (some src) = some src
merge_by_tool (some dst) (some src) = some (merge_into (merge_into assign) dst src)

abbrev pub merge_tool_limits : ToolLimitsState → ToolLimitsState → ToolLimitsState
merge_tool_limits dst src = record {
  window_seconds = src.window_seconds;
  max_calls = merge_into assign dst.max_calls src.max_calls;
  max_calls_by_tool = merge_by_tool dst.max_calls_by_tool src.max_calls_by_tool;
  calls = merge_into assign dst.calls src.calls;
}

-- A field that the patch has is merged into the base's, or assigned where the base has none.
abbrev pub merge_field {ℓ} : {A : Type ℓ} → (A → A → A) → A → Option A → A
merge_field merge dst none = dst
merge_field merge dst (some src) = merge dst src

abbrev pub merge_optional {ℓ} : {A : Type ℓ} → (A → A → A) → Option A → Option A → Option A
merge_optional merge dst none = dst
merge_optional merge none (some src) = some src
merge_optional merge (some dst) (some src) = some (merge dst src)

unfoldable pub deep_merge : State → StateDelta → State
deep_merge base patch = record base {
  budget = merge_field merge_budget base.budget patch.budget;
  velocity = merge_field merge_velocity base.velocity patch.velocity;
  replay = merge_field merge_replay base.replay patch.replay;
  concurrency = merge_field merge_concurrency base.concurrency patch.concurrency;
  tool_limits = merge_optional merge_tool_limits base.tool_limits patch.tool_limits;
}

-- The content of the object `older` after merges into copies of it have given `merged`: all nested
-- objects are shared, but one that `older` does not have was set on the copy alone.
abbrev pub keep_missing {ℓ} : {A : Type ℓ} → Option A → Option A → Option A
keep_missing none merged = none
keep_missing (some a) merged = merged

unfoldable pub aliased : State → State → State
aliased older merged = record merged {
  policy_version = older.policy_version;
  period_id = older.period_id;
  tool_limits = keep_missing older.tool_limits merged.tool_limits;
}
