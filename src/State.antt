-- ===== src/State.antt =====
-- The policy state, packages/core/src/types/state.ts. Objects with agents, tools or authorization
-- ids for keys are dictionaries.
use oxdeai_core.Prelude.{ℕ, ℤ, String, Bool, Option, List}
use oxdeai_core.Dict.{Dict}
use oxdeai_core.Intent.{ActionType}

pub record KillSwitchState : Type 0 where
  pub global : Bool
  pub agents : Dict Bool

pub record AllowLists : Type 0 where
  pub action_types : Option (List ActionType)
  pub assets : Option (List String)
  pub targets : Option (List String)

pub record BudgetState : Type 0 where
  pub budget_limit : Dict ℤ
  pub spent_in_period : Dict ℤ

pub record VelocityConfig : Type 0 where
  pub window_seconds : ℕ
  pub max_actions : ℕ

pub record VelocityCounter : Type 0 where
  pub window_start : ℕ
  pub count : ℕ

pub record VelocityState : Type 0 where
  pub config : VelocityConfig
  pub counters : Dict VelocityCounter

pub record NonceEntry : Type 0 where
  pub nonce : String
  pub ts : ℕ

pub record ReplayState : Type 0 where
  pub window_seconds : ℕ
  pub max_nonces_per_agent : ℕ
  pub nonces : Dict (List NonceEntry)

pub record ActiveAuth : Type 0 where
  pub expires_at : ℕ

pub record ConcurrencyState : Type 0 where
  pub max_concurrent : Dict ℕ
  pub active : Dict ℕ
  pub active_auths : Dict (Dict ActiveAuth)

pub record RecursionState : Type 0 where
  pub max_depth : Dict ℕ

pub record ToolEvent : Type 0 where
  pub ts : ℕ
  pub tool : Option String

pub record ToolLimitsState : Type 0 where
  pub window_seconds : ℕ
  pub max_calls : Dict ℕ
  pub max_calls_by_tool : Option (Dict (Dict ℕ))
  pub calls : Dict (List ToolEvent)

pub record State : Type 0 where
  pub policy_version : String
  pub period_id : String
  pub kill_switch : KillSwitchState
  pub allowlists : AllowLists
  pub budget : BudgetState
  pub max_amount_per_action : Dict ℤ
  pub velocity : VelocityState
  pub replay : ReplayState
  pub concurrency : ConcurrencyState
  pub recursion : RecursionState
  pub tool_limits : Option ToolLimitsState
