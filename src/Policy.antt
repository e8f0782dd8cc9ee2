-- ===== src/Policy.antt =====
-- Reasons, results of policy modules and proposed changes of the state,
-- packages/core/src/types/policy.ts.
use oxdeai_core.Prelude.{String, Option, none, List}
use oxdeai_core.State.{BudgetState, VelocityState, ReplayState, ConcurrencyState, ToolLimitsState}

pub data ReasonCode : Type 0 where
  kill_switch allowlist_action allowlist_asset allowlist_target : ReasonCode
  policy_version_mismatch state_invalid budget_exceeded per_action_cap_exceeded : ReasonCode
  velocity_exceeded concurrency_limit_exceeded recursion_depth_exceeded : ReasonCode
  replay_nonce replay_detected auth_expired auth_signature_invalid : ReasonCode
  auth_intent_mismatch internal_error concurrency_release_invalid : ReasonCode
  tool_call_limit_exceeded : ReasonCode

-- `Partial<State>`: the five parts that some module proposes to change.
pub record StateDelta : Type 0 where
  pub budget : Option BudgetState
  pub velocity : Option VelocityState
  pub replay : Option ReplayState
  pub concurrency : Option ConcurrencyState
  pub tool_limits : Option ToolLimitsState

abbrev pub no_delta : StateDelta
no_delta = record {
  budget = none;
  velocity = none;
  replay = none;
  concurrency = none;
  tool_limits = none;
}

pub data PolicyResult : Type 0 where
  allow : Option StateDelta → PolicyResult
  deny : List ReasonCode → PolicyResult

-- The texts of the reasons, as they stand in audit events.
abbrev pub reason_name : ReasonCode → String
reason_name kill_switch = "KILL_SWITCH"
reason_name allowlist_action = "ALLOWLIST_ACTION"
reason_name allowlist_asset = "ALLOWLIST_ASSET"
reason_name allowlist_target = "ALLOWLIST_TARGET"
reason_name policy_version_mismatch = "POLICY_VERSION_MISMATCH"
reason_name state_invalid = "STATE_INVALID"
reason_name budget_exceeded = "BUDGET_EXCEEDED"
reason_name per_action_cap_exceeded = "PER_ACTION_CAP_EXCEEDED"
reason_name velocity_exceeded = "VELOCITY_EXCEEDED"
reason_name concurrency_limit_exceeded = "CONCURRENCY_LIMIT_EXCEEDED"
reason_name recursion_depth_exceeded = "RECURSION_DEPTH_EXCEEDED"
reason_name replay_nonce = "REPLAY_NONCE"
reason_name replay_detected = "REPLAY_DETECTED"
reason_name auth_expired = "AUTH_EXPIRED"
reason_name auth_signature_invalid = "AUTH_SIGNATURE_INVALID"
reason_name auth_intent_mismatch = "AUTH_INTENT_MISMATCH"
reason_name internal_error = "INTERNAL_ERROR"
reason_name concurrency_release_invalid = "CONCURRENCY_RELEASE_INVALID"
reason_name tool_call_limit_exceeded = "TOOL_CALL_LIMIT_EXCEEDED"
