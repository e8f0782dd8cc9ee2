-- ===== src/Tests/Decisions.antt =====
-- Theorems on `evaluatePure` at a concrete engine, state and intents.
use oxdeai_core.Prelude.{
  String, ◌≡◌, ◌≢◌, ◌≤◌, All, length, refl, none, some, true, Bool, false, List, [], ◌∷◌, ◌-◌, pos,
  get_or, leb, if◌then◌else◌,
}
use oxdeai_core.Dict.{get}
use oxdeai_core.Authorization.{Authorization}
use oxdeai_core.State.{State}
use oxdeai_core.Policy.{StateDelta, auth_expired, budget_exceeded, allow}
use oxdeai_core.Intent.{Intent}
use oxdeai_core.Modules.Concurrency.{concurrency_module}
use oxdeai_core.Modules.Deltas.{active_count, held_auths}
use oxdeai_core.Engine.Options.{collect_all}
use oxdeai_core.Engine.Evaluate.Modes.{allowed_in_each_mode}
use oxdeai_core.Engine.Validate.{validate_intent, validate_state_for_intent}
use oxdeai_core.Engine.Evaluate.{Outcome, EvaluatePureOutput, evaluate_pure, allowing, denying}
use oxdeai_core.Engine.Evaluate.Permits.{IsPermitted, allow_implies-IsPermitted}
use oxdeai_core.Engine.Evaluate.Sharing.{evaluate_pure_writes_caller}
use oxdeai_core.Engine.Evaluate.Release.{allow_release_keeps_auths, allow_release_repeats}
use oxdeai_core.Prelude.{arith}
use oxdeai_core.Engine.Verify.{verify_authorization, valid, invalid}
use oxdeai_core.Engine.Verify.Issued.{issued_verifies}
use oxdeai_core.Engine.Evaluate.NoReplay.{allowed_once}
use oxdeai_core.Engine.Evaluate.Memory.{IsRecent, allowed_nonces_bounded}
use oxdeai_core.Tests.Setting.{toy_host, options, engine, state, pay, costly, dismiss}

abbrev pub granted_pay : Outcome
granted_pay = evaluate_pure toy_host pay state none engine

abbrev granted_dismiss : Outcome
granted_dismiss = evaluate_pure toy_host dismiss state none engine

abbrev denied_costly : Outcome
denied_costly = evaluate_pure toy_host costly state none engine

abbrev is_allowing : EvaluatePureOutput → Bool
is_allowing (allowing auth next) = true
is_allowing (denying reasons) = false

pub false_ne_true : false ≢ true
false_ne_true = cc

abbrev pub allowed_output :
    (o : EvaluatePureOutput)
    → is_allowing o ≡ true
    → (auth : Authorization) × (next : State) × (o ≡ allowing auth next)
allowed_output (allowing auth next) h = (auth, next, refl)
allowed_output (denying reasons) h = absurd (false_ne_true h)

-- The action and the release are allowed, the action with three events, and the costly one is denied
-- for its budget.
pub outputs :
    (is_allowing granted_pay.output ≡ true)
    × (is_allowing granted_dismiss.output ≡ true)
    × (granted_pay.engine.audit_event_count ≡ 3)
    × (denied_costly.output ≡ denying (budget_exceeded ∷ []))
unfolding evaluate_pure oxdeai_core.Engine.Validate.validate_intent
    oxdeai_core.Engine.Validate.validate_state_for_intent oxdeai_core.Dict.get
    oxdeai_core.Engine.Evaluate.evaluate_checked oxdeai_core.Engine.Apply.apply_results
    oxdeai_core.Engine.Apply.evaluate_modules oxdeai_core.Modules.KillSwitch.kill_switch_module
    oxdeai_core.Modules.Allowlist.allowlist_module oxdeai_core.Modules.Replay.replay_module
    oxdeai_core.Modules.Replay.nonce_key oxdeai_core.Prelude.show_ℤ
    oxdeai_core.Modules.RecursionDepth.recursion_depth_module
    oxdeai_core.Modules.Concurrency.concurrency_module
    oxdeai_core.Modules.ToolAmplification.tool_amplification_module
    oxdeai_core.Modules.Budget.budget_module oxdeai_core.Prelude.◌+ℤ◌
    oxdeai_core.Modules.Velocity.velocity_module oxdeai_core.Audit.canonicalize_entry
    oxdeai_core.Authorization.authorization_signing_payload oxdeai_core.Codec.Limits.calls_json
    oxdeai_core.Codec.Limits.concurrency_rows oxdeai_core.Codec.Limits.normalize_concurrency
    oxdeai_core.Codec.Limits.normalize_kill_switch oxdeai_core.Codec.Limits.normalize_recursion
    oxdeai_core.Codec.Limits.normalize_tool_limits oxdeai_core.Codec.Policies.fresh_keys
    oxdeai_core.Codec.Policies.nonces_json oxdeai_core.Codec.Policies.normalize_allowlists
    oxdeai_core.Codec.Policies.normalize_budget oxdeai_core.Codec.Policies.normalize_replay
    oxdeai_core.Codec.Policies.normalize_velocity oxdeai_core.Codec.Sorting.insert_entry
    oxdeai_core.Codec.Sorting.object_of oxdeai_core.Codec.Sorting.remove_text
    oxdeai_core.Codec.Sorting.sorted_entries oxdeai_core.Codec.Sorting.sorted_object
    oxdeai_core.Codec.Sorting.uniq_sorted oxdeai_core.Codec.Sorting.unique
    oxdeai_core.Codec.module_codecs oxdeai_core.Crypto.engine_sign_hmac
    oxdeai_core.Crypto.intent_binding oxdeai_core.Crypto.intent_hash
    oxdeai_core.Crypto.normalize_pem oxdeai_core.Crypto.sha256_from_json
    oxdeai_core.Crypto.sign_ed25519 oxdeai_core.Crypto.sign_hmac_domain
    oxdeai_core.Crypto.signature_input oxdeai_core.Dict.keys oxdeai_core.Dict.merge_into
    oxdeai_core.Dict.put oxdeai_core.Dict.remove oxdeai_core.Engine.Emit.emit_audit
    oxdeai_core.Engine.Emit.maybe_emit_checkpoint oxdeai_core.Engine.Evaluate.allow_decision
    oxdeai_core.Engine.Evaluate.auth_payload oxdeai_core.Engine.Evaluate.authorize
    oxdeai_core.Engine.Evaluate.deny_decision oxdeai_core.Engine.Evaluate.record_auth
    oxdeai_core.Engine.Evaluate.sign_core oxdeai_core.Engine.Evaluate.unsigned_authorization
    oxdeai_core.Engine.Snapshot.compute_policy_id oxdeai_core.Engine.Snapshot.compute_state_hash_for
    oxdeai_core.Engine.Snapshot.policy_payload oxdeai_core.Json.canonical_json
    oxdeai_core.Json.canonicalize oxdeai_core.Json.insert_field oxdeai_core.Json.json_stringify
    oxdeai_core.Json.normalize oxdeai_core.Json.quote oxdeai_core.Json.quote_from
    oxdeai_core.Json.sort_fields oxdeai_core.Json.stable_stringify oxdeai_core.Log.append
    oxdeai_core.Log.compute_next_hash oxdeai_core.Log.message oxdeai_core.Merge.aliased
    oxdeai_core.Merge.deep_merge oxdeai_core.Prelude.show_from oxdeai_core.Prelude.show_ℕ
    oxdeai_core.Prelude.insert_by oxdeai_core.Prelude.sort_by
outputs = (refl, refl, refl, refl)

abbrev pub paid :
    (auth : Authorization) × (next : State) × (granted_pay.output ≡ allowing auth next)
paid = allowed_output granted_pay.output outputs.0

abbrev dismissed :
    (auth : Authorization) × (next : State) × (granted_dismiss.output ≡ allowing auth next)
dismissed = allowed_output granted_dismiss.output outputs.1

allow_implies-IsPermitted_example :
    (state.policy_version ≡ engine.opts.policy_version) × IsPermitted pay state
allow_implies-IsPermitted_example =
    allow_implies-IsPermitted toy_host pay state none engine paid.0 paid.1 refl paid.2

evaluate_pure_writes_caller_example : granted_pay.caller ≡ paid.1
evaluate_pure_writes_caller_example =
    evaluate_pure_writes_caller toy_host pay state none engine paid.0 paid.1 paid.2

allow_release_keeps_auths_example :
    (get "a" dismissed.1.concurrency.active ≡ some (active_count dismiss state - 1))
    × ((id : String)
        → get id (get_or (get "a" dismissed.1.concurrency.active_auths) [])
          ≡ get id (held_auths dismiss state))
allow_release_keeps_auths_example =
    allow_release_keeps_auths toy_host dismiss state none engine dismissed.0 dismissed.1 refl
      dismissed.2

allow_release_repeats_example :
    (delta : StateDelta) × (concurrency_module dismiss dismissed.1 ≡ allow (some delta))
allow_release_repeats_example =
    allow_release_repeats toy_host dismiss state none engine dismissed.0 dismissed.1 dismiss refl
      refl refl refl dismissed.2

-- The authorization is valid for a minute.
issued_verifies_example :
    verify_authorization toy_host options pay paid.0 state (some 1010) 0
    ≡ (if leb 1010 paid.0.expires_at then valid else invalid auth_expired)
issued_verifies_example =
    issued_verifies toy_host pay state none engine paid.0 paid.1 paid.2 state 1010 0 refl

-- The same action 50 seconds later.
abbrev pub pay_again : Intent
pay_again = record pay { timestamp = 1050 }

allowed_once_example :
    (evaluate_pure toy_host pay_again paid.1 none engine).output ≢ allowing paid.0 paid.1
allowed_once_example =
    allowed_once toy_host pay state none engine paid.0 paid.1 refl paid.2 (omega arith) pay_again
      none engine paid.0 paid.1 refl refl refl (omega arith)

allowed_nonces_bounded_example :
    (length (get_or (get pay.agent_id paid.1.replay.nonces) []) ≤ state.replay.max_nonces_per_agent)
    × All
        (IsRecent (pay.timestamp - state.replay.window_seconds))
        (get_or (get pay.agent_id paid.1.replay.nonces) [])
allowed_nonces_bounded_example =
    allowed_nonces_bounded toy_host pay state none engine paid.0 paid.1 refl paid.2

allowed_in_each_mode_example :
    granted_pay ≡ evaluate_pure toy_host pay state (some collect_all) engine
allowed_in_each_mode_example =
    allowed_in_each_mode toy_host pay state engine none (some collect_all) paid.0 paid.1 paid.2
