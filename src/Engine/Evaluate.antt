-- ===== src/Engine/Evaluate.antt =====
-- `evaluatePure`: the decision on an intent in a state, with the events that it emits and what it
-- writes into the caller's state.
pub mod Granted
pub mod Permits
pub mod Entered
pub mod NextState
pub mod Sharing
pub mod Denied
pub mod Release
pub mod Trail
pub mod Caller
pub mod NoReplay
pub mod Memory
pub mod Modes
use oxdeai_core.Prelude.{
  ℕ, ◌+◌, String, not, Option, none, some, List, [], ◌∷◌, map, get_or, is_truthy, show_ℤ, ◌==◌,
  if◌then◌else◌,
}
use oxdeai_core.Dict.{get, put}
use oxdeai_core.Json.{Json, str, num, obj, end, field}
use oxdeai_core.Keyset.{SignatureAlgorithm, ed25519, hmac_sha256, alg_name}
use oxdeai_core.Crypto.{
  Host, intent_hash, engine_sign_hmac, sha256_from_json, auth_v1, sign_ed25519, sign_hmac_domain,
}
use oxdeai_core.Authorization.{
  AuthorizationV1, Authorization, signing_fields, authorization_signing_payload,
}
use oxdeai_core.Intent.{Intent, IntentType, execute, release, action_name, intent_type}
use oxdeai_core.State.{State, ActiveAuth}
use oxdeai_core.Policy.{
  ReasonCode, no_delta, reason_name, state_invalid, policy_version_mismatch, internal_error,
}
use oxdeai_core.Merge.{deep_merge, aliased}
use oxdeai_core.Audit.{intent_received, decision, auth_emitted, allowed, denied}
use oxdeai_core.Engine.Options.{
  EngineOptions, PolicyEngine, Mode, fail_fast, ttl_seconds, issuer, audience, signing_alg,
  signing_kid,
}
use oxdeai_core.Engine.Validate.{validate_intent, validate_state_for_intent}
use oxdeai_core.Engine.Apply.{Applied, evaluate_modules, apply_results}
use oxdeai_core.Engine.Snapshot.{compute_policy_id, compute_state_hash_for}
use oxdeai_core.Engine.Emit.{event, emit_audit, maybe_emit_checkpoint}

pub data EvaluatePureOutput : Type 0 where
  allowing : Authorization → State → EvaluatePureOutput
  denying : List ReasonCode → EvaluatePureOutput

-- The output, the content of the caller's state object, and the engine.
pub record Outcome : Type 0 where
  pub output : EvaluatePureOutput
  pub caller : State
  pub engine : PolicyEngine

abbrev pub stop : ReasonCode → State → PolicyEngine → Outcome
stop reason caller engine = record {
  output = denying (reason ∷ []);
  caller = caller;
  engine = engine;
}

-- The payload of the engine's own signature.
unfoldable pub auth_payload : String → String → String → ℕ → Json
auth_payload intent_hash policy_version state_snapshot_hash expires_at = obj (
    field "intent_hash" (str intent_hash) (
      field "policy_version" (str policy_version) (
        field "state_snapshot_hash" (str state_snapshot_hash)
          (field "decision" (str "ALLOW") (field "expires_at" (num expires_at) end)))))

-- `authorizationCorePayload`, without a signature.
abbrev pub core_payload : EngineOptions → Intent → String → String → String → AuthorizationV1
core_payload opts intent hash state_hash policy_id = record {
  auth_id = "";
  issuer = issuer opts;
  audience = audience opts;
  intent_hash = hash;
  state_hash = state_hash;
  policy_id = policy_id;
  decision = "ALLOW";
  issued_at = some intent.timestamp;
  expiry = some (intent.timestamp + ttl_seconds opts);
  alg = alg_name (signing_alg opts);
  kid = signing_kid opts;
  signature = "";
  nonce = some (show_ℤ intent.nonce);
  capability = some (action_name intent.action_type);
}

-- The deepMerge that enters the new authorization of an EXECUTE intent.
unfoldable pub record_auth : Intent → String → ℕ → Applied → Applied
record_auth intent authorization_id expires_at a =
    let agent = intent.agent_id in
    let auths = a.working.concurrency.active_auths in
    let entered =
      put authorization_id (record { expires_at = expires_at }) (get_or (get agent auths) []) in
    let merged = deep_merge a.working (record no_delta {
      concurrency = some (record a.working.concurrency { active_auths = put agent entered auths });
    }) in
    record a { caller = aliased a.caller merged; working = merged }

abbrev pub enter_auth : IntentType → Intent → String → ℕ → Applied → Applied
enter_auth release intent id expires_at a = a
enter_auth execute intent id expires_at a = record_auth intent id expires_at a

module _ (host : Host) where
  -- The signature over the core payload; `none` where a key is missing or is refused.
  unfoldable pub sign_core : EngineOptions → SignatureAlgorithm → AuthorizationV1 → Option String
  sign_core opts ed25519 core =
      if is_truthy opts.authorization_private_key_pem
      then sign_ed25519 host auth_v1 (authorization_signing_payload core)
          (get_or opts.authorization_private_key_pem "")
      else none
  sign_core opts hmac_sha256 core =
      some (sign_hmac_domain host auth_v1 (authorization_signing_payload core) opts.engine_secret)

  -- The authorization for an intent in a state with the given hash, but for its signature.
  unfoldable pub unsigned_authorization :
      EngineOptions → Intent → State → String → String → String → Authorization
  unsigned_authorization opts intent state hash state_hash policy_id =
      let expires_at = intent.timestamp + ttl_seconds opts in
      let core = core_payload opts intent hash state_hash policy_id in
      let engine_signature =
        engine_sign_hmac host (auth_payload hash state.policy_version state_hash expires_at)
          opts.engine_secret in
      let authorization_id =
        sha256_from_json host
          (obj (signing_fields core (field "engine_signature" (str engine_signature) end))) in
      record {
        v1 = record core { auth_id = authorization_id };
        authorization_id = authorization_id;
        policy_version = state.policy_version;
        state_snapshot_hash = state_hash;
        expires_at = expires_at;
        engine_signature = engine_signature;
      }

  abbrev pub attach_signature : Authorization → String → Authorization
  attach_signature auth signature = record auth { v1 = record auth.v1 { signature = signature } }

  -- The DENY branch.
  unfoldable pub deny_decision : Intent → String → String → Applied → PolicyEngine → Outcome
  deny_decision intent hash policy_id a engine =
      let emitted =
        emit_audit host
          (event (decision hash denied (map reason_name a.deny_reasons) a.caller.policy_version)
            intent.timestamp policy_id)
          engine in
      elim (maybe_emit_checkpoint host policy_id intent.timestamp a.caller emitted) [
        | none ↦ stop internal_error a.caller emitted
        | some engine' ↦ record {
          output = denying a.deny_reasons;
          caller = a.caller;
          engine = engine';
        }
      ]

  -- The ALLOW branch, once the authorization is signed.
  unfoldable pub allow_decision : Intent → Authorization → String → Applied → PolicyEngine → Outcome
  allow_decision intent auth policy_id a engine =
      let a' = enter_auth (intent_type intent) intent auth.authorization_id auth.expires_at a in
      let decided =
        emit_audit host
          (event (decision auth.intent_hash allowed [] a.caller.policy_version) intent.timestamp
            policy_id)
          engine in
      let emitted =
        emit_audit host
          (event (auth_emitted auth.authorization_id auth.intent_hash auth.expires_at)
            intent.timestamp policy_id)
          decided in
      elim (maybe_emit_checkpoint host policy_id intent.timestamp a'.working emitted) [
        | none ↦ stop internal_error a'.caller emitted
        | some engine' ↦ record {
          output = allowing auth a'.working;
          caller = a'.caller;
          engine = engine';
        }
      ]

  unfoldable pub authorize : Intent → String → String → Applied → PolicyEngine → Outcome
  authorize intent hash policy_id a engine =
      elim (compute_state_hash_for host engine.opts a.working) [
        | none ↦ stop internal_error a.caller engine
        | some state_hash ↦
            let unsigned =
              unsigned_authorization engine.opts intent a.caller hash state_hash policy_id in
            elim (sign_core engine.opts (signing_alg engine.opts) unsigned.v1) [
              | none ↦ stop internal_error a.caller engine
              | some signature ↦
                  allow_decision intent (attach_signature unsigned signature) policy_id a engine
            ]
      ]

  abbrev pub decide : Intent → String → String → Applied → List ReasonCode → PolicyEngine → Outcome
  decide intent hash policy_id a [] engine = authorize intent hash policy_id a engine
  decide intent hash policy_id a (_ ∷ _) engine = deny_decision intent hash policy_id a engine

  -- The body of the `try` block: all modules, then the decision.
  unfoldable pub evaluate_checked : Intent → State → Mode → PolicyEngine → Outcome
  evaluate_checked intent state mode engine =
      let hash = intent_hash host intent in
      let policy_id = compute_policy_id host engine.opts in
      let received =
        emit_audit host (event (intent_received hash intent.agent_id) intent.timestamp policy_id)
          engine in
      let applied =
        apply_results mode (evaluate_modules intent state)
          (record { caller = state; working = state; deny_reasons = [] }) in
      decide intent hash policy_id applied applied.deny_reasons received

  unfoldable pub evaluate_pure : Intent → State → Option Mode → PolicyEngine → Outcome
  evaluate_pure intent state mode engine =
      if not (validate_intent intent)
      then stop state_invalid state engine
      else if not (validate_state_for_intent state intent)
      then stop state_invalid state engine
      else if not (state.policy_version == engine.opts.policy_version)
      then stop policy_version_mismatch state engine
      else evaluate_checked intent state (get_or mode fail_fast) engine
