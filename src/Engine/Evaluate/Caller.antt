-- ===== src/Engine/Evaluate/Caller.antt =====
-- What the caller's state object can hold after `evaluatePure`: the state as it was, what the loop
-- has left, or that with the new authorization.
use oxdeai_core.Prelude.{
  ℕ, String, ◌≡◌, refl, sym, subst, Bool, true, false, not, ◌==◌, Option, List, [], ◌∷◌, get_or,
  arith, Option-cases, inl, inr, map, if◌then◌else◌,
}
use oxdeai_core.Crypto.{Host}
use oxdeai_core.Authorization.{Authorization}
use oxdeai_core.Intent.{Intent, intent_type}
use oxdeai_core.State.{State}
use oxdeai_core.Policy.{ReasonCode, reason_name}
use oxdeai_core.Audit.{decision, auth_emitted, allowed, denied}
use oxdeai_core.Engine.Options.{PolicyEngine, Mode, fail_fast, signing_alg}
use oxdeai_core.Engine.Validate.{validate_intent, validate_state_for_intent}
use oxdeai_core.Engine.Apply.{Applied}
use oxdeai_core.Engine.Snapshot.{compute_state_hash_for}
use oxdeai_core.Engine.Emit.{event, emit_audit, maybe_emit_checkpoint}
use oxdeai_core.Engine.Evaluate.{
  Outcome, EvaluatePureOutput, allowing, denying, enter_auth, unsigned_authorization, sign_core,
  attach_signature, deny_decision, allow_decision, authorize, decide, evaluate_checked,
  evaluate_pure,
}
use oxdeai_core.Engine.Evaluate.Granted.{applied}
use oxdeai_core.Engine.Evaluate.Sharing.{evaluate_pure_writes_caller}
use oxdeai_core.Engine.Run.{state_after}

module _ (host : Host) (intent : Intent) (Q : State → Type 0) (a : Applied) (held : Q a.caller)
    (entered : (id : String) (expires_at : ℕ)
      → Q (enter_auth (intent_type intent) intent id expires_at a).caller) where
  caller-deny_decision :
      (hash policy_id : String) (engine : PolicyEngine)
      → Q (deny_decision host intent hash policy_id a engine).caller
  unfolding deny_decision
  caller-deny_decision hash policy_id engine =
      let emitted =
        emit_audit host
          (event (decision hash denied (map reason_name a.deny_reasons) a.caller.policy_version)
            intent.timestamp policy_id)
          engine in
      elim (Option-cases (maybe_emit_checkpoint host policy_id intent.timestamp a.caller emitted)) [
        | inl e ↦ subst Q (ground arith) held
        | inr (new, e) ↦ subst Q (ground arith) held
      ]

  caller-allow_decision :
      (auth : Authorization) (policy_id : String) (engine : PolicyEngine)
      → Q (allow_decision host intent auth policy_id a engine).caller
  unfolding allow_decision
  caller-allow_decision auth policy_id engine =
      let given = entered auth.authorization_id auth.expires_at in
      let emitted =
        emit_audit host
          (event (auth_emitted auth.authorization_id auth.intent_hash auth.expires_at)
            intent.timestamp policy_id)
          (emit_audit host
            (event (decision auth.intent_hash allowed [] a.caller.policy_version) intent.timestamp
              policy_id)
            engine) in
      let work =
        (enter_auth (intent_type intent) intent auth.authorization_id auth.expires_at a).working in
      elim (Option-cases (maybe_emit_checkpoint host policy_id intent.timestamp work emitted)) [
        | inl e ↦ subst Q (ground arith) given
        | inr (new, e) ↦ subst Q (ground arith) given
      ]

  caller-authorize :
      (hash policy_id : String) (engine : PolicyEngine)
      → Q (authorize host intent hash policy_id a engine).caller
  unfolding authorize
  caller-authorize hash policy_id engine =
      elim (Option-cases (compute_state_hash_for host engine.opts a.working)) [
        | inl e ↦ subst Q (ground arith) held
        | inr (state_hash, e) ↦
            let u =
              unsigned_authorization host engine.opts intent a.caller hash state_hash policy_id in
            elim (Option-cases (sign_core host engine.opts (signing_alg engine.opts) u.v1)) [
              | inl f ↦ subst Q (ground arith) held
              | inr (signature, f) ↦
                  subst Q (ground arith)
                    (caller-allow_decision (attach_signature host u signature) policy_id engine)
            ]
      ]

  caller-decide :
      (hash policy_id : String) (reasons : List ReasonCode) (engine : PolicyEngine)
      → Q (decide host intent hash policy_id a reasons engine).caller
  caller-decide hash policy_id [] engine = caller-authorize hash policy_id engine
  caller-decide hash policy_id (r ∷ rs) engine = caller-deny_decision hash policy_id engine

module _ (Q : State → Type 0) where
  if_caller :
      (b : Bool) (x y : Outcome)
      → Q x.caller
      → (b ≡ false → Q y.caller)
      → Q (if b then x else y).caller
  if_caller true x y p q = p
  if_caller false x y p q = q refl

module _ (host : Host) (intent : Intent) (state : State) (mode : Option Mode)
    (engine : PolicyEngine) where
  -- A predicate of states holds of the caller's object if it holds of what the object can hold.
  pub caller-evaluate_pure :
      (Q : State → Type 0)
      → Q state
      → (validate_state_for_intent state intent ≡ true
          → Q (applied intent state (get_or mode fail_fast)).caller)
      → (validate_state_for_intent state intent ≡ true
          → (id : String) (expires_at : ℕ)
          → Q
              (enter_auth
                (intent_type intent)
                intent
                id
                expires_at
                (applied intent state (get_or mode fail_fast))).caller)
      → Q (evaluate_pure host intent state mode engine).caller
  unfolding evaluate_pure evaluate_checked
  caller-evaluate_pure Q start held entered =
      if_caller Q (not (validate_intent intent)) _ _ start (λ _.
        if_caller Q (not (validate_state_for_intent state intent)) _ _ start (λ v.
          if_caller Q (not (state.policy_version == engine.opts.policy_version)) _ _ start (λ _.
            let formed : validate_state_for_intent state intent ≡ true = ground arith in
            caller-decide host intent Q (applied intent state (get_or mode fail_fast)) (held formed)
              (entered formed) _ _ _ _)))

  after_cases :
      (o : EvaluatePureOutput) (caller : State)
      → ((auth : Authorization) (next : State) → o ≡ allowing auth next → caller ≡ next)
      → state_after o caller ≡ caller
  after_cases (allowing auth next) caller h = sym (h auth next refl)
  after_cases (denying reasons) caller h = refl

  -- The state that a run goes on with is in either case the content of the caller's object.
  pub state_after-evaluate_pure :
      state_after
        (evaluate_pure host intent state mode engine).output
        (evaluate_pure host intent state mode engine).caller
      ≡ (evaluate_pure host intent state mode engine).caller
  state_after-evaluate_pure =
      after_cases _ _ (evaluate_pure_writes_caller host intent state mode engine)
