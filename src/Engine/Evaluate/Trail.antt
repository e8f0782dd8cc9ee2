-- ===== src/Engine/Evaluate/Trail.antt =====
-- The audit trail of `evaluatePure`: the log keeps verifying, only grows, and shows the decision.
use oxdeai_core.Prelude.{
  ℕ, String, ◌≡◌, refl, sym, ap, subst, ◌∙◌, not, ◌==◌, Bool, true, false, Option, some, List, [],
  ◌∷◌, ◌++◌, map, length, arith, get_or, Option-cases, Bool-cases, inl, inr, if◌then◌else◌,
}
use mathlib.Core.List.{append_assoc, append-nil}
use oxdeai_core.Crypto.{Host}
use oxdeai_core.Authorization.{Authorization}
use oxdeai_core.Intent.{Intent, intent_type}
use oxdeai_core.State.{State}
use oxdeai_core.Policy.{ReasonCode, reason_name}
use oxdeai_core.Audit.{AuditEvent, decision, auth_emitted, state_checkpoint, allowed, denied}
use oxdeai_core.Log.{snapshot, verify}
use oxdeai_core.Log.Integrity.{verify-append, snapshot-append, length-append_chain}
use oxdeai_core.Engine.Options.{PolicyEngine, Mode, fail_fast, signing_alg}
use oxdeai_core.Engine.Snapshot.{compute_state_hash_for}
use oxdeai_core.Engine.Emit.{event, emit_audit, maybe_emit_checkpoint, is_due}
use oxdeai_core.Engine.Validate.{validate_intent, validate_state_for_intent}
use oxdeai_core.Engine.Apply.{Applied}
use oxdeai_core.Engine.Evaluate.{
  Outcome, sign_core, unsigned_authorization, attach_signature, enter_auth, deny_decision,
  allow_decision, authorize, decide, evaluate_checked, evaluate_pure,
}

-- The log verifies, the counter counts its events, and the sink, if there is one, was given each of
-- them, in order.
pub record IsAudited (host : Host) (engine : PolicyEngine) : Type 0 where
  pub verified : verify host engine.audit ≡ true
  pub counted : engine.audit_event_count ≡ length engine.audit.chain
  pub sunk : engine.sunk ≡ (if engine.opts.audit_sink then snapshot engine.audit else [])

-- The options stay, and the log grows at its end.
pub record Extends (old new : PolicyEngine) : Type 0 where
  pub opts : new.opts ≡ old.opts
  pub events : List AuditEvent
  pub grown : snapshot new.audit ≡ snapshot old.audit ++ events

-- One engine has come from another by emitting events.
pub record Trail (host : Host) (old new : PolicyEngine) : Type 0 where
  pub extended : Extends old new
  pub kept : IsAudited host old → IsAudited host new

sunk_all :
    (on : Bool) (sunk old new : List AuditEvent) (e : AuditEvent)
    → sunk ≡ (if on then old else [])
    → new ≡ old ++ e ∷ []
    → (if on then sunk ++ e ∷ [] else sunk) ≡ (if on then new else [])
sunk_all true sunk old new e h k = ap (λ es. es ++ e ∷ []) h ∙ sym k
sunk_all false sunk old new e h k = h

module _ (host : Host) where
  pub Trail-refl : (engine : PolicyEngine) → Trail host engine engine
  Trail-refl engine = record {
    extended = record {
      opts = refl;
      events = [];
      grown = sym (append-nil (snapshot engine.audit));
    };
    kept = λ a. a;
  }

  pub Trail-trans : (a b c : PolicyEngine) → Trail host a b → Trail host b c → Trail host a c
  Trail-trans a b c p q = record {
    extended = record {
      opts = q.extended.opts ∙ p.extended.opts;
      events = p.extended.events ++ q.extended.events;
      grown =
          q.extended.grown
          ∙ (ap (λ es. es ++ q.extended.events) p.extended.grown
              ∙ append_assoc (snapshot a.audit) p.extended.events q.extended.events);
    };
    kept = λ h. q.kept (p.kept h);
  }

  emit_audit-Trail :
      (e : AuditEvent) (engine : PolicyEngine) → Trail host engine (emit_audit host e engine)
  unfolding emit_audit
  emit_audit-Trail e engine = record {
    extended = record { opts = refl; events = e ∷ []; grown = snapshot-append host e engine.audit };
    kept = λ a. record {
      verified = verify-append host e engine.audit a.verified;
      counted = omega (arith, a.counted, length-append_chain host e engine.audit);
      sunk =
          sunk_all engine.opts.audit_sink engine.sunk _ _ e a.sunk
            (snapshot-append host e engine.audit);
    };
  }

  checkpoint-Trail :
      (policy_id : String) (timestamp : ℕ) (state : State) (engine new : PolicyEngine)
      → maybe_emit_checkpoint host policy_id timestamp state engine ≡ some new
      → Trail host engine new
  unfolding maybe_emit_checkpoint
  checkpoint-Trail policy_id timestamp state engine new h =
      elim (Bool-cases
        (is_due host engine.opts.checkpoint_every_n_events engine.audit_event_count)) [
          | inl due ↦ elim (Option-cases (compute_state_hash_for host engine.opts state)) [
            | inl e ↦ absurd (ground arith)
            | inr (hash, e) ↦
                subst (Trail host engine) (ground arith)
                  (emit_audit-Trail (event (state_checkpoint hash) timestamp policy_id) engine)
          ]
          | inr idle ↦ subst (Trail host engine) (ground arith) (Trail-refl engine)
        ]

  deny_decision-Trail :
      (intent : Intent) (hash policy_id : String) (a : Applied) (engine : PolicyEngine)
      → Trail host engine (deny_decision host intent hash policy_id a engine).engine
  unfolding deny_decision
  deny_decision-Trail intent hash policy_id a engine =
      let told =
        event (decision hash denied (map reason_name a.deny_reasons) a.caller.policy_version)
          intent.timestamp policy_id in
      let emitted = emit_audit host told engine in
      elim (Option-cases (maybe_emit_checkpoint host policy_id intent.timestamp a.caller emitted)) [
        | inl e ↦ subst (Trail host engine) (ground arith) (emit_audit-Trail told engine)
        | inr (new, e) ↦ subst (Trail host engine) (ground arith) (
            Trail-trans engine emitted new (emit_audit-Trail told engine)
              (checkpoint-Trail policy_id intent.timestamp a.caller emitted new e))
      ]

  allow_decision-Trail :
      (intent : Intent) (auth : Authorization) (policy_id : String) (a : Applied)
      (engine : PolicyEngine)
      → Trail host engine (allow_decision host intent auth policy_id a engine).engine
  unfolding allow_decision
  allow_decision-Trail intent auth policy_id a engine =
      let told =
        event (decision auth.intent_hash allowed [] a.caller.policy_version) intent.timestamp
          policy_id in
      let given =
        event (auth_emitted auth.authorization_id auth.intent_hash auth.expires_at) intent.timestamp
          policy_id in
      let decided = emit_audit host told engine in
      let emitted = emit_audit host given decided in
      let both =
        Trail-trans engine decided emitted (emit_audit-Trail told engine)
          (emit_audit-Trail given decided) in
      let work =
        (enter_auth (intent_type intent) intent auth.authorization_id auth.expires_at a).working in
      elim (Option-cases (maybe_emit_checkpoint host policy_id intent.timestamp work emitted)) [
        | inl e ↦ subst (Trail host engine) (ground arith) both
        | inr (new, e) ↦ subst (Trail host engine) (ground arith) (
            Trail-trans engine emitted new both
              (checkpoint-Trail policy_id intent.timestamp work emitted new e))
      ]

  authorize-Trail :
      (intent : Intent) (hash policy_id : String) (a : Applied) (engine : PolicyEngine)
      → Trail host engine (authorize host intent hash policy_id a engine).engine
  unfolding authorize
  authorize-Trail intent hash policy_id a engine =
      elim (Option-cases (compute_state_hash_for host engine.opts a.working)) [
        | inl e ↦ subst (Trail host engine) (ground arith) (Trail-refl engine)
        | inr (state_hash, e) ↦
            let u =
              unsigned_authorization host engine.opts intent a.caller hash state_hash policy_id in
            elim (Option-cases (sign_core host engine.opts (signing_alg engine.opts) u.v1)) [
              | inl f ↦ subst (Trail host engine) (ground arith) (Trail-refl engine)
              | inr (signature, f) ↦ subst (Trail host engine) (ground arith) (
                  allow_decision-Trail intent (attach_signature host u signature) policy_id a
                    engine)
            ]
      ]

  decide-Trail :
      (intent : Intent) (hash policy_id : String) (a : Applied) (reasons : List ReasonCode)
      (engine : PolicyEngine)
      → Trail host engine (decide host intent hash policy_id a reasons engine).engine
  decide-Trail intent hash policy_id a [] engine = authorize-Trail intent hash policy_id a engine
  decide-Trail intent hash policy_id a (r ∷ rs) engine =
      deny_decision-Trail intent hash policy_id a engine

  checked-Trail :
      (intent : Intent) (state : State) (mode : Mode) (engine : PolicyEngine)
      → Trail host engine (evaluate_checked host intent state mode engine).engine
  unfolding evaluate_checked
  checked-Trail intent state mode engine =
      Trail-trans engine _ _ (emit_audit-Trail _ engine) (decide-Trail intent _ _ _ _ _)

  if_Trail :
      (engine : PolicyEngine) (b : Bool) (x y : Outcome)
      → Trail host engine x.engine
      → Trail host engine y.engine
      → Trail host engine (if b then x else y).engine
  if_Trail engine true x y p q = p
  if_Trail engine false x y p q = q

  pub evaluate_pure-Trail :
      (intent : Intent) (state : State) (mode : Option Mode) (engine : PolicyEngine)
      → Trail host engine (evaluate_pure host intent state mode engine).engine
  unfolding evaluate_pure
  evaluate_pure-Trail intent state mode engine =
      let stopped = Trail-refl engine in
      if_Trail engine (not (validate_intent intent)) _ _ stopped (
        if_Trail engine (not (validate_state_for_intent state intent)) _ _ stopped (
          if_Trail engine (not (state.policy_version == engine.opts.policy_version)) _ _ stopped
            (checked-Trail intent state (get_or mode fail_fast) engine)))
