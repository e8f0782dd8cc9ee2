-- ===== src/Engine/Evaluate/Granted.antt =====
-- What is known of a call of `evaluatePure` that allows an intent: its course, step by step.
use oxdeai_core.Prelude.{
  String, ◌≡◌, refl, sym, ap, ◌∙◌, true, Option, some, List, [], ◌∷◌, eq_iff, get_or, arith,
  Option-cases, inl, inr,
}
use oxdeai_core.Crypto.{Host, intent_hash}
use oxdeai_core.Authorization.{Authorization}
use oxdeai_core.Intent.{Intent, intent_type}
use oxdeai_core.State.{State}
use oxdeai_core.Policy.{ReasonCode}
use oxdeai_core.Audit.{intent_received}
use oxdeai_core.Engine.Options.{PolicyEngine, Mode, fail_fast, signing_alg}
use oxdeai_core.Engine.Validate.{validate_intent, validate_state_for_intent}
use oxdeai_core.Engine.Apply.{Applied, evaluate_modules, apply_results}
use oxdeai_core.Engine.Apply.Effects.{before}
use oxdeai_core.Engine.Snapshot.{compute_policy_id, compute_state_hash_for}
use oxdeai_core.Engine.Emit.{event, emit_audit}
use oxdeai_core.Engine.Evaluate.{
  Outcome, allowing, sign_core, unsigned_authorization, attach_signature, enter_auth, deny_decision,
  allow_decision, authorize, decide, evaluate_checked, evaluate_pure,
}

-- The variables of the loop after it.
abbrev pub applied : Intent → State → Mode → Applied
applied intent state mode = apply_results mode (evaluate_modules intent state) (before state)

module _ (host : Host) (intent : Intent) (state : State) (mode : Mode) (engine : PolicyEngine) where
  abbrev pub policy_id : String
  policy_id = compute_policy_id host engine.opts

  abbrev pub unsigned : String → Authorization
  unsigned state_hash =
      unsigned_authorization host engine.opts intent (applied intent state mode).caller
        (intent_hash host intent) state_hash policy_id

  pub record IsGranted (auth : Authorization) (next : State) (caller : State) : Type 0 where
    pub state_hash : String
    pub signature : String
    pub admitted : validate_intent intent ≡ true
    pub formed : validate_state_for_intent state intent ≡ true
    pub version : state.policy_version ≡ engine.opts.policy_version
    pub no_reason : (applied intent state mode).deny_reasons ≡ []
    pub hashed :
        compute_state_hash_for host engine.opts (applied intent state mode).working
        ≡ some state_hash
    pub signed :
        sign_core host engine.opts (signing_alg engine.opts) (unsigned state_hash).v1
        ≡ some signature
    pub issued : auth ≡ attach_signature host (unsigned state_hash) signature
    pub entered :
        next
        ≡ (enter_auth
            (intent_type intent)
            intent
            auth.authorization_id
            auth.expires_at
            (applied intent state mode)).working
    pub written :
        caller
        ≡ (enter_auth
            (intent_type intent)
            intent
            auth.authorization_id
            auth.expires_at
            (applied intent state mode)).caller

module _ (host : Host) (intent : Intent) where
  deny_decision-ne-allowing :
      (hash policy_id : String) (a : Applied) (engine : PolicyEngine) (auth : Authorization)
      (next : State)
      → (deny_decision host intent hash policy_id a engine).output ≡ allowing auth next
      → ⊥
  unfolding deny_decision
  deny_decision-ne-allowing hash policy_id a engine auth next h = ground arith

  allow_decision-allowing :
      (auth' : Authorization) (policy_id : String) (a : Applied) (engine : PolicyEngine)
      (auth : Authorization) (next : State)
      → (allow_decision host intent auth' policy_id a engine).output ≡ allowing auth next
      → (auth ≡ auth')
        × (next
            ≡ (enter_auth
                (intent_type intent)
                intent
                auth'.authorization_id
                auth'.expires_at
                a).working)
        × ((allow_decision host intent auth' policy_id a engine).caller
            ≡ (enter_auth
                (intent_type intent)
                intent
                auth'.authorization_id
                auth'.expires_at
                a).caller)
  unfolding allow_decision
  allow_decision-allowing auth' policy_id a engine auth next h =
      (ground arith, ground arith, ground arith)

  authorize-allowing :
      (hash policy_id : String) (a : Applied) (engine : PolicyEngine) (auth : Authorization)
      (next : State)
      → (authorize host intent hash policy_id a engine).output ≡ allowing auth next
      → (state_hash signature : String) × (compute_state_hash_for host engine.opts a.working
          ≡ some state_hash)
        × (sign_core host engine.opts
              (signing_alg engine.opts)
              (unsigned_authorization host engine.opts intent a.caller hash state_hash policy_id).v1
            ≡ some signature)
        × (auth
            ≡ attach_signature host
                (unsigned_authorization host engine.opts intent a.caller hash state_hash policy_id)
                signature)
        × (next
            ≡ (enter_auth
                (intent_type intent)
                intent
                auth.authorization_id
                auth.expires_at
                a).working)
        × ((authorize host intent hash policy_id a engine).caller
            ≡ (enter_auth
                (intent_type intent)
                intent
                auth.authorization_id
                auth.expires_at
                a).caller)
  unfolding authorize
  authorize-allowing hash policy_id a engine auth next h =
      elim (Option-cases (compute_state_hash_for host engine.opts a.working)) [
        | inl e ↦ absurd (ground arith)
        | inr (state_hash, e) ↦
            let u =
              unsigned_authorization host engine.opts intent a.caller hash state_hash policy_id in
            elim (Option-cases (sign_core host engine.opts (signing_alg engine.opts) u.v1)) [
              | inl f ↦ absurd (ground arith)
              | inr (signature, f) ↦
                  let (issued, entered, written) =
                    allow_decision-allowing (attach_signature host u signature) policy_id a engine
                      auth next (ground arith) in
                  (state_hash, signature, e, f, issued, ground arith, ground arith)
            ]
      ]

module _ (host : Host) (intent : Intent) (state : State) (engine : PolicyEngine)
    (auth : Authorization) (next : State) where
  -- The engine once the intent has been received.
  abbrev received : PolicyEngine
  received =
      emit_audit host
        (event (intent_received (intent_hash host intent) intent.agent_id) intent.timestamp
          (compute_policy_id host engine.opts))
        engine

  checked_allowing :
      (mode : Mode) (reasons : List ReasonCode)
      → (applied intent state mode).deny_reasons ≡ reasons
      → (decide host intent
          (intent_hash host intent)
          (compute_policy_id host engine.opts)
          (applied intent state mode)
          reasons
          received).output
        ≡ allowing auth next
      → (reasons ≡ [])
        × ((authorize host intent
              (intent_hash host intent)
              (compute_policy_id host engine.opts)
              (applied intent state mode)
              received).output
            ≡ allowing auth next)
  checked_allowing mode [] e h = (refl, h)
  checked_allowing mode (r ∷ rs) e h =
      absurd (deny_decision-ne-allowing host intent _ _ _ _ auth next h)

  evaluate_pure-allowing :
      (mode : Option Mode)
      → (evaluate_pure host intent state mode engine).output ≡ allowing auth next
      → (validate_intent intent ≡ true)
        × (validate_state_for_intent state intent ≡ true)
        × (state.policy_version ≡ engine.opts.policy_version)
        × (evaluate_pure host intent state mode engine
            ≡ evaluate_checked host intent state (get_or mode fail_fast) engine)
  unfolding evaluate_pure
  evaluate_pure-allowing mode h = (
    ground arith,
    ground arith,
    ground (arith, eq_iff state.policy_version engine.opts.policy_version),
    ground arith,
  )

  checked-IsGranted :
      (mode : Mode)
      → validate_intent intent ≡ true
      → validate_state_for_intent state intent ≡ true
      → state.policy_version ≡ engine.opts.policy_version
      → (evaluate_checked host intent state mode engine).output ≡ allowing auth next
      → IsGranted host intent state mode engine auth next
          (evaluate_checked host intent state mode engine).caller
  unfolding evaluate_checked emit_audit
  checked-IsGranted mode iv sv pv h =
      let (none_left, h') = checked_allowing mode _ refl h in
      let (state_hash, signature, hashed, signed, issued, entered, written) =
        authorize-allowing host intent _ _ _ received auth next h' in
      record {
        state_hash = state_hash;
        signature = signature;
        admitted = iv;
        formed = sv;
        version = pv;
        no_reason = none_left;
        hashed = hashed;
        signed = signed;
        issued = issued;
        entered = entered;
        written = simp none_left written;
      }

  pub granted :
      (mode : Option Mode)
      → (evaluate_pure host intent state mode engine).output ≡ allowing auth next
      → IsGranted host intent state
          (get_or mode fail_fast)
          engine
          auth
          next
          (evaluate_pure host intent state mode engine).caller
  granted mode h =
      let (iv, sv, pv, same) = evaluate_pure-allowing mode h in
      rw same (
        checked-IsGranted (get_or mode fail_fast) iv sv pv
          (ap (λ (o : Outcome). o.output) (sym same) ∙ h))
