-- ===== src/Sdk/Guard/Executes.antt =====
-- The guard runs the action of every intent that is allowed.
use oxdeai_core.Prelude.{
  ℕ, String, ◌+◌, ◌≤◌, ◌≡◌, refl, sym, ap, ◌∙◌, subst, true, false, Bool, Option, some, List, arith,
  get_or, leb, length, if◌then◌else◌,
}
use oxdeai_core.Crypto.{Host}
use oxdeai_core.Authorization.{Authorization}
use oxdeai_core.Intent.{Intent, IntentType, execute, release, intent_type}
use oxdeai_core.State.{State}
use oxdeai_core.Policy.{auth_expired}
use oxdeai_core.Audit.{AuditEvent}
use oxdeai_core.Log.{snapshot}
use oxdeai_core.Engine.Options.{PolicyEngine, Mode, fail_fast, ttl_seconds}
use oxdeai_core.Engine.Evaluate.{
  Outcome, allowing, unsigned_authorization, enter_auth, record_auth, evaluate_pure,
}
use oxdeai_core.Engine.Evaluate.Granted.{granted}
use oxdeai_core.Engine.Evaluate.Caller.{caller-evaluate_pure}
use oxdeai_core.Engine.Evaluate.Trail.{evaluate_pure-Trail}
use oxdeai_core.Engine.Apply.{Applied, evaluate_modules}
use oxdeai_core.Engine.Apply.Effects.{before}
use oxdeai_core.Merge.{aliased}
use oxdeai_core.Engine.Evaluate.Sharing.{evaluate_pure_writes_caller}
use oxdeai_core.Engine.Verify.{Validity, valid, invalid, verify_authorization}
use oxdeai_core.Engine.Verify.Issued.{issued_verifies, caller_version}
use oxdeai_core.Sdk.Adapters.{Async, fulfilled, pure, ◌>>=◌, ◌>>◌}
use oxdeai_core.Sdk.Guard.Enforces.{bind-next}
use oxdeai_core.Sdk.Guard.{
  GuardOptions, GuardState, GuardInput, GuardResult, allow_with, proceed, or_reject, lift, resolve,
  run_action, check_auth, checked_action, enforce, decide_on, guard, append_events,
  collect_new_events,
}

enter_auth-version :
    (t : IntentType) (intent : Intent) (id : String) (expires_at : ℕ) (a : Applied)
    → (enter_auth t intent id expires_at a).caller.policy_version ≡ a.caller.policy_version
unfolding record_auth aliased
enter_auth-version release intent id expires_at a = refl
enter_auth-version execute intent id expires_at a = refl

module _ (host : Host) (intent : Intent) (state : State) (mode : Option Mode)
    (engine : PolicyEngine) (auth : Authorization) (next : State)
    (allows : (evaluate_pure host intent state mode engine).output ≡ allowing auth next) where
  next_version : next.policy_version ≡ state.policy_version
  next_version =
      let kept =
        caller_version (get_or mode fail_fast) (evaluate_modules intent state) (before state) in
      ap (λ (s : State). s.policy_version)
        (sym (evaluate_pure_writes_caller host intent state mode engine auth next allows))
      ∙ caller-evaluate_pure host intent state mode engine
          (λ s. s.policy_version ≡ state.policy_version) refl (λ _. kept)
          (λ _ id expires_at. enter_auth-version (intent_type intent) intent id expires_at _ ∙ kept)

  lives : intent.timestamp ≤ auth.expires_at
  unfolding unsigned_authorization
  lives =
      let issued = (granted host intent state engine auth next mode allows).issued in
      let expires : auth.expires_at ≡ intent.timestamp + ttl_seconds engine.opts =
        ap (λ (a : Authorization). a.expires_at) issued in
      omega (arith, expires)

  in_time : leb intent.timestamp auth.expires_at ≡ true
  in_time = ground (arith, lives)

  -- The engine's check of its own authorization, at the intent's time, with its options.
  pub issued_now :
      (clock : ℕ)
      → verify_authorization host
          (evaluate_pure host intent state mode engine).engine.opts
          intent
          auth
          next
          (some intent.timestamp)
          clock
        ≡ valid
  issued_now clock =
      ap (λ o. verify_authorization host o intent auth next (some intent.timestamp) clock)
        (evaluate_pure-Trail host intent state mode engine).extended.opts
      ∙ issued_verifies host intent state mode engine auth next allows next intent.timestamp clock
          next_version
      ∙ ap (λ b. if b then valid else invalid auth_expired) in_time

check_if : (b : Bool) (v : Validity) → v ≡ valid → (if b then v else valid) ≡ valid
check_if true v e = e
check_if false v e = refl

module _ (host : Host) {W : Type 0} {T : Type 0} (opts : GuardOptions W) (input : GuardInput)
    (action : Intent → Authorization → State → Async W T) (g : GuardState W) where
  pub check_auth-issued :
      (intent : Intent) (state : State) (auth : Authorization) (next : State)
      → (evaluate_pure host intent state (some (get_or opts.mode fail_fast)) g.engine).output
        ≡ allowing auth next
      → check_auth host opts
          (evaluate_pure host intent state (some (get_or opts.mode fail_fast)) g.engine).engine
          intent
          auth
          next
        ≡ valid
  check_auth-issued intent state auth next h =
      check_if (get_or opts.verify_authorization true) _
        (issued_now host intent state _ g.engine auth next h opts.clock)

  -- The result, and the guard's state in a world.
  abbrev pub executed_result : Intent → Authorization → State → List AuditEvent → T → GuardResult T
  executed_result intent auth next events value = record {
    output = allow_with auth;
    intent = intent;
    state = next;
    audit_events = events;
    execution_result = some value;
  }

  abbrev pub after : Outcome → W → GuardState W
  after out w = record {
    engine = out.engine;
    audit_cursor = length (snapshot out.engine.audit);
    world = w;
  }

  run_action-next :
      (next : State) (intent : Intent) (auth : Authorization) (events : List AuditEvent) (value : T)
      (w1 w2 w3 : W) (out : Outcome)
      → action intent auth next w1 ≡ fulfilled value w2
      → opts.state_adapter.save next w2 ≡ fulfilled tt w3
      → run_action host opts action intent auth next events (after out w1)
        ≡ fulfilled (executed_result intent auth next events value) (after out w3)
  unfolding run_action
  run_action-next next intent auth events value w1 w2 w3 out ran saved =
      bind-next (action intent auth next)
        (λ r.
          lift (opts.state_adapter.save next) >> pure (executed_result intent auth next events r))
        (after out w1) value w2 ran
      ∙ bind-next (opts.state_adapter.save next)
          (λ _. pure (executed_result intent auth next events value)) (after out w2) tt w3 saved

  decided :
      (state next : State) (intent : Intent) (auth : Authorization) (value : T) (w w1 w2 w3 : W)
      (out : Outcome)
      → evaluate_pure host intent state (some (get_or opts.mode fail_fast)) g.engine ≡ out
      → out.output ≡ allowing auth next
      → check_auth host opts out.engine intent auth next ≡ valid
      → append_events opts.audit_adapter (collect_new_events out.engine g.audit_cursor) w
        ≡ fulfilled tt w1
      → action intent auth next w1 ≡ fulfilled value w2
      → opts.state_adapter.save next w2 ≡ fulfilled tt w3
      → decide_on host opts action intent state (record g { world = w })
        ≡ fulfilled
            (executed_result intent auth next (collect_new_events out.engine g.audit_cursor) value)
            (after out w3)
  unfolding decide_on enforce
  decided state next intent auth value w w1 w2 w3 out e allows checked appended ran saved =
      let events = collect_new_events out.engine g.audit_cursor in
      ap (λ o. proceed host opts action intent o (record g { world = w })) e
      ∙ bind-next (append_events opts.audit_adapter events)
          (λ _. enforce host opts action intent out.caller events out.output) (after out w) tt w1
          appended
      ∙ ap (λ o. enforce host opts action intent out.caller events o (after out w1)) allows
      ∙ ap
          (λ v. checked_action host opts action intent out.caller auth next events v (after out w1))
          checked
      ∙ run_action-next next intent auth events value w1 w2 w3 out ran saved

  -- If the adapter loads a state in which the intent is allowed, and recording the events, the action
  -- and saving the next state are fulfilled, the guard's call is fulfilled with the action's result:
  -- no check between an ALLOW and the action fails, and the authorization that the engine has just
  -- issued is always accepted.
  pub guard_executes :
      (state next : State) (intent : Intent) (auth : Authorization) (value : T) (w w1 w2 w3 : W)
      (out : Outcome)
      → opts.state_adapter.load g.world ≡ fulfilled state w
      → resolve opts.clock input ≡ some intent
      → evaluate_pure host intent state (some (get_or opts.mode fail_fast)) g.engine ≡ out
      → out.output ≡ allowing auth next
      → append_events opts.audit_adapter (collect_new_events out.engine g.audit_cursor) w
        ≡ fulfilled tt w1
      → action intent auth next w1 ≡ fulfilled value w2
      → opts.state_adapter.save next w2 ≡ fulfilled tt w3
      → guard host opts input action g
        ≡ fulfilled
            (executed_result intent auth next (collect_new_events out.engine g.audit_cursor) value)
            (after out w3)
  unfolding guard
  guard_executes state next intent auth value w w1 w2 w3 out loaded resolved e allows appended ran
        saved =
      bind-next opts.state_adapter.load
        (λ s. or_reject (resolve opts.clock input) >>= λ i. decide_on host opts action i s) g state
        w loaded
      ∙ ap (λ r. (or_reject r >>= λ i. decide_on host opts action i state) (record g { world = w }))
          resolved
      ∙ decided state next intent auth value w w1 w2 w3 out e allows
          (subst
            (λ (o : Outcome).
              o.output ≡ allowing auth next
              → check_auth host opts o.engine intent auth next ≡ valid)
            e (check_auth-issued intent state auth next) allows)
          appended ran saved
