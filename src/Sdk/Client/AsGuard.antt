-- ===== src/Sdk/Client/AsGuard.antt =====
-- The client's commit and the guard.
use oxdeai_core.Prelude.{
  ℕ, Bool, ◌≡◌, refl, sym, ap, ◌∙◌, Option, none, some, List, get_or, arith, inl, inr,
}
use oxdeai_core.Crypto.{Host}
use oxdeai_core.Authorization.{Authorization}
use oxdeai_core.Intent.{Intent}
use oxdeai_core.State.{State}
use oxdeai_core.Audit.{AuditEvent}
use oxdeai_core.Engine.Options.{fail_fast}
use oxdeai_core.Engine.Evaluate.{EvaluatePureOutput, allowing, denying, evaluate_pure}
use oxdeai_core.Engine.Verify.{valid}
use oxdeai_core.Sdk.Adapters.{Async, ◌>>=◌, pure}
use oxdeai_core.Sdk.Guard.{
  GuardOptions, GuardState, given, with_clock, resolve, run_action, check_auth, checked_action,
  enforce, decide_on, guard, lift, append_events, collect_new_events, evaluated, or_reject,
}
use oxdeai_core.Sdk.Guard.Enforces.{Settled-cases}
use oxdeai_core.Sdk.Guard.Executes.{check_auth-issued}
use oxdeai_core.Sdk.Guard.Stores.{left}
use oxdeai_core.Sdk.Client.{
  ClientOptions, EvaluateInput, resolved_timestamp, input_intent, commit, evaluate_and_commit,
}

-- Chains from the same call leave the same, if what follows does.
left-bind-same {ℓ κ ι} :
    {W : Type 0} {A : Type ℓ} {B : Type κ} {C : Type ι} (m : Async W A)
    (f : A → Async (GuardState W) B) (f' : A → Async (GuardState W) C) (g : GuardState W)
    → ((a : A) (w : W) → left (f a (record g { world = w })) ≡ left (f' a (record g { world = w })))
    → left ((lift m >>= f) g) ≡ left ((lift m >>= f') g)
left-bind-same m f f' g same = elim (Settled-cases (m g.world)) [
  | inl (a, w, e) ↦ ground (arith, e, same a w)
  | inr (w, e) ↦ ground (arith, e)
]

-- The guard of a client's engine and adapters, in the mode that the client uses.
abbrev pub as_guard : {W : Type 0} → ClientOptions W → Option Bool → GuardOptions W
as_guard opts verifies = record {
  state_adapter = opts.state_adapter;
  audit_adapter = opts.audit_adapter;
  clock = opts.clock;
  mode = none;
  verify_authorization = verifies;
}

-- The intent with a missing time written as zero.
abbrev pub timed : EvaluateInput → Intent
timed input = record (input.intent) { timestamp = get_or input.timestamp 0 }

abbrev pub no_action : {W : Type 0} → Intent → Authorization → State → Async W (Unit {0})
no_action intent auth next = pure tt

timestamp-same :
    (now : ℕ) (intent : Intent) (t : Option ℕ)
    → with_clock now (record intent { timestamp = get_or t 0 })
      ≡ record intent { timestamp = resolved_timestamp now t }
timestamp-same now intent none = refl
timestamp-same now intent (some t) = refl

resolve-timed :
    (now : ℕ) (input : EvaluateInput)
    → resolve now (given (timed input)) ≡ some (input_intent now input)
unfolding resolve
resolve-timed now input = ap some (timestamp-same now input.intent input.timestamp)

module _ (host : Host) {W : Type 0} (opts : ClientOptions W) (verifies : Option Bool) where
  commit-enforce :
      (intent : Intent) (state state' : State) (events : List AuditEvent) (o : EvaluatePureOutput)
      (g : GuardState W)
      → ((auth : Authorization) (next : State)
          → o ≡ allowing auth next
          → check_auth host (as_guard opts verifies) g.engine intent auth next ≡ valid)
      → left (commit host opts state events o g)
        ≡ left (enforce host (as_guard opts verifies) no_action intent state' events o g)
  unfolding commit enforce run_action
  commit-enforce intent state state' events (denying reasons) g checks = refl
  commit-enforce intent state state' events (allowing auth next) g checks =
      left-bind-same (opts.state_adapter.save next) _ _ g (λ u w. refl)
      ∙ ap
          (λ v. left (
            checked_action host (as_guard opts verifies) no_action intent state' auth next events v
              g))
          (sym (checks auth next refl))

  -- The client's commit leaves the same world, engine and cursor as a call of the guard with the same
  -- engine and adapters whose action does nothing, whether either is fulfilled or rejected and whether
  -- or not the guard verifies the authorization.
  pub client_commits_as_guard :
      (input : EvaluateInput) (g : GuardState W)
      → left (evaluate_and_commit host opts input g)
        ≡ left (guard host (as_guard opts verifies) (given (timed input)) no_action g)
  unfolding evaluate_and_commit guard decide_on
  client_commits_as_guard input g =
      let intent = input_intent opts.clock input in
      left-bind-same opts.state_adapter.load _
        (λ s. or_reject (resolve opts.clock (given (timed input))) >>= λ i.
          decide_on host (as_guard opts verifies) no_action i s)
        g
        (λ state w.
          let g1 = record g { world = w } in
          let out = evaluate_pure host intent state (some fail_fast) g1.engine in
          let events = collect_new_events out.engine g1.audit_cursor in
          left-bind-same (append_events opts.audit_adapter events) _ _ (evaluated host out g1)
            (λ u w1.
              commit-enforce intent out.caller out.caller events out.output
                (record (evaluated host out g1) { world = w1 })
                (check_auth-issued host (as_guard opts verifies) (given intent) (no_action {W = W})
                  g1 intent state))
          ∙ ap
              (λ r. left (
                (or_reject r >>= λ i. decide_on host (as_guard opts verifies) no_action i state)
                  g1))
              (sym (resolve-timed opts.clock input)))
