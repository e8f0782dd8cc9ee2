-- ===== src/Sdk/Guard/Settles.antt =====
-- Where no adapter and no action is rejected, no call of the guard is.
use oxdeai_core.Prelude.{◌≡◌, refl, ap, ◌∙◌, some, List, get_or}
use oxdeai_core.Crypto.{Host}
use oxdeai_core.Authorization.{Authorization}
use oxdeai_core.Intent.{Intent}
use oxdeai_core.State.{State}
use oxdeai_core.Audit.{AuditEvent}
use oxdeai_core.Engine.Options.{fail_fast}
use oxdeai_core.Engine.Evaluate.{EvaluatePureOutput, allowing, denying, evaluate_pure}
use oxdeai_core.Engine.Verify.{Validity, valid, invalid}
use oxdeai_core.Sdk.Adapters.{Settled, Async, fulfilled, ◌>>=◌}
use oxdeai_core.Sdk.Guard.{
  GuardOptions, GuardState, GuardInput, resolve, run_action, checked_action, enforce, decide_on,
  guard, append_events, collect_new_events, lift, or_reject, evaluated,
}
use oxdeai_core.Sdk.Guard.Enforces.{bind-next}

abbrev pub Fulfilled {ℓ} : {W : Type 0} {A : Type ℓ} → Settled W A → Type ℓ
Fulfilled {W = W} {A = A} s = (a : A) × (w : W) × (s ≡ fulfilled a w)

-- The call is fulfilled in every world.
abbrev pub Fulfils {ℓ} : {W : Type 0} {A : Type ℓ} → Async W A → Type ℓ
Fulfils {W = W} m = (w : W) → Fulfilled (m w)

bind-Fulfilled {ℓ κ} :
    {W : Type 0} {A : Type ℓ} {B : Type κ} (m : Async W A) (f : A → Async (GuardState W) B)
    (g : GuardState W)
    → Fulfils m
    → ((a : A) (g' : GuardState W) → Fulfilled (f a g'))
    → Fulfilled ((lift m >>= f) g)
bind-Fulfilled m f g p q =
    let (a, w, e) = p g.world in
    let (b, g', e') = q a (record g { world = w }) in (b, g', bind-next m f g a w e ∙ e')

module _ (host : Host) {W : Type 0} {T : Type 0} (opts : GuardOptions W)
    (saves : (s : State) → Fulfils (opts.state_adapter.save s))
    (appends : (events : List AuditEvent) → Fulfils (append_events opts.audit_adapter events))
    (action : Intent → Authorization → State → Async W T)
    (acts : (i : Intent) (auth : Authorization) (s : State) → Fulfils (action i auth s)) where
  checked-Fulfilled :
      (intent : Intent) (state : State) (auth : Authorization) (next : State)
      (events : List AuditEvent) (v : Validity) (g : GuardState W)
      → Fulfilled (checked_action host opts action intent state auth next events v g)
  unfolding run_action
  checked-Fulfilled intent state auth next events valid g =
      bind-Fulfilled (action intent auth next) _ g (acts intent auth next) (λ value g1.
        bind-Fulfilled (opts.state_adapter.save next) _ g1 (saves next) (λ u g2. (_, g2, refl)))
  checked-Fulfilled intent state auth next events (invalid r) g = (_, g, refl)

  enforce-Fulfilled :
      (intent : Intent) (state : State) (events : List AuditEvent) (o : EvaluatePureOutput)
      (g : GuardState W)
      → Fulfilled (enforce host opts action intent state events o g)
  unfolding enforce
  enforce-Fulfilled intent state events (denying reasons) g = (_, g, refl)
  enforce-Fulfilled intent state events (allowing auth next) g =
      checked-Fulfilled intent state auth next events _ g

  decide_on-Fulfilled :
      (intent : Intent) (state : State) (g : GuardState W)
      → Fulfilled (decide_on host opts action intent state g)
  unfolding decide_on
  decide_on-Fulfilled intent state g =
      let out = evaluate_pure host intent state (some (get_or opts.mode fail_fast)) g.engine in
      let events = collect_new_events out.engine g.audit_cursor in
      bind-Fulfilled (append_events opts.audit_adapter events)
        (λ _. enforce host opts action intent out.caller events out.output) (evaluated host out g)
        (appends events) (λ u g1. enforce-Fulfilled intent out.caller events out.output g1)

  -- A call of the guard whose input gives an intent is fulfilled, whatever the engine decides, if no
  -- call of the adapters and no run of the action is rejected.
  pub guard_settles :
      Fulfils opts.state_adapter.load
      → (input : GuardInput) (intent : Intent) → resolve opts.clock input ≡ some intent
      → (g : GuardState W) → Fulfilled (guard host opts input action g)
  unfolding guard
  guard_settles loads input intent resolved g =
      bind-Fulfilled opts.state_adapter.load
        (λ s. or_reject (resolve opts.clock input) >>= λ i. decide_on host opts action i s) g loads
        (λ state g1.
          let (result, g2, e) = decide_on-Fulfilled intent state g1 in
          (
            result,
            g2,
            ap (λ r. (or_reject r >>= λ i. decide_on host opts action i state) g1) resolved ∙ e,
          ))
