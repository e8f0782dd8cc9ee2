-- ===== src/Sdk/Guard/Enforces.antt =====
-- What is known of a call of the guard that ends with an execution result.
use oxdeai_core.Prelude.{◌≡◌, refl, ap, ◌∙◌, some, List, arith, get_or, inl, inr, Option-cases, ◌⊎◌}
use oxdeai_core.Crypto.{Host}
use oxdeai_core.Authorization.{Authorization}
use oxdeai_core.Intent.{Intent}
use oxdeai_core.State.{State}
use oxdeai_core.Audit.{AuditEvent}
use oxdeai_core.Engine.Options.{fail_fast}
use oxdeai_core.Engine.Evaluate.{EvaluatePureOutput, allowing, denying, Outcome, evaluate_pure}
use oxdeai_core.Engine.Verify.{Validity, valid, invalid}
use oxdeai_core.Sdk.Adapters.{Settled, Async, ◌>>=◌, fulfilled, rejected}
use oxdeai_core.Sdk.Guard.{
  GuardOptions, GuardState, GuardInput, GuardResult, allow_with, resolve, run_action, check_auth,
  checked_action, enforce, decide_on, guard, lift, append_events, evaluated, collect_new_events,
}

pub Settled-cases {ℓ} :
    {W : Type 0} {A : Type ℓ} (m : Settled W A)
    → ((a : A) × (w : W) × (m ≡ fulfilled a w)) ⊎ ((w : W) × (m ≡ rejected w))
Settled-cases (fulfilled a w) = inl (a, w, refl)
Settled-cases (rejected w) = inr (w, refl)

-- A chain that is fulfilled has had its first call fulfilled.
pub bind-fulfilled {ℓ κ} :
    {W : Type 0} {A : Type ℓ} {B : Type κ} (m : Async W A) (f : A → Async (GuardState W) B)
    (g : GuardState W) (b : B) (g' : GuardState W)
    → (lift m >>= f) g ≡ fulfilled b g'
    → (a : A) × (w : W) × (m g.world ≡ fulfilled a w)
      × (f a (record g { world = w }) ≡ fulfilled b g')
bind-fulfilled m f g b g' h = elim (Settled-cases (m g.world)) [
  | inl (a, w, e) ↦ (a, w, e, ground arith)
  | inr (w, e) ↦ absurd (ground arith)
]

-- What follows a fulfilled call.
pub bind-next {ℓ κ} :
    {W : Type 0} {A : Type ℓ} {B : Type κ} (m : Async W A) (f : A → Async (GuardState W) B)
    (g : GuardState W) (a : A) (w : W)
    → m g.world ≡ fulfilled a w
    → (lift m >>= f) g ≡ f a (record g { world = w })
bind-next m f g a w e = ground (arith, e)

module _ (host : Host) {W : Type 0} {T : Type 0} (opts : GuardOptions W) (input : GuardInput)
    (action : Intent → Authorization → State → Async W T) (g : GuardState W) where
  -- The course of a call that executes.
  pub record IsEnforced (result : GuardResult T) (value : T) (g' : GuardState W) : Type 0 where
    pub state : State
    pub intent : Intent
    pub auth : Authorization
    pub next : State
    pub loaded_world : W
    pub recorded_world : W
    pub executed_world : W
    pub out : Outcome
    pub loaded : opts.state_adapter.load g.world ≡ fulfilled state loaded_world
    pub resolved : resolve opts.clock input ≡ some intent
    pub evaluated_to :
        evaluate_pure host intent state (some (get_or opts.mode fail_fast)) g.engine ≡ out
    pub allows : out.output ≡ allowing auth next
    pub appended :
        append_events opts.audit_adapter (collect_new_events out.engine g.audit_cursor) loaded_world
        ≡ fulfilled tt recorded_world
    pub executed : action intent auth next recorded_world ≡ fulfilled value executed_world
    pub saved : opts.state_adapter.save next executed_world ≡ fulfilled tt g'.world
    pub result_is : result ≡ record {
      output = allow_with auth;
      intent = intent;
      state = next;
      audit_events = collect_new_events out.engine g.audit_cursor;
      execution_result = some value;
    }
    pub left_state : g' ≡ record (evaluated host out g) { world = g'.world }

  run_action-executed :
      (intent : Intent) (auth : Authorization) (next : State) (events : List AuditEvent)
      (g1 : GuardState W) (result : GuardResult T) (value : T) (g' : GuardState W)
      → run_action host opts action intent auth next events g1 ≡ fulfilled result g'
      → result.execution_result ≡ some value
      → (w : W) × (action intent auth next g1.world ≡ fulfilled value w)
        × (opts.state_adapter.save next w ≡ fulfilled tt g'.world)
        × (result ≡ record {
          output = allow_with auth;
          intent = intent;
          state = next;
          audit_events = events;
          execution_result = some value;
        })
        × (g' ≡ record g1 { world = g'.world })
  unfolding run_action
  run_action-executed intent auth next events g1 result value g' h ran =
      let (value', w, acted, h2) = bind-fulfilled (action intent auth next) _ g1 result g' h in
      let (u, w', kept, h3) = bind-fulfilled (opts.state_adapter.save next) _ _ result g' h2 in
      let same : value' ≡ value = ground arith in
      (w, acted ∙ ap (λ v. fulfilled v w) same, ground arith, ground arith, ground arith)

  checked-executed :
      (intent : Intent) (state : State) (auth : Authorization) (next : State)
      (events : List AuditEvent) (v : Validity) (g1 : GuardState W) (result : GuardResult T)
      (value : T) (g' : GuardState W)
      → checked_action host opts action intent state auth next events v g1 ≡ fulfilled result g'
      → result.execution_result ≡ some value
      → (v ≡ valid) × (run_action host opts action intent auth next events g1 ≡ fulfilled result g')
  checked-executed intent state auth next events valid g1 result value g' h ran = (refl, h)
  checked-executed intent state auth next events (invalid r) g1 result value g' h ran =
      absurd (ground arith)

  enforce-executed :
      (intent : Intent) (state : State) (events : List AuditEvent) (o : EvaluatePureOutput)
      (g1 : GuardState W) (result : GuardResult T) (value : T) (g' : GuardState W)
      → enforce host opts action intent state events o g1 ≡ fulfilled result g'
      → result.execution_result ≡ some value
      → (auth : Authorization) × (next : State) × (o ≡ allowing auth next)
        × (check_auth host opts g1.engine intent auth next ≡ valid)
        × (run_action host opts action intent auth next events g1 ≡ fulfilled result g')
  unfolding enforce
  enforce-executed intent state events (denying reasons) g1 result value g' h ran =
      absurd (ground arith)
  enforce-executed intent state events (allowing auth next) g1 result value g' h ran =
      let (passed, acted) =
        checked-executed intent state auth next events _ g1 result value g' h ran in
      (auth, next, refl, passed, acted)

  decided-IsEnforced :
      (state : State) (w : W) (intent : Intent) (result : GuardResult T) (value : T)
      (g' : GuardState W)
      → opts.state_adapter.load g.world ≡ fulfilled state w
      → resolve opts.clock input ≡ some intent
      → decide_on host opts action intent state (record g { world = w }) ≡ fulfilled result g'
      → result.execution_result ≡ some value
      → IsEnforced result value g'
  unfolding decide_on
  decided-IsEnforced state w intent result value g' loaded resolved h ran =
      let out = evaluate_pure host intent state (some (get_or opts.mode fail_fast)) g.engine in
      let events = collect_new_events out.engine g.audit_cursor in
      let (u, w1, appended, h1) =
        bind-fulfilled (append_events opts.audit_adapter events) _ _ result g' h in
      let (auth, next, allows, _, h2) =
        enforce-executed intent out.caller events out.output _ result value g' h1 ran in
      let (w2, executed, saved, result_is, left_state) =
        run_action-executed intent auth next events _ result value g' h2 ran in
      record {
        state = state;
        intent = intent;
        auth = auth;
        next = next;
        loaded_world = w;
        recorded_world = w1;
        executed_world = w2;
        out = out;
        loaded = loaded;
        resolved = resolved;
        evaluated_to = refl;
        allows = allows;
        appended = appended;
        executed = executed;
        saved = saved;
        result_is = result_is;
        left_state = left_state;
      }

  -- A call of the guard that ends with an execution result has evaluated the intent in the state
  -- that the adapter loaded, has been allowed, has recorded the new events before it called the
  -- action with that authorization, and has then saved the next state.
  pub guard_enforces :
      (result : GuardResult T) (value : T) (g' : GuardState W)
      → guard host opts input action g ≡ fulfilled result g'
      → result.execution_result ≡ some value
      → IsEnforced result value g'
  unfolding guard
  guard_enforces result value g' h ran =
      let (state, w, loaded, h1) = bind-fulfilled opts.state_adapter.load _ g result g' h in
      elim (Option-cases (resolve opts.clock input)) [
        | inl e ↦ absurd (ground arith)
        | inr (intent, e) ↦
            decided-IsEnforced state w intent result value g' loaded e (ground arith) ran
      ]
