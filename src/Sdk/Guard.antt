-- ===== src/Sdk/Guard.antt =====
-- packages/sdk/src/guard.ts: `createGuard`. The guard keeps the engine and the cursor into its log;
-- the adapters and the action that it guards work on a world `W`. The branch for an ALLOW without an
-- authorization or next state is not there: an output that allows has both.
pub mod Enforces
pub mod Checks
pub mod Stores
pub mod Executes
pub mod Once
pub mod Monitor
pub mod Settles
use oxdeai_core.Prelude.{
  ℕ, String, Bool, true, false, not, Option, none, some, List, [], ◌∷◌, map, length, drop, get_or,
  is_some, nat_eq, if◌then◌else◌,
}
use oxdeai_core.Crypto.{Host, ◌+++◌}
use oxdeai_core.Authorization.{Authorization}
use oxdeai_core.Intent.{Intent, execute}
use oxdeai_core.State.{State}
use oxdeai_core.Policy.{ReasonCode, reason_name}
use oxdeai_core.Audit.{AuditEvent}
use oxdeai_core.Log.{snapshot}
use oxdeai_core.Engine.Options.{EngineOptions, PolicyEngine, Mode, fail_fast}
use oxdeai_core.Engine.Evaluate.{EvaluatePureOutput, allowing, denying, Outcome, evaluate_pure}
use oxdeai_core.Engine.Verify.{Validity, valid, invalid, verify_authorization}
use oxdeai_core.Sdk.Builders.{IntentBuilderInput, with_type, build_intent}
use oxdeai_core.Sdk.Adapters.{
  Settled, Async, ◌>>=◌, ◌>>◌, pure, reject, fulfilled, rejected, StateAdapter, AuditAdapter,
}

pub data GuardDecision : Type 0 where
  allow_with : Authorization → GuardDecision
  deny_with : List String → GuardDecision

-- `executed` is that there is an execution result.
pub record GuardResult (T : Type 0) : Type 0 where
  pub output : GuardDecision
  pub intent : Intent
  pub state : State
  pub audit_events : List AuditEvent
  pub execution_result : Option T

-- The options but for the engine. `execute` is the action of one call.
pub record GuardOptions (W : Type 0) : Type 0 where
  pub state_adapter : StateAdapter W
  pub audit_adapter : Option (AuditAdapter W)
  pub clock : ℕ
  pub mode : Option Mode
  pub verify_authorization : Option Bool

-- What the guard's calls change.
pub record GuardState (W : Type 0) : Type 0 where
  pub engine : PolicyEngine
  pub audit_cursor : ℕ
  pub world : W

-- An intent, or the input of a builder. An input of a builder that has a signature passes for an
-- intent, since its other tested fields are texts by its type.
pub data GuardInput : Type 0 where
  given : Intent → GuardInput
  described : IntentBuilderInput → GuardInput

-- An adapter's call, in the guard's state.
abbrev pub lift {ℓ} : {W : Type 0} {A : Type ℓ} → Async W A → Async (GuardState W) A
lift m g = elim (m g.world) [
  | fulfilled a w ↦ fulfilled a (record g { world = w })
  | rejected w ↦ rejected (record g { world = w })
]

-- A value, or an exception.
abbrev pub or_reject {ℓ} : {W : Type 0} {A : Type ℓ} → Option A → Async W A
or_reject none = reject
or_reject (some a) = pure a

-- Zero stands for a missing time.
abbrev pub with_clock : ℕ → Intent → Intent
with_clock now intent = record intent {
  timestamp = if nat_eq intent.timestamp 0 then now else intent.timestamp;
}

-- A builder's input that passes for an intent is taken as it is. One that lacks the hash or the time
-- would go on with a missing value; such a call is left out of the model, and counts as rejected.
abbrev pub as_intent : ℕ → IntentBuilderInput → Option String → Option ℕ → Option Intent
as_intent now input (some hash) (some t) =
    some (with_clock now (record (with_type input execute) { type = input.type }))
as_intent now input hash time = none

unfoldable pub resolve : ℕ → GuardInput → Option Intent
resolve now (given intent) = some (with_clock now intent)
resolve now (described input) =
    if is_some input.signature
    then as_intent now input input.metadata_hash input.timestamp
    else build_intent (record input { timestamp = some (get_or input.timestamp now) })

-- `collectNewEvents`
abbrev pub collect_new_events : PolicyEngine → ℕ → List AuditEvent
collect_new_events engine cursor = drop cursor (snapshot engine.audit)

abbrev pub append_events :
    {W : Type 0} → Option (AuditAdapter W) → List AuditEvent → Async W (Unit {0})
append_events none events = pure tt
append_events (some adapter) events = adapter.append events

abbrev pub denied_result :
    {T : Type 0} → List String → Intent → State → List AuditEvent → GuardResult T
denied_result reasons intent state events = record {
  output = deny_with reasons;
  intent = intent;
  state = state;
  audit_events = events;
  execution_result = none;
}

module _ (host : Host) {W : Type 0} where
  -- The action, and the state saved after it.
  unfoldable pub run_action :
      {T : Type 0}
      → GuardOptions W
      → (Intent → Authorization → State → Async W T)
      → Intent
      → Authorization
      → State
      → List AuditEvent
      → Async (GuardState W) (GuardResult T)
  run_action opts action intent auth next events = do
    result ← lift (action intent auth next)
    lift (opts.state_adapter.save next)
    pure (record {
      output = allow_with auth;
      intent = intent;
      state = next;
      audit_events = events;
      execution_result = some result;
    })

  -- With the engine's check of the authorization at the intent's own time, unless it is turned off.
  abbrev pub check_auth : GuardOptions W → PolicyEngine → Intent → Authorization → State → Validity
  check_auth opts engine intent auth next =
      if get_or opts.verify_authorization true
      then verify_authorization host engine.opts intent auth next (some intent.timestamp) opts.clock
      else valid

  abbrev pub checked_action :
      {T : Type 0}
      → GuardOptions W
      → (Intent → Authorization → State → Async W T)
      → Intent
      → State
      → Authorization
      → State
      → List AuditEvent
      → Validity
      → Async (GuardState W) (GuardResult T)
  checked_action opts action intent state auth next events valid =
      run_action opts action intent auth next events
  checked_action opts action intent state auth next events (invalid reason) =
      pure (denied_result (("AUTH_INVALID:" +++ reason_name reason) ∷ []) intent state events)

  -- What follows the evaluation. A denied result shows the loaded state, as the evaluation left it.
  unfoldable pub enforce :
      {T : Type 0}
      → GuardOptions W
      → (Intent → Authorization → State → Async W T)
      → Intent
      → State
      → List AuditEvent
      → EvaluatePureOutput
      → Async (GuardState W) (GuardResult T)
  enforce opts action intent state events (denying reasons) =
      pure (denied_result (map reason_name reasons) intent state events)
  enforce opts action intent state events (allowing auth next) = λ g.
      checked_action opts action intent state auth next events
        (check_auth opts g.engine intent auth next) g

  -- The evaluation, and the cursor set behind the events.
  abbrev pub evaluated : Outcome → GuardState W → GuardState W
  evaluated out g = record g {
    engine = out.engine;
    audit_cursor = length (snapshot out.engine.audit);
  }

  -- The events are recorded before the decision is enforced.
  abbrev pub proceed :
      {T : Type 0}
      → GuardOptions W
      → (Intent → Authorization → State → Async W T)
      → Intent
      → Outcome
      → Async (GuardState W) (GuardResult T)
  proceed opts action intent out g =
      let events = collect_new_events out.engine g.audit_cursor in
      (do
        lift (append_events opts.audit_adapter events)
        enforce opts action intent out.caller events out.output)
        (evaluated out g)

  unfoldable pub decide_on :
      {T : Type 0}
      → GuardOptions W
      → (Intent → Authorization → State → Async W T)
      → Intent
      → State
      → Async (GuardState W) (GuardResult T)
  unfolding enforce
  decide_on opts action intent state g =
      proceed opts action intent
        (evaluate_pure host intent state (some (get_or opts.mode fail_fast)) g.engine) g

  -- One call of the guard.
  unfoldable pub guard :
      {T : Type 0}
      → GuardOptions W
      → GuardInput
      → (Intent → Authorization → State → Async W T)
      → Async (GuardState W) (GuardResult T)
  unfolding resolve decide_on
  guard opts input action = do
    state ← lift opts.state_adapter.load
    intent ← or_reject (resolve opts.clock input)
    decide_on opts action intent state
