-- ===== src/Tests/Guards.antt =====
-- Theorems on the guard, with the adapters in memory.
use oxdeai_core.Prelude.{ℕ, ◌≡◌, refl, none, some, List, [], ◌∷◌, ◌++◌, arith}
use oxdeai_core.Authorization.{Authorization}
use oxdeai_core.Intent.{Intent}
use oxdeai_core.State.{State}
use oxdeai_core.Audit.{AuditEvent}
use oxdeai_core.Engine.Options.{fail_fast}
use oxdeai_core.Engine.Verify.{verify_authorization}
use oxdeai_core.Engine.Evaluate.{evaluate_pure}
use oxdeai_core.Engine.Run.Limits.{IsSolvent}
use oxdeai_core.Sdk.Adapters.{
  Async, pure, fulfilled, Memory, in_memory_state_adapter, in_memory_audit_adapter,
}
use oxdeai_core.Sdk.Guard.{
  GuardOptions, GuardState, GuardResult, given, resolve, guard, collect_new_events,
}
use oxdeai_core.Sdk.Guard.Enforces.{IsEnforced, guard_enforces}
use oxdeai_core.Sdk.Guard.Executes.{executed_result, after, guard_executes}
use oxdeai_core.Sdk.Guard.Stores.{IsStore, Call, left, session, guard-Keeps_limits}
use oxdeai_core.Sdk.Guard.Once.{executed_once}
use oxdeai_core.Sdk.Guard.Monitor.{IsRefused, IsStep, guard_denies, guard_refines}
use oxdeai_core.Sdk.Guard.Settles.{Fulfilled, guard_settles}
use oxdeai_core.Sdk.Client.{ClientOptions, EvaluateInput, evaluate_and_commit}
use oxdeai_core.Sdk.Client.AsGuard.{as_guard, timed, no_action, client_commits_as_guard}
use oxdeai_core.Tests.Setting.{toy_host, engine, state, pay, costly, dismiss}
use oxdeai_core.Tests.Decisions.{paid, pay_again, granted_pay}
use oxdeai_core.Tests.Runs.{state-IsSolvent}

abbrev options : GuardOptions Memory
options = record {
  state_adapter = in_memory_state_adapter;
  audit_adapter = some in_memory_audit_adapter;
  clock = 2000;
  mode = none;
  verify_authorization = none;
}

-- An action that gives the time of the intent.
abbrev charge : Intent → Authorization → State → Async Memory ℕ
charge intent auth next = pure intent.timestamp

abbrev stored : Memory → State
stored m = m.state

in_memory_IsStore : IsStore options.state_adapter stored
in_memory_IsStore = record {
  load_keeps = λ w. refl;
  load_gives = λ w s w' e. ground (arith, e);
  save_sets = λ s w w' e. ground (arith, e);
  save_whole = λ s w w' e. absurd (ground (arith, e));
}

abbrev start : GuardState Memory
start = record { engine = engine; audit_cursor = 0; world = record { state = state; events = [] } }

given_evaluates : evaluate_pure toy_host pay state (some fail_fast) engine ≡ granted_pay
unfolding evaluate_pure
given_evaluates = refl

resolve-pay : resolve options.clock (given pay) ≡ some pay
unfolding resolve
resolve-pay = refl

resolve_again : resolve options.clock (given pay_again) ≡ some pay_again
unfolding resolve
resolve_again = refl

-- What the first call records, and the state that it leaves.
abbrev recorded : List AuditEvent
recorded = collect_new_events granted_pay.engine 0

abbrev charged : GuardResult ℕ
charged = executed_result toy_host options (given pay) charge start pay paid.0 paid.1 recorded 1000

abbrev left_by : GuardState Memory
left_by =
    after toy_host options (given pay) charge start granted_pay
      (record { state = paid.1; events = recorded })

guard_executes_example : guard toy_host options (given pay) charge start ≡ fulfilled charged left_by
guard_executes_example =
    guard_executes toy_host options (given pay) charge start state paid.1 pay paid.0 1000
      start.world (record { state = state; events = recorded })
      (record { state = state; events = recorded }) left_by.world granted_pay refl resolve-pay
      given_evaluates paid.2 refl refl refl

-- The same call, for the theorems on what a call has done.
charges : guard toy_host options (given pay) charge start ≡ fulfilled charged left_by
charges =
    guard_executes toy_host options (given pay) charge start state paid.1 pay paid.0 1000
      start.world (record { state = state; events = recorded })
      (record { state = state; events = recorded }) left_by.world granted_pay refl resolve-pay
      given_evaluates paid.2 refl refl refl

guard_enforces_example : IsEnforced toy_host options (given pay) charge start charged 1000 left_by
guard_enforces_example =
    guard_enforces toy_host options (given pay) charge start charged 1000 left_by charges refl

-- An authorization that the engine has not issued.
abbrev forged : Authorization
forged = record paid.0 { policy_version = "another" }

guard_refines_example :
    IsStep toy_host (some fail_fast) engine pay state charged.output left_by.world.state
guard_refines_example =
    guard_refines toy_host options (given pay) charge start stored in_memory_IsStore
      (λ events w. refl) pay charged left_by resolve-pay charges

guard_settles_example : Fulfilled (guard toy_host options (given pay_again) charge left_by)
guard_settles_example =
    guard_settles toy_host options (λ s w. (tt, record w { state = s }, refl))
      (λ es w. (tt, record w { events = w.events ++ es }, refl)) charge
      (λ i auth s w. (i.timestamp, w, refl)) (λ w. (w.state, w, refl)) (given pay_again) pay_again
      resolve_again left_by

-- The same action again.
second : Fulfilled (guard toy_host options (given pay_again) charge left_by)
second =
    guard_settles toy_host options (λ s w. (tt, record w { state = s }, refl))
      (λ es w. (tt, record w { events = w.events ++ es }, refl)) charge
      (λ i auth s w. (i.timestamp, w, refl)) (λ w. (w.state, w, refl)) (given pay_again) pay_again
      resolve_again left_by

executed_once_example : second.0.execution_result ≡ none
executed_once_example =
    executed_once toy_host options stored in_memory_IsStore (given pay) pay charge start charged
      1000 left_by resolve-pay charges refl refl (omega arith) (given pay_again) pay_again charge
      second.0 second.1 resolve_again second.2 refl refl refl (omega arith)

guard_denies_example : IsRefused toy_host options (given pay_again) charge left_by second.0 second.1
guard_denies_example =
    guard_denies toy_host options (given pay_again) charge left_by second.0 second.1 second.2 (
      executed_once toy_host options stored in_memory_IsStore (given pay) pay charge start charged
        1000 left_by resolve-pay charges refl refl (omega arith) (given pay_again) pay_again charge
        second.0 second.1 resolve_again second.2 refl refl refl (omega arith))

abbrev calls : List (Call Memory ℕ)
calls =
    record { input = given pay; action = charge }
    ∷ record { input = given costly; action = charge }
    ∷ record { input = given dismiss; action = charge }
    ∷ []

guard-Keeps_limits_example : IsSolvent (stored (session toy_host options calls start).world)
guard-Keeps_limits_example =
    guard-Keeps_limits toy_host options stored in_memory_IsStore (λ events w. refl) calls
      ((λ i auth s w. refl), ((λ i auth s w. refl), ((λ i auth s w. refl), tt))) start
      state-IsSolvent

abbrev client_options : ClientOptions Memory
client_options = record {
  state_adapter = in_memory_state_adapter;
  audit_adapter = some in_memory_audit_adapter;
  clock = 1000;
}

-- The action without a time of its own.
abbrev untimed : EvaluateInput
untimed = record { intent = pay; timestamp = none }

client_commits_as_guard_example :
    left (evaluate_and_commit toy_host client_options untimed start)
    ≡ left (guard toy_host (as_guard client_options none) (given (timed untimed)) no_action start)
client_commits_as_guard_example = client_commits_as_guard toy_host client_options none untimed start
