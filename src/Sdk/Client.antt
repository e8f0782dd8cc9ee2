-- ===== src/Sdk/Client.antt =====
-- `OxDeAIClient` of packages/sdk/src/client.ts: one evaluation that is committed to the store, and
-- the engine's verification in the stored state. The client keeps the same state as the guard.
pub mod AsGuard
pub mod Artifacts
use oxdeai_core.Prelude.{ℕ, String, Option, none, some, List, [], map, nat_eq, if◌then◌else◌}
use oxdeai_core.Crypto.{Host}
use oxdeai_core.Authorization.{Authorization}
use oxdeai_core.Intent.{Intent}
use oxdeai_core.State.{State}
use oxdeai_core.Policy.{reason_name}
use oxdeai_core.Audit.{AuditEvent}
use oxdeai_core.Engine.Options.{fail_fast}
use oxdeai_core.Engine.Evaluate.{EvaluatePureOutput, allowing, denying, Outcome, evaluate_pure}
use oxdeai_core.Engine.Verify.{Validity}
use oxdeai_core.Engine.Verify
use oxdeai_core.Sdk.Adapters.{Async, ◌>>=◌, ◌>>◌, pure, StateAdapter, AuditAdapter}
use oxdeai_core.Sdk.Guard.{
  GuardDecision, allow_with, deny_with, GuardState, lift, append_events, collect_new_events,
  evaluated,
}

pub record ClientOptions (W : Type 0) : Type 0 where
  pub state_adapter : StateAdapter W
  pub audit_adapter : Option (AuditAdapter W)
  pub clock : ℕ

-- An intent, of which `timestamp` stands for its own time.
pub record EvaluateInput : Type 0 where
  pub intent : Intent
  pub timestamp : Option ℕ

pub record EvaluateAndCommitResult : Type 0 where
  pub output : GuardDecision
  pub state : State
  pub audit_events : List AuditEvent

abbrev pub resolved_timestamp : ℕ → Option ℕ → ℕ
resolved_timestamp now none = now
resolved_timestamp now (some t) = if nat_eq t 0 then now else t

abbrev pub input_intent : ℕ → EvaluateInput → Intent
input_intent now input = record (input.intent) {
  timestamp = resolved_timestamp now input.timestamp;
}

module _ (host : Host) {W : Type 0} where
  -- What follows the evaluation: the next state of an ALLOW is saved.
  unfoldable pub commit :
      ClientOptions W
      → State
      → List AuditEvent
      → EvaluatePureOutput
      → Async (GuardState W) EvaluateAndCommitResult
  commit opts state events (allowing auth next) = do
    lift (opts.state_adapter.save next)
    pure (record { output = allow_with auth; state = next; audit_events = events })
  commit opts state events (denying reasons) = pure (record {
    output = deny_with (map reason_name reasons);
    state = state;
    audit_events = events;
  })

  abbrev pub commit_outcome :
      ClientOptions W → Outcome → Async (GuardState W) EvaluateAndCommitResult
  commit_outcome opts out g =
      let events = collect_new_events out.engine g.audit_cursor in
      (do lift (append_events opts.audit_adapter events); commit opts out.caller events out.output)
        (evaluated host out g)

  unfoldable pub evaluate_and_commit :
      ClientOptions W → EvaluateInput → Async (GuardState W) EvaluateAndCommitResult
  unfolding commit
  evaluate_and_commit opts input = do
    state ← lift opts.state_adapter.load
    λ g.
        commit_outcome opts
          (evaluate_pure host (input_intent opts.clock input) state (some fail_fast) g.engine) g

  unfoldable pub client_verify_authorization :
      ClientOptions W → Intent → Authorization → Async (GuardState W) Validity
  client_verify_authorization opts intent auth = do
    state ← lift opts.state_adapter.load
    λ g.
        pure
          (Verify.verify_authorization host g.engine.opts intent auth state (some intent.timestamp)
            opts.clock)
          g
