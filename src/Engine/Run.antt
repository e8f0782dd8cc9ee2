-- ===== src/Engine/Run.antt =====
-- `evaluate`, `commitState`, `simulateSequence`, and `ReplayEngine.replay` of
-- packages/core/src/replay/ReplayEngine.ts. `structuredClone` makes a copy that shares nothing.
pub mod Audit
pub mod Limits
use oxdeai_core.Prelude.{
  Bool, true, false, Option, none, some, List, [], ◌∷◌, ◌++◌, get_or, if◌then◌else◌,
}
use oxdeai_core.Crypto.{Host}
use oxdeai_core.Authorization.{Authorization}
use oxdeai_core.Intent.{Intent}
use oxdeai_core.State.{State}
use oxdeai_core.Policy.{ReasonCode}
use oxdeai_core.Engine.Options.{PolicyEngine, Mode, fail_fast}
use oxdeai_core.Engine.Snapshot.{export_state}
use oxdeai_core.Engine.Evaluate.{EvaluatePureOutput, allowing, denying, Outcome, evaluate_pure}

pub data EvaluateOutput : Type 0 where
  allow_with : Authorization → EvaluateOutput
  deny_with : List ReasonCode → EvaluateOutput
  threw : EvaluateOutput

-- The output, the caller's state object and the engine after a call of `evaluate`.
pub record Evaluated : Type 0 where
  pub output : EvaluateOutput
  pub state : State
  pub engine : PolicyEngine

-- The state after an output: the next state, or the object that was passed.
abbrev pub state_after : EvaluatePureOutput → State → State
state_after (allowing auth next) caller = next
state_after (denying reasons) caller = caller

abbrev pub output_of : EvaluatePureOutput → EvaluateOutput
output_of (allowing auth next) = allow_with auth
output_of (denying reasons) = deny_with reasons

-- The outputs and the final state of a run. The next state in an output shares its parts with the
-- working state of the rest of the run, which writes into them; it is not kept here.
pub record Run : Type 0 where
  pub outputs : List EvaluateOutput
  pub final_state : State
  pub engine : PolicyEngine

module _ (host : Host) where
  -- `none`: serializing the state has thrown.
  unfoldable pub commit_state : State → PolicyEngine → Option PolicyEngine
  commit_state state engine =
      if engine.opts.state_store
      then (elim (export_state host engine.opts state) [
        | none ↦ none
        | some snapshot ↦ some (record engine { stored = engine.stored ++ snapshot ∷ [] })
      ])
      else some engine

  unfoldable pub evaluate : Intent → State → PolicyEngine → Evaluated
  unfolding commit_state
  evaluate intent state engine =
      let out = evaluate_pure host intent state (some fail_fast) engine in
      let state' = state_after out.output out.caller in
      let engine' = record out.engine { current_state = some state' } in
      if get_or engine.opts.auto_persist false
      then (elim (commit_state state' engine') [
        | none ↦ record { output = threw; state = state'; engine = engine' }
        | some stored ↦ record { output = output_of out.output; state = state'; engine = stored }
      ])
      else record { output = output_of out.output; state = state'; engine = engine' }

  -- The loop over intents: after an ALLOW the next state is the working one, and after a DENY the
  -- same object is used again.
  unfoldable pub run_from : List Intent → State → Option Mode → PolicyEngine → Run
  run_from [] state mode engine = record { outputs = []; final_state = state; engine = engine }
  run_from (intent ∷ intents) state mode engine =
      let out = evaluate_pure host intent state mode engine in
      let rest = run_from intents (state_after out.output out.caller) mode out.engine in
      record rest { outputs = output_of out.output ∷ rest.outputs }

  -- `none`: there is no current state.
  unfoldable pub simulate_sequence : List Intent → Option Mode → PolicyEngine → Option Run
  unfolding run_from
  simulate_sequence intents mode engine = elim engine.current_state [
    | none ↦ none
    | some base ↦ some (run_from intents base mode engine)
  ]

  unfoldable pub replay : State → List Intent → Option Mode → PolicyEngine → Run
  unfolding run_from
  replay initial_state intents mode engine = run_from intents initial_state mode engine
