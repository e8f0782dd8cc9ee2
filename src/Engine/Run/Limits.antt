-- ===== src/Engine/Run/Limits.antt =====
-- The limits over whole runs of intents, allowed and denied ones.
use oxdeai_core.Prelude.{ℕ, String, sym, subst, Option, List, [], ◌∷◌, get_or, pos}
use oxdeai_core.Dict.{get}
use oxdeai_core.Crypto.{Host}
use oxdeai_core.Intent.{Intent, IntentType, execute, release, intent_type}
use oxdeai_core.State.{State, BudgetState}
use oxdeai_core.Engine.Options.{PolicyEngine, Mode, fail_fast}
use oxdeai_core.Engine.Apply.{Applied}
use oxdeai_core.Engine.Apply.Limits.{IsWithinBudget, IsWithinSlots, IsWithinLimits, KeepsLimits}
use oxdeai_core.Engine.Apply.Limits.Results.{evaluated-KeepsLimits}
use oxdeai_core.Modules.Spec.{spent}
use oxdeai_core.Engine.Evaluate.{enter_auth, evaluate_pure}
use oxdeai_core.Engine.Evaluate.Granted.{applied}
use oxdeai_core.Engine.Evaluate.Entered.{record_auth-keeps}
use oxdeai_core.Engine.Evaluate.Sharing.{applied-IsShared, enter_auth-shared}
use oxdeai_core.Engine.Evaluate.Caller.{caller-evaluate_pure, state_after-evaluate_pure}
use oxdeai_core.Engine.Run.{run_from}

-- Each agent is within its limits.
abbrev pub IsSolvent : State → Type 0
IsSolvent state = (j : String) → IsWithinLimits j state

within_of_keeps :
    (intent : Intent) (state : State) (j : String) (start : IsWithinLimits j state) (a : Applied)
    → KeepsLimits intent state j start a
    → IsWithinLimits j a.working
within_of_keeps intent state j start a ((limit, budget), (max, slots)) = record {
  budget = subst (IsWithinBudget (spent j a.working)) (sym limit) budget;
  slots = subst (IsWithinSlots (get_or (get j a.working.concurrency.active) 0)) (sym max) slots;
}

enter_auth-within :
    (t : IntentType) (intent : Intent) (id : String) (expires_at : ℕ) (a : Applied) (j : String)
    → IsWithinLimits j a.working
    → IsWithinLimits j (enter_auth t intent id expires_at a).working
enter_auth-within release intent id expires_at a j h = h
enter_auth-within execute intent id expires_at a j h =
    let (budget, _, _, active, max, _) = record_auth-keeps intent id expires_at a j in
    record {
      budget =
          subst
            (λ (b : BudgetState).
              IsWithinBudget (get_or (get j b.spent_in_period) (pos 0)) (get j b.budget_limit))
            (sym budget) h.budget;
      slots = rw (active, max) h.slots;
    }

module _ (host : Host) where
  -- An evaluation, whether it allows, denies or fails, keeps every agent within its limits.
  pub evaluate_pure_keeps_limits :
      (intent : Intent) (state : State) (mode : Option Mode) (engine : PolicyEngine)
      → IsSolvent state
      → IsSolvent (evaluate_pure host intent state mode engine).caller
  evaluate_pure_keeps_limits intent state mode engine start =
      let worked = λ (j : String).
        within_of_keeps intent state j (start j) (applied intent state (get_or mode fail_fast)) (
          evaluated-KeepsLimits intent state j (start j) (get_or mode fail_fast)
            (start intent.agent_id)) in
      caller-evaluate_pure host intent state mode engine IsSolvent start
        (λ formed j.
          subst (IsWithinLimits j)
            (sym (applied-IsShared intent state (get_or mode fail_fast) formed).same) (worked j))
        (λ formed id expires_at j.
          subst (IsWithinLimits j)
            (sym (
              enter_auth-shared (intent_type intent) intent id expires_at _
                (applied-IsShared intent state (get_or mode fail_fast) formed)))
            (enter_auth-within (intent_type intent) intent id expires_at _ j (worked j)))

  -- Solvency: where every agent has spent at most its budget and occupies at most its slots, that is
  -- so after a run over any intents, allowed, denied or failed, releases included, in either mode.
  pub run_from_keeps_limits :
      (intents : List Intent) (state : State) (mode : Option Mode) (engine : PolicyEngine)
      → IsSolvent state
      → IsSolvent (run_from host intents state mode engine).final_state
  unfolding run_from
  run_from_keeps_limits [] state mode engine start = start
  run_from_keeps_limits (intent ∷ intents) state mode engine start =
      run_from_keeps_limits intents _ mode _ (
        subst IsSolvent (sym (state_after-evaluate_pure host intent state mode engine))
          (evaluate_pure_keeps_limits intent state mode engine start))
