-- ===== src/Tests/Runs.antt =====
-- Theorems on runs of several intents at a concrete run.
use oxdeai_core.Prelude.{none, Bool-cases, ◌==◌, inl, inr, List, [], ◌∷◌, arith}
use oxdeai_core.Dict.{get}
use oxdeai_core.Intent.{Intent}
use oxdeai_core.Engine.Run.{Run, run_from}
use oxdeai_core.Engine.Run.Limits.{IsSolvent, run_from_keeps_limits}
use oxdeai_core.Engine.Run.Audit.{run_from-Extends, run_from-IsAudited}
use oxdeai_core.Engine.Evaluate.Trail.{Extends, IsAudited}
use oxdeai_core.Tests.Setting.{toy_host, options, engine, state, pay, costly, dismiss}

abbrev intents : List Intent
intents = pay ∷ costly ∷ dismiss ∷ []

abbrev done : Run
done = run_from toy_host intents state none engine

pub state-IsSolvent : IsSolvent state
unfolding get
state-IsSolvent j = elim (Bool-cases ("a" == j)) [
  | inl e ↦ record { budget = rw e (omega arith); slots = rw e (omega arith) }
  | inr e ↦ record { budget = rw e tt; slots = rw e tt }
]

run_from_keeps_limits_example : IsSolvent done.final_state
run_from_keeps_limits_example =
    run_from_keeps_limits toy_host intents state none engine state-IsSolvent

run_from-Extends_example : Extends engine done.engine
run_from-Extends_example = run_from-Extends toy_host intents state none engine

run_from-IsAudited_example : IsAudited toy_host done.engine
run_from-IsAudited_example = run_from-IsAudited toy_host options intents state none
