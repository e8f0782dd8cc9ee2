-- ===== src/Engine/Run/Audit.antt =====
-- The audit trail of whole runs of intents.
use oxdeai_core.Prelude.{◌≡◌, Bool, false, if◌then◌else◌, Option, List, [], ◌∷◌}
use oxdeai_core.Crypto.{Host}
use oxdeai_core.Audit.{AuditEvent}
use oxdeai_core.Intent.{Intent}
use oxdeai_core.State.{State}
use oxdeai_core.Engine.Options.{EngineOptions, PolicyEngine, Mode, new_engine}
use oxdeai_core.Engine.Evaluate.Trail.{
  IsAudited, Extends, Trail, Trail-refl, Trail-trans, evaluate_pure-Trail,
}
use oxdeai_core.Engine.Run.{run_from}
use oxdeai_core.Prelude.{refl, sym, true}
use oxdeai_core.Log.{verify, snapshot}
use oxdeai_core.Prelude.{eq_refl}

nothing : (on : Bool) (events : List AuditEvent) → events ≡ [] → [] ≡ (if on then events else [])
nothing true events h = sym h
nothing false events h = refl

module _ (host : Host) where
  run_from-Trail :
      (intents : List Intent) (state : State) (mode : Option Mode) (engine : PolicyEngine)
      → Trail host engine (run_from host intents state mode engine).engine
  unfolding run_from
  run_from-Trail [] state mode engine = Trail-refl host engine
  run_from-Trail (intent ∷ intents) state mode engine =
      Trail-trans host engine _ _ (evaluate_pure-Trail host intent state mode engine)
        (run_from-Trail intents _ mode _)

  -- A run over any intents, from any state and in either mode, leaves the options as they are, adds
  -- its events at the end of the log and changes none of those before.
  pub run_from-Extends :
      (intents : List Intent) (state : State) (mode : Option Mode) (engine : PolicyEngine)
      → Extends engine (run_from host intents state mode engine).engine
  run_from-Extends intents state mode engine = (run_from-Trail intents state mode engine).extended

  new_engine-IsAudited : (opts : EngineOptions) → IsAudited host (new_engine opts)
  unfolding verify snapshot
  new_engine-IsAudited opts = record {
    verified = eq_refl "GENESIS";
    counted = refl;
    sunk = nothing opts.audit_sink _ refl;
  }

  -- After any run of a new engine the hash chain of its log verifies, its counter is the length of
  -- the log, and its sink, if it has one, was given the events of the log in order.
  pub run_from-IsAudited :
      (opts : EngineOptions) (intents : List Intent) (state : State) (mode : Option Mode)
      → IsAudited host (run_from host intents state mode (new_engine opts)).engine
  run_from-IsAudited opts intents state mode =
      (run_from-Trail intents state mode (new_engine opts)).kept (new_engine-IsAudited opts)
