-- ===== src/Engine/Import.antt =====
-- `importState`: a snapshot is read into a state object, the caller's or a copy of the current one.
-- Each codec's part is assigned at once, after all its checks; an exception leaves the object with
-- the parts that were assigned before it.
pub mod Parts
pub mod Failures
use oxdeai_core.Prelude.{
  String, Bool, true, false, not, Option, none, some, List, [], ◌∷◌, nat_eq, ◌==◌, if◌then◌else◌,
}
use oxdeai_core.Dict.{Dict, get}
use oxdeai_core.Json.{Json, undefined}
use oxdeai_core.Crypto.{Host}
use oxdeai_core.State.{State}
use oxdeai_core.Schemas.{or_undefined}
use oxdeai_core.Codec.Restoring.{restorers}
use oxdeai_core.Engine.Options.{PolicyEngine, CanonicalState}
use oxdeai_core.Engine.Snapshot.{compute_policy_id}

-- The state object after the loop, and whether nothing was thrown.
pub record Restored : Type 0 where
  pub state : State
  pub complete : Bool

-- The loop over the codecs.
unfoldable pub restore_modules : Dict (Json → State → Option State) → Dict Json → State → Restored
unfolding get
restore_modules [] modules state = record { state = state; complete = true }
restore_modules ((id, restore) ∷ codecs) modules state =
    elim (restore (or_undefined (get id modules)) state) [
      | none ↦ record { state = state; complete = false }
      | some state' ↦ restore_modules codecs modules state'
    ]

-- The caller's state object, if it gave one, the engine, and whether nothing was thrown.
pub record Imported : Type 0 where
  pub target : Option State
  pub engine : PolicyEngine
  pub complete : Bool

abbrev pub import_failed : Option State → PolicyEngine → Imported
import_failed target engine = record { target = target; engine = engine; complete = false }

-- What a caller's object becomes; a copy of the current state is dropped.
abbrev pub written_to : Option State → State → Option State
written_to none state = none
written_to (some _) state = some state

-- The object that is written into.
abbrev pub import_target : Option State → Option State → Option State
import_target none current = current
import_target (some target) current = some target

abbrev pub finish_import : Option State → PolicyEngine → Restored → Imported
finish_import target engine restored =
    if restored.complete
    then record {
      target = written_to target restored.state;
      engine = record engine { current_state = some restored.state };
      complete = true;
    }
    else import_failed (written_to target restored.state) engine

-- Once the snapshot is accepted.
abbrev pub import_into : Option State → CanonicalState → PolicyEngine → Option State → Imported
import_into target snapshot engine none = import_failed target engine
import_into target snapshot engine (some state) =
    finish_import target engine (restore_modules restorers snapshot.modules state)

module _ (host : Host) where
  unfoldable pub import_state : Option State → CanonicalState → PolicyEngine → Imported
  unfolding restore_modules restorers compute_policy_id
  import_state target snapshot engine =
      if not (nat_eq snapshot.format_version 1)
      then import_failed target engine
      else if not (snapshot.policy_id == compute_policy_id host engine.opts)
      then import_failed target engine
      else import_into target snapshot engine (import_target target engine.current_state)
