-- ===== src/Engine/Import/Failures.antt =====
-- What an import changes, and what it leaves when it throws.
use oxdeai_core.Prelude.{
  ◌≡◌, refl, Bool, true, false, not, Option, none, some, ◌==◌, nat_eq, arith, if◌then◌else◌,
}
use oxdeai_core.Crypto.{Host}
use oxdeai_core.State.{State}
use oxdeai_core.Engine.Options.{PolicyEngine, CanonicalState}
use oxdeai_core.Engine.Snapshot.{compute_policy_id}
use oxdeai_core.Engine.Import.Parts.{IsRestored}
use oxdeai_core.Engine.Import.{
  Imported, written_to, import_target, import_failed, import_into, import_state,
}

if_failed :
    (b : Bool) (x y : Imported) (engine : PolicyEngine)
    → x.engine ≡ engine
    → (y.complete ≡ false → y.engine ≡ engine)
    → (if b then x else y).complete ≡ false
    → (if b then x else y).engine ≡ engine
if_failed true x y engine p q h = p
if_failed false x y engine p q h = q h

into_failed :
    (target : Option State) (snapshot : CanonicalState) (engine : PolicyEngine) (old : Option State)
    → (import_into target snapshot engine old).complete ≡ false
    → (import_into target snapshot engine old).engine ≡ engine
into_failed target snapshot engine none h = refl
into_failed target snapshot engine (some old) h = ground (arith, h)

module _ (host : Host) (target : Option State) (snapshot : CanonicalState)
    (engine : PolicyEngine) where
  -- An import that throws, for the snapshot's version or policy, a missing state or a payload that a
  -- codec refuses, leaves the engine with the current state that it had.
  pub failed_import_keeps_engine :
      (import_state host target snapshot engine).complete ≡ false
      → (import_state host target snapshot engine).engine ≡ engine
  unfolding import_state
  failed_import_keeps_engine h =
      if_failed (not (nat_eq snapshot.format_version 1)) (import_failed target engine) _ engine refl
        (if_failed (not (snapshot.policy_id == compute_policy_id host engine.opts))
          (import_failed target engine) _ engine refl
          (into_failed target snapshot engine (import_target target engine.current_state)))
        h

  -- What a complete import has found and done.
  pub record IsImported (imported : Imported) : Type 0 where
    pub old : State
    pub new : State
    pub version : snapshot.format_version ≡ 1
    pub policy : snapshot.policy_id ≡ compute_policy_id host engine.opts
    pub given : import_target target engine.current_state ≡ some old
    pub restored : IsRestored snapshot.modules old new
    pub current : imported.engine ≡ record engine { current_state = some new }
    pub written : imported.target ≡ written_to target new
