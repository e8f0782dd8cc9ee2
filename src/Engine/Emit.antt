-- ===== src/Engine/Emit.antt =====
-- `emitAudit` and `maybeEmitCheckpoint`. The sink's queue is asynchronous: `sunk` is what it is
-- given, in order, whether or not the sink fails later.
use oxdeai_core.Prelude.{
  ℕ, zero, suc, ◌+◌, ◌%◌, String, Bool, false, Option, none, some, [], ◌∷◌, ◌++◌, nat_eq, ◌>>=◌,
  if◌then◌else◌,
}
use oxdeai_core.Crypto.{Host}
use oxdeai_core.State.{State}
use oxdeai_core.Audit.{AuditEvent, EventBody, state_checkpoint}
use oxdeai_core.Log.{append}
use oxdeai_core.Engine.Options.{PolicyEngine}
use oxdeai_core.Engine.Snapshot.{compute_state_hash_for}

abbrev pub event : EventBody → ℕ → String → AuditEvent
event body timestamp policy_id = record {
  body = body;
  timestamp = timestamp;
  policy_id = some policy_id;
}

module _ (host : Host) where
  unfoldable pub emit_audit : AuditEvent → PolicyEngine → PolicyEngine
  emit_audit e engine = record engine {
    audit = (append host e engine.audit).0;
    audit_event_count = engine.audit_event_count + 1;
    sunk = if engine.opts.audit_sink then engine.sunk ++ e ∷ [] else engine.sunk;
  }

  -- Whether a checkpoint is due: `every` is a positive number that divides the count of events.
  abbrev pub is_due : Option ℕ → ℕ → Bool
  is_due none count = false
  is_due (some zero) count = false
  is_due (some (suc every)) count = nat_eq (count % suc every) 0

  -- `none`: hashing the state has thrown.
  unfoldable pub maybe_emit_checkpoint : String → ℕ → State → PolicyEngine → Option PolicyEngine
  unfolding emit_audit
  maybe_emit_checkpoint policy_id timestamp state engine =
      if is_due engine.opts.checkpoint_every_n_events engine.audit_event_count
      then (do
        hash ← compute_state_hash_for host engine.opts state
        some (emit_audit (event (state_checkpoint hash) timestamp policy_id) engine))
      else some engine
