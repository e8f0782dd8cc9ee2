-- ===== src/Tests/Artifacts.antt =====
-- Theorems on the client's verification of its artifacts at a concrete state and log.
use oxdeai_core.Prelude.{
  ◌≡◌, refl, eq_refl, true, String, has_text, Option, none, some, List, [], ◌==◌, if◌then◌else◌,
}
use oxdeai_core.Json.{Json, canonicalize, canonical_json}
use oxdeai_core.Crypto.{Host}
use oxdeai_core.Audit.{AuditEvent, state_checkpoint}
use oxdeai_core.Log.{snapshot, append, new_log}
use oxdeai_core.CanonicalCodec.{state_json, encode_canonical_state}
use oxdeai_core.Engine.Options.{PolicyEngine}
use oxdeai_core.Engine.Snapshot.{compute_policy_id, compute_state_hash_for, export_state}
use oxdeai_core.Schemas.Events.{validate_verification_envelope_wire_json}
use oxdeai_core.Envelope.{WireHost, to_wire, encode_envelope}
use oxdeai_core.Verification.Types.{ok}
use oxdeai_core.Verification.Events.{verify_audit_events}
use oxdeai_core.Verification.Envelopes.{combine}
use oxdeai_core.Sdk.Adapters.{Memory, fulfilled, in_memory_state_adapter}
use oxdeai_core.Sdk.Guard.{GuardState}
use oxdeai_core.Sdk.Client.{ClientOptions}
use oxdeai_core.Sdk.Client.Artifacts.{
  VerifyBundleResult, audit_options, unsigned_envelope, verify_current_artifacts,
  client_artifacts_agree,
}
use oxdeai_core.Tests.Setting.{toy_host, engine, state}
use oxdeai_core.Tests.Snapshots.{snap}

-- The bytes of the snapshot, and a host that reads them from the base64 text "snap".
abbrev bytes : String
bytes = canonical_json (state_json snap)

abbrev host : Host
host = record toy_host { from_base64 = λ s. if s == "snap" then bytes else s }

-- An engine whose log holds a checkpoint.
abbrev logging : PolicyEngine
logging = record engine {
  audit =
      (append toy_host (record { body = state_checkpoint "h"; timestamp = 5; policy_id = some "p" })
        new_log).0;
}

abbrev events : List AuditEvent
events = snapshot logging.audit

abbrev to_base64 : String → String
to_base64 s = if s == bytes then "snap" else s

abbrev unread : WireHost
unread = record { parse = λ text. none; to_base64 = to_base64 }

abbrev wire_json : Json
wire_json = canonicalize (to_wire unread (unsigned_envelope bytes events))

-- Reads the snapshot and the envelope.
abbrev wire : WireHost
wire = record {
  parse = λ text. if text == bytes then some (canonicalize (state_json snap)) else some wire_json;
  to_base64 = to_base64;
}

abbrev client_options : ClientOptions Memory
client_options = record {
  state_adapter = in_memory_state_adapter;
  audit_adapter = none;
  clock = 1000;
}

abbrev start : GuardState Memory
start = record { engine = logging; audit_cursor = 0; world = record { state = state; events = [] } }

exports : export_state host start.engine.opts state ≡ some snap
unfolding export_state oxdeai_core.Codec.module_codecs oxdeai_core.Codec.Sorting.sorted_entries
    oxdeai_core.Engine.Snapshot.export_modules oxdeai_core.Engine.Snapshot.with_module_state
    oxdeai_core.Codec.Limits.normalize_concurrency oxdeai_core.Codec.Limits.concurrency_rows
    oxdeai_core.Codec.Limits.normalize_kill_switch oxdeai_core.Codec.Limits.normalize_recursion
    oxdeai_core.Codec.Limits.normalize_tool_limits oxdeai_core.Codec.Policies.normalize_budget
    oxdeai_core.Codec.Policies.normalize_replay oxdeai_core.Codec.Policies.normalize_velocity
    oxdeai_core.Codec.Policies.nonces_json oxdeai_core.Codec.Policies.fresh_keys
    oxdeai_core.Codec.Sorting.object_of oxdeai_core.Codec.Sorting.sorted_object oxdeai_core.Dict.get
    oxdeai_core.Dict.keys oxdeai_core.Prelude.sort_by
exports = refl

encodes : encode_canonical_state snap ≡ some bytes
unfolding encode_canonical_state export_state oxdeai_core.Dict.keys oxdeai_core.Dict.get
    oxdeai_core.CanonicalCodec.as_record oxdeai_core.Dict.put
encodes = refl

reads : wire.parse (canonical_json (state_json snap)) ≡ some (canonicalize (state_json snap))
unfolding canonical_json state_json export_state oxdeai_core.Dict.keys oxdeai_core.Dict.get
    oxdeai_core.Prelude.show_ℕ oxdeai_core.Dict.put oxdeai_core.Prelude.show_ℤ
reads = refl

reads_envelope :
    wire.parse (encode_envelope wire (unsigned_envelope bytes events))
    ≡ some (canonicalize (to_wire wire (unsigned_envelope bytes events)))
unfolding encode_envelope canonical_json snapshot append oxdeai_core.Prelude.show_ℕ state_json
    export_state oxdeai_core.Dict.keys oxdeai_core.Dict.get oxdeai_core.Dict.put
    oxdeai_core.Prelude.show_ℤ
reads_envelope = refl

decodes : host.from_base64 (wire.to_base64 bytes) ≡ bytes
decodes = rw (eq_refl bytes) refl

full_id : has_text (compute_policy_id host start.engine.opts) ≡ true
unfolding compute_policy_id
full_id = refl

admitted :
    validate_verification_envelope_wire_json
      (canonicalize (to_wire wire (unsigned_envelope bytes events)))
    ≡ []
unfolding validate_verification_envelope_wire_json canonicalize to_wire
    oxdeai_core.Schemas.is_base64_text canonical_json state_json export_state oxdeai_core.Dict.keys
    oxdeai_core.Dict.get oxdeai_core.Prelude.show_ℕ oxdeai_core.Dict.put oxdeai_core.Prelude.show_ℤ
    snapshot append
admitted = refl

client_artifacts_agree_example :
    (r : VerifyBundleResult) × (verify_current_artifacts host wire client_options none start
      ≡ fulfilled r (record start { world = start.world }))
    × (r.snapshot ≡ record {
      ok = true;
      status = ok;
      violations = [];
      policy_id = some (compute_policy_id host start.engine.opts);
      state_hash = compute_state_hash_for host start.engine.opts state;
      audit_head_hash = none;
    })
    × (r.audit ≡ verify_audit_events host events (audit_options none))
    × (r.envelope ≡ combine host wire [] r.snapshot r.audit)
client_artifacts_agree_example =
    client_artifacts_agree host wire client_options none start state start.world snap bytes refl
      exports encodes full_id reads reads_envelope decodes admitted
