-- ===== src/Tests/Snapshots.antt =====
-- Theorems on snapshots at a concrete state.
use oxdeai_core.Prelude.{
  ◌≡◌, refl, true, String, Option, none, some, [], ◌==◌, eq_refl, get_or, if◌then◌else◌,
}
use oxdeai_core.Json.{Json, canonicalize, canonical_json}
use oxdeai_core.Engine.Options.{CanonicalState}
use oxdeai_core.Engine.Snapshot.{
  create_canonical_state, compute_policy_id, compute_state_hash_for, export_state,
}
use oxdeai_core.CanonicalCodec.{state_json, encode_canonical_state}
use oxdeai_core.Verification.Types.{ok}
use oxdeai_core.Verification.Snapshots.{verify_snapshot}
use oxdeai_core.Verification.Snapshots.Exported.{exported_snapshot_verifies}
use oxdeai_core.Tests.Setting.{toy_host, options, state}

abbrev pub snap : CanonicalState
snap = get_or (export_state toy_host options state) (create_canonical_state "" "" [])

pub snap-export : export_state toy_host options state ≡ some snap
unfolding export_state oxdeai_core.Codec.module_codecs oxdeai_core.Codec.Sorting.sorted_entries
    oxdeai_core.Engine.Snapshot.export_modules oxdeai_core.Engine.Snapshot.with_module_state
    oxdeai_core.Codec.Limits.normalize_concurrency oxdeai_core.Codec.Limits.concurrency_rows
    oxdeai_core.Codec.Limits.normalize_kill_switch oxdeai_core.Codec.Limits.normalize_recursion
    oxdeai_core.Codec.Limits.normalize_tool_limits oxdeai_core.Codec.Policies.normalize_budget
    oxdeai_core.Codec.Policies.normalize_replay oxdeai_core.Codec.Policies.normalize_velocity
    oxdeai_core.Codec.Policies.nonces_json oxdeai_core.Codec.Policies.fresh_keys
    oxdeai_core.Codec.Sorting.object_of oxdeai_core.Codec.Sorting.sorted_object oxdeai_core.Dict.get
    oxdeai_core.Dict.keys oxdeai_core.Prelude.sort_by
snap-export = refl

pub policy_id-full : oxdeai_core.Prelude.has_text (compute_policy_id toy_host options) ≡ true
unfolding compute_policy_id
policy_id-full = refl

-- Reads the one text that is there.
abbrev parse : String → Option Json
parse text =
    if text == canonical_json (state_json snap) then some (canonicalize (state_json snap)) else none

exported_snapshot_verifies_example :
    (bytes : String) × (encode_canonical_state snap ≡ some bytes)
    × (verify_snapshot toy_host parse bytes none ≡ record {
      ok = true;
      status = ok;
      violations = [];
      policy_id = some (compute_policy_id toy_host options);
      state_hash = compute_state_hash_for toy_host options state;
      audit_head_hash = none;
    })
exported_snapshot_verifies_example =
    exported_snapshot_verifies toy_host options state parse snap none snap-export
      (rw (eq_refl (canonical_json (state_json snap))) refl) policy_id-full refl
