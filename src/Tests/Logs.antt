-- ===== src/Tests/Logs.antt =====
-- Theorems on the audit log at concrete logs.
use Prim.Native.String.{count}
use oxdeai_core.Prelude.{
  String, ◌%◌, nat_eq, ◌≡◌, ◌⊎◌, refl, Bool, true, false, Option, none, some, List, [], ◌==◌, ◌≢◌,
}
use oxdeai_core.Audit.{AuditEvent, intent_received, canonicalize_entry}
use oxdeai_core.Log.{
  HashChainedLog, genesis, append, new_log, verify, head_hash, message, compute_next_hash,
  verify_from,
}
use oxdeai_core.Log.Integrity.{CollidesFrom, contents, verify_tamper_evident, verify-append}
use oxdeai_core.Prelude.{◌∷◌}
use oxdeai_core.Verification.Types.{sort_violations}
use oxdeai_core.Verification.Replays.{VerifyOptions, verify_replay_events}
use oxdeai_core.Verification.Replays.Head.{replay_head-log_head}
use oxdeai_core.Verification.Events.{
  VerifyAuditOptions, verify_audit_events, scan_events, scan_event, finish_scan, schema_violations,
}
use oxdeai_core.Verification.Events.Head.{audit_head-ne_log_head}
use oxdeai_core.Log.{snapshot}
use oxdeai_core.Tests.Setting.{toy_host, parity}

abbrev received_from : String → AuditEvent
received_from agent = record {
  body = intent_received "h" agent;
  timestamp = 5;
  policy_id = some "p";
}

abbrev log_of : String → HashChainedLog
log_of agent = (append toy_host (received_from agent) new_log).0

same_length : (b c : Bool) → count (parity b) ≡ count (parity c)
same_length true true = refl
same_length true false = refl
same_length false true = refl
same_length false false = refl

-- The toy digest does not tell these two logs apart.
verify_tamper_evident_example :
    CollidesFrom toy_host genesis genesis (snapshot (log_of "a")) (snapshot (log_of "b"))
    ⊎ (contents (log_of "a").chain ≡ contents (log_of "b").chain)
unfolding append compute_next_hash message verify verify_from head_hash canonicalize_entry
    oxdeai_core.Json.canonical_json oxdeai_core.Json.canonicalize oxdeai_core.Json.insert_field
    oxdeai_core.Json.json_stringify oxdeai_core.Json.normalize oxdeai_core.Json.quote
    oxdeai_core.Json.quote_from oxdeai_core.Json.sort_fields oxdeai_core.Prelude.show_from
    oxdeai_core.Prelude.show_ℕ
verify_tamper_evident_example =
    verify_tamper_evident toy_host (log_of "a") (log_of "b") (λ s t. same_length _ _) refl refl refl
      refl

verify-append_example : verify toy_host (append toy_host (received_from "b") (log_of "a")).0 ≡ true
unfolding append compute_next_hash message verify verify_from head_hash canonicalize_entry
    oxdeai_core.Json.canonical_json oxdeai_core.Json.canonicalize oxdeai_core.Json.insert_field
    oxdeai_core.Json.json_stringify oxdeai_core.Json.normalize oxdeai_core.Json.quote
    oxdeai_core.Json.quote_from oxdeai_core.Json.sort_fields oxdeai_core.Prelude.show_from
    oxdeai_core.Prelude.show_ℕ
verify-append_example = verify-append toy_host (received_from "b") (log_of "a") refl

abbrev two_events : HashChainedLog
two_events = (append toy_host (received_from "b") (log_of "a")).0

abbrev replay_options : VerifyOptions
replay_options = record { policy_id = some "p"; mode = none }

replay_head-log_head_example :
    (verify_replay_events toy_host (snapshot two_events) replay_options).audit_head_hash
    ≡ head_hash two_events
unfolding append compute_next_hash message verify verify_from head_hash canonicalize_entry
    oxdeai_core.Json.canonical_json oxdeai_core.Json.canonicalize oxdeai_core.Json.insert_field
    oxdeai_core.Json.json_stringify oxdeai_core.Json.normalize oxdeai_core.Json.quote
    oxdeai_core.Json.quote_from oxdeai_core.Json.sort_fields oxdeai_core.Prelude.show_from
    oxdeai_core.Prelude.show_ℕ
replay_head-log_head_example = replay_head-log_head toy_host two_events replay_options refl

abbrev audit_options : VerifyAuditOptions
audit_options = record { expected_policy_id = some "p"; mode = none; require_state_anchors = none }

-- The toy digest does not tell the two chains of two events apart.
audit_head-ne_log_head_example :
    CollidesFrom toy_host "" genesis
      (received_from "a" ∷ received_from "b" ∷ [])
      (received_from "a" ∷ received_from "b" ∷ [])
unfolding append compute_next_hash message verify verify_from head_hash canonicalize_entry
    oxdeai_core.Json.canonical_json oxdeai_core.Json.canonicalize oxdeai_core.Json.insert_field
    oxdeai_core.Json.json_stringify oxdeai_core.Json.normalize oxdeai_core.Json.quote
    oxdeai_core.Json.quote_from oxdeai_core.Json.sort_fields oxdeai_core.Prelude.show_from
    oxdeai_core.Prelude.show_ℕ snapshot verify_audit_events scan_events scan_event finish_scan
    schema_violations sort_violations
audit_head-ne_log_head_example =
    audit_head-ne_log_head toy_host (λ s t. same_length _ _) two_events (received_from "a")
      (received_from "b" ∷ []) audit_options refl (refl, (refl, tt)) refl refl
