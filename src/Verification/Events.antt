-- ===== src/Verification/Events.antt =====
-- packages/core/src/verification/verifyAuditEvents.ts, with `validateAuditEventJson` of
-- packages/core/src/schemas/validate.ts on events of the type `AuditEntry`: their shape is right by
-- that type, and left are the texts that must not be empty. `none` for an expected policy id is
-- undefined, and so is a missing one.
pub mod Head
use oxdeai_core.Prelude.{
  ℕ, zero, suc, ◌+◌, String, Bool, true, false, not, Option, none, some, List, [], ◌∷◌, ◌++◌, ◌==◌,
  ◌&&◌, ◌||◌, ltb, any, map, get_or, has_text, is_truthy, if◌then◌else◌,
}
use oxdeai_core.Crypto.{Host}
use oxdeai_core.Audit.{
  AuditEvent, EventBody, intent_received, decision, auth_emitted, execution_attested,
  state_checkpoint,
}
use oxdeai_core.Log.{compute_next_hash}
use oxdeai_core.Verification.Types.{
  VerificationViolation, VerificationResult, VerificationStatus, ok, invalid, inconclusive,
  malformed_event, non_monotonic_timestamp, policy_id_missing, policy_id_mismatch, mixed_policy_id,
  no_state_anchor, code_name, violation_if, sort_violations,
}

pub data AuditMode : Type 0 where
  strict best_effort : AuditMode

pub record VerifyAuditOptions : Type 0 where
  pub expected_policy_id : Option String
  pub mode : Option AuditMode
  pub require_state_anchors : Option Bool

abbrev empty_text : String → List VerificationViolation
empty_text s = violation_if (not (has_text s)) malformed_event none

abbrev pub body_issues : EventBody → List VerificationViolation
body_issues (intent_received intent_hash agent_id) = empty_text intent_hash
body_issues (decision intent_hash verdict reasons policy_version) = empty_text intent_hash
body_issues (auth_emitted authorization_id intent_hash expires_at) =
    empty_text authorization_id ++ empty_text intent_hash
body_issues (execution_attested intent_hash execution_ref) = empty_text intent_hash
body_issues (state_checkpoint state_hash) = empty_text state_hash

-- `{ ...violation, index }`
abbrev pub at_index : ℕ → VerificationViolation → VerificationViolation
at_index i v = record v { index = some i }

-- The violations of one event's schema, at its index.
unfoldable pub schema_violations : ℕ → AuditEvent → List VerificationViolation
schema_violations i e = map (at_index i) (body_issues e.body)

-- The variables of the loop.
pub record Scan : Type 0 where
  pub violations : List VerificationViolation
  pub policy_ids : List String
  pub has_state_anchor : Bool
  pub head : String
  pub last_timestamp : Option ℕ

abbrev pub start : Scan
start = record {
  violations = [];
  policy_ids = [];
  has_state_anchor = false;
  head = "";
  last_timestamp = none;
}

-- `last !== undefined && timestamp < last`
abbrev pub goes_back : Option ℕ → ℕ → Bool
goes_back none t = false
goes_back (some last) t = ltb t last

abbrev policy_violations : Option String → Option String → ℕ → List VerificationViolation
policy_violations none actual i = []
policy_violations (some expected) actual i =
    if not (is_truthy actual)
    then violation_if true policy_id_missing (some i)
    else violation_if (not (get_or actual "" == expected)) policy_id_mismatch (some i)

-- `policyIds.add(id)`
abbrev pub add_id : Option String → List String → List String
add_id id ids =
    if is_truthy id && not (any (λ p. p == get_or id "") ids) then ids ++ get_or id "" ∷ [] else ids

abbrev is_anchor : EventBody → Bool
is_anchor (state_checkpoint _) = true
is_anchor _ = false

module _ (host : Host) where
  -- One round for an event that its schema admits.
  unfoldable pub scan_event : VerifyAuditOptions → ℕ → AuditEvent → Scan → Scan
  unfolding compute_next_hash
  scan_event opts i e s = record {
    violations =
        s.violations
        ++ (violation_if (goes_back s.last_timestamp e.timestamp) non_monotonic_timestamp (some i)
            ++ policy_violations opts.expected_policy_id e.policy_id i);
    policy_ids = add_id e.policy_id s.policy_ids;
    has_state_anchor = s.has_state_anchor || is_anchor e.body;
    head = compute_next_hash host s.head e;
    last_timestamp = some e.timestamp;
  }

  abbrev pub scan_checked :
      VerifyAuditOptions → ℕ → AuditEvent → Scan → List VerificationViolation → Scan
  scan_checked opts i e s [] = scan_event opts i e s
  scan_checked opts i e s (v ∷ vs) = record s { violations = s.violations ++ v ∷ vs }

  unfoldable pub scan_events : VerifyAuditOptions → ℕ → List AuditEvent → Scan → Scan
  unfolding scan_event schema_violations
  scan_events opts i [] s = s
  scan_events opts i (e ∷ es) s =
      scan_events opts (suc i) es (scan_checked opts i e s (schema_violations i e))

  abbrev is_strict : AuditMode → Bool
  is_strict strict = true
  is_strict best_effort = false

  -- The id that all events have, if there is one.
  abbrev pub inferred : List String → Option String
  inferred (p ∷ []) = some p
  inferred _ = none

  abbrev is_mixed : List String → Bool
  is_mixed (p ∷ q ∷ ps) = true
  is_mixed _ = false

  abbrev is_anchor_violation : VerificationViolation → Bool
  is_anchor_violation v = code_name v.code == code_name no_state_anchor

  abbrev pub audit_result :
      VerificationStatus → Scan → List VerificationViolation → VerificationResult
  audit_result status s violations = record {
    ok = false;
    status = status;
    violations = violations;
    policy_id = inferred s.policy_ids;
    state_hash = none;
    audit_head_hash = some s.head;
  }

  unfoldable pub finish_scan : VerifyAuditOptions → Scan → VerificationResult
  unfolding sort_violations
  finish_scan opts s =
      let require_anchors =
        get_or opts.require_state_anchors (is_strict (get_or opts.mode strict)) in
      let sorted = sort_violations (
        s.violations
        ++ (violation_if (is_mixed s.policy_ids) mixed_policy_id none
            ++ violation_if (require_anchors && not s.has_state_anchor) no_state_anchor none)) in
      if any (λ v. not (is_anchor_violation v)) sorted
      then audit_result invalid s sorted
      else if any is_anchor_violation sorted
      then audit_result inconclusive s sorted
      else record (audit_result ok s []) { ok = true }

  unfoldable pub verify_audit_events : List AuditEvent → VerifyAuditOptions → VerificationResult
  unfolding scan_events finish_scan
  verify_audit_events events opts = finish_scan opts (scan_events opts 0 events start)
