-- ===== src/Verification/Snapshots.antt =====
-- packages/core/src/verification/verifySnapshot.ts. The decoded snapshot has the four fields that the
-- codec asserts, with their types, so the tests for a missing policy id, for the format's version and
-- for modules that are no object, which come after the schema, are tests of those.
pub mod Exported
use oxdeai_core.Prelude.{
  ℕ, String, Bool, true, false, not, Option, none, some, List, [], ◌∷◌, ◌==◌, ◌&&◌, map, nat_eq,
  has_text, is_truthy, get_or, if◌then◌else◌,
}
use oxdeai_core.Dict.{Dict}
use oxdeai_core.Json.{Json, num, str, obj, Fields, end, field}
use oxdeai_core.Crypto.{Host, sha256_from_json}
use oxdeai_core.Codec.Sorting.{sorted_entries}
use oxdeai_core.Engine.Options.{CanonicalState}
use oxdeai_core.CanonicalCodec.{fields_of, state_json, decode_canonical_state}
use oxdeai_core.Schemas.{SchemaValidationIssue}
use oxdeai_core.Schemas.Artifacts.{validate_canonical_state_json}
use oxdeai_core.Verification.Types.{
  VerificationResult, VerificationViolation, ViolationCode, ok, invalid, snapshot_corrupt,
  policy_id_missing, policy_id_mismatch, sort_violations,
}

-- `mapIssuesToViolation`, but for the messages.
abbrev pub map_issues_to_violation :
    ViolationCode → List SchemaValidationIssue → Option ℕ → List VerificationViolation
map_issues_to_violation code issues index = map (λ i. record { code = code; index = index }) issues

-- A result with violations.
abbrev pub invalid_snapshot : List VerificationViolation → Option String → VerificationResult
invalid_snapshot violations policy_id = record {
  ok = false;
  status = invalid;
  violations = violations;
  policy_id = policy_id;
  state_hash = none;
  audit_head_hash = none;
}

abbrev pub violation : ViolationCode → List VerificationViolation
violation code = record { code = code; index = none } ∷ []

module _ (host : Host) where
  -- The hash of each module, by the sorted ids.
  unfoldable pub hash_fields : Dict Json → Fields
  hash_fields [] = end
  hash_fields ((id, v) ∷ d) = field id (str (sha256_from_json host v)) (hash_fields d)

  unfoldable pub snapshot_hash : CanonicalState → String
  unfolding hash_fields sorted_entries
  snapshot_hash s = sha256_from_json host (
      obj (
        field "formatVersion" (num 1) (
          field "engineVersion" (str s.engine_version) (
            field "policyId" (str s.policy_id)
              (field "modules" (obj (hash_fields (sorted_entries s.modules))) end)))))

  -- The checks behind the schema.
  unfoldable pub verify_decoded : CanonicalState → Option String → VerificationResult
  unfolding snapshot_hash sort_violations
  verify_decoded s expected =
      if not (nat_eq s.format_version 1)
      then invalid_snapshot (sort_violations (violation snapshot_corrupt)) (some s.policy_id)
      else if not (has_text s.policy_id)
      then invalid_snapshot (sort_violations (violation policy_id_missing)) none
      else if is_truthy expected && not (get_or expected "" == s.policy_id)
      then invalid_snapshot (sort_violations (violation policy_id_mismatch)) (some s.policy_id)
      else record {
        ok = true;
        status = ok;
        violations = [];
        policy_id = some s.policy_id;
        state_hash = some (snapshot_hash s);
        audit_head_hash = none;
      }

  abbrev pub verify_validated :
      CanonicalState → Option String → List SchemaValidationIssue → VerificationResult
  verify_validated s expected [] = verify_decoded s expected
  verify_validated s expected (i ∷ is) =
      invalid_snapshot (sort_violations (map_issues_to_violation snapshot_corrupt (i ∷ is) none))
        (some s.policy_id)

  abbrev pub verify_state : Option CanonicalState → Option String → VerificationResult
  verify_state none expected = invalid_snapshot (sort_violations (violation snapshot_corrupt)) none
  verify_state (some s) expected =
      verify_validated s expected (validate_canonical_state_json (state_json s))

  unfoldable pub verify_snapshot :
      (String → Option Json) → String → Option String → VerificationResult
  unfolding verify_decoded validate_canonical_state_json decode_canonical_state
  verify_snapshot parse bytes expected = verify_state (decode_canonical_state parse bytes) expected
