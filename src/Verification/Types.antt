-- ===== src/Verification/Types.antt =====
-- packages/core/src/verification/types.ts, with `sortViolations`, which each verifier has. The
-- messages of violations are left out.
use oxdeai_core.Prelude.{
  ℕ, String, Bool, true, false, Option, List, [], ◌∷◌, ◌==◌, ◌&&◌, ◌||◌, ltb, get_or, sort_by, any,
  any-sort_by, ◌≡◌,
}
use oxdeai_core.Json.Order.{str_ltb}

pub data VerificationStatus : Type 0 where
  ok invalid inconclusive : VerificationStatus

pub data ViolationCode : Type 0 where
  malformed_event policy_id_missing policy_id_mismatch mixed_policy_id : ViolationCode
  non_monotonic_timestamp hash_chain_invalid no_state_anchor snapshot_corrupt : ViolationCode
  envelope_malformed auth_decision_invalid auth_expired auth_missing_field : ViolationCode
  auth_issuer_mismatch auth_audience_mismatch auth_policy_id_mismatch auth_replay : ViolationCode
  auth_alg_unsupported auth_kid_unknown auth_signature_invalid auth_trust_missing : ViolationCode
  auth_key_inactive envelope_signature_missing envelope_signature_invalid : ViolationCode
  envelope_alg_unsupported envelope_kid_unknown envelope_trust_missing : ViolationCode
  envelope_key_inactive : ViolationCode

abbrev pub code_name : ViolationCode → String
code_name malformed_event = "MALFORMED_EVENT"
code_name policy_id_missing = "POLICY_ID_MISSING"
code_name policy_id_mismatch = "POLICY_ID_MISMATCH"
code_name mixed_policy_id = "MIXED_POLICY_ID"
code_name non_monotonic_timestamp = "NON_MONOTONIC_TIMESTAMP"
code_name hash_chain_invalid = "HASH_CHAIN_INVALID"
code_name no_state_anchor = "NO_STATE_ANCHOR"
code_name snapshot_corrupt = "SNAPSHOT_CORRUPT"
code_name envelope_malformed = "ENVELOPE_MALFORMED"
code_name auth_decision_invalid = "AUTH_DECISION_INVALID"
code_name auth_expired = "AUTH_EXPIRED"
code_name auth_missing_field = "AUTH_MISSING_FIELD"
code_name auth_issuer_mismatch = "AUTH_ISSUER_MISMATCH"
code_name auth_audience_mismatch = "AUTH_AUDIENCE_MISMATCH"
code_name auth_policy_id_mismatch = "AUTH_POLICY_ID_MISMATCH"
code_name auth_replay = "AUTH_REPLAY"
code_name auth_alg_unsupported = "AUTH_ALG_UNSUPPORTED"
code_name auth_kid_unknown = "AUTH_KID_UNKNOWN"
code_name auth_signature_invalid = "AUTH_SIGNATURE_INVALID"
code_name auth_trust_missing = "AUTH_TRUST_MISSING"
code_name auth_key_inactive = "AUTH_KEY_INACTIVE"
code_name envelope_signature_missing = "ENVELOPE_SIGNATURE_MISSING"
code_name envelope_signature_invalid = "ENVELOPE_SIGNATURE_INVALID"
code_name envelope_alg_unsupported = "ENVELOPE_ALG_UNSUPPORTED"
code_name envelope_kid_unknown = "ENVELOPE_KID_UNKNOWN"
code_name envelope_trust_missing = "ENVELOPE_TRUST_MISSING"
code_name envelope_key_inactive = "ENVELOPE_KEY_INACTIVE"

pub record VerificationViolation : Type 0 where
  pub code : ViolationCode
  pub index : Option ℕ

pub record VerificationResult : Type 0 where
  pub ok : Bool
  pub status : VerificationStatus
  pub violations : List VerificationViolation
  pub policy_id : Option String
  pub state_hash : Option String
  pub audit_head_hash : Option String

-- `a.code < b.code`, or equal codes and `(a.index ?? 0) < (b.index ?? 0)`
abbrev violation_lt : VerificationViolation → VerificationViolation → Bool
violation_lt a b =
    str_ltb (code_name a.code) (code_name b.code)
    || ((code_name a.code == code_name b.code) && ltb (get_or a.index 0) (get_or b.index 0))

unfoldable pub sort_violations : List VerificationViolation → List VerificationViolation
unfolding sort_by
sort_violations violations = sort_by violation_lt violations

pub any-sort_violations :
    (p : VerificationViolation → Bool) (vs : List VerificationViolation)
    → any p (sort_violations vs) ≡ any p vs
unfolding sort_violations
any-sort_violations p vs = any-sort_by p violation_lt vs

-- `if (test) violations.push({ code })`
abbrev pub violation_if : Bool → ViolationCode → Option ℕ → List VerificationViolation
violation_if true code index = record { code = code; index = index } ∷ []
violation_if false code index = []
