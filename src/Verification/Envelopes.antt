-- ===== src/Verification/Envelopes.antt =====
-- packages/core/src/verification/verifyEnvelope.ts. The clock is a parameter, for calls that give no
-- time; a single trusted key set is a list of one.
pub mod Sound
use oxdeai_core.Prelude.{
  ℕ, String, Bool, true, false, not, Option, none, some, List, [], ◌∷◌, ◌++◌, ◌==◌, ◌&&◌, ◌||◌, any,
  get_or, is_truthy, if◌then◌else◌,
}
use oxdeai_core.Json.{Json}
use oxdeai_core.Crypto.{Host, envelope_v1, verify_ed25519}
use oxdeai_core.Keyset.{KeySet, KeySetKey, ed25519, find_key_in_key_sets, key_is_active_at}
use oxdeai_core.Envelope.{
  WireHost, VerificationEnvelopeV1, envelope_signing_payload, decode_envelope,
}
use oxdeai_core.Verification.Types.{
  VerificationViolation, VerificationResult, VerificationStatus, ViolationCode, ok, invalid,
  inconclusive, envelope_malformed, envelope_signature_missing, envelope_signature_invalid,
  envelope_alg_unsupported, envelope_kid_unknown, envelope_trust_missing, envelope_key_inactive,
  policy_id_missing, policy_id_mismatch, no_state_anchor, code_name, violation_if, sort_violations,
}
use oxdeai_core.Verification.Snapshots.{violation, verify_snapshot}
use oxdeai_core.Verification.Events.{AuditMode, VerifyAuditOptions, verify_audit_events}

pub record VerifyEnvelopeOptions : Type 0 where
  pub now : Option ℕ
  pub expected_policy_id : Option String
  pub mode : Option AuditMode
  pub expected_issuer : Option String
  pub trusted_key_sets : Option (List KeySet)
  pub require_signature_verification : Option Bool

-- `expected !== undefined && actual !== expected`
abbrev pub issuer_violations : Option String → Option String → List VerificationViolation
issuer_violations none actual = []
issuer_violations (some expected) none = violation envelope_signature_invalid
issuer_violations (some expected) (some actual) =
    violation_if (not (actual == expected)) envelope_signature_invalid none

module _ (host : Host) (wire : WireHost) where
  abbrev pub key_violations :
      VerificationEnvelopeV1 → ℕ → Option KeySetKey → List VerificationViolation
  key_violations e now none = violation envelope_kid_unknown
  key_violations e now (some key) =
      if not (key_is_active_at key now)
      then violation envelope_key_inactive
      else violation_if
          (not (
            verify_ed25519 host envelope_v1 (envelope_signing_payload wire e)
              (get_or e.signature "") key.public_key))
          envelope_signature_invalid none

  abbrev pub trust_violations :
      VerificationEnvelopeV1 → ℕ → List KeySet → List VerificationViolation
  trust_violations e now [] = violation envelope_trust_missing
  trust_violations e now (ks ∷ trusted) =
      key_violations e now
        (find_key_in_key_sets (ks ∷ trusted) (get_or e.issuer "") (get_or e.kid "") ed25519)

  unfoldable pub signature_violations :
      VerificationEnvelopeV1 → VerifyEnvelopeOptions → ℕ → List VerificationViolation
  signature_violations e opts now =
      if not (is_truthy e.signature)
      then violation_if (get_or opts.require_signature_verification false)
          envelope_signature_missing none
      else if not (get_or e.alg "" == "Ed25519")
      then violation envelope_alg_unsupported
      else if not (is_truthy e.kid) || not (is_truthy e.issuer)
      then violation envelope_signature_invalid
      else trust_violations e now (get_or opts.trusted_key_sets [])

  abbrev pub differ : Option String → Option String → List VerificationViolation
  differ snapshot_id audit_id =
      if not (is_truthy snapshot_id) || not (is_truthy audit_id)
      then violation policy_id_missing
      else violation_if (not (get_or snapshot_id "" == get_or audit_id "")) policy_id_mismatch none

  abbrev pub is_status : VerificationStatus → VerificationStatus → Bool
  is_status ok ok = true
  is_status invalid invalid = true
  is_status inconclusive inconclusive = true
  is_status _ _ = false

  abbrev pub is_serious : VerificationViolation → Bool
  is_serious v = not (code_name v.code == code_name no_state_anchor)

  abbrev pub has_serious : List VerificationViolation → Bool
  has_serious violations = any is_serious violations

  -- `a ?? b`
  abbrev either_id : Option String → Option String → Option String
  either_id none b = b
  either_id (some a) b = some a

  abbrev pub envelope_result :
      VerificationStatus
      → List VerificationViolation
      → VerificationResult
      → VerificationResult
      → VerificationResult
  envelope_result status violations snapshot audit = record {
    ok = false;
    status = status;
    violations = violations;
    policy_id = either_id snapshot.policy_id audit.policy_id;
    state_hash = snapshot.state_hash;
    audit_head_hash = audit.audit_head_hash;
  }

  -- The verdict on the results of the snapshot and of the events, with the violations so far.
  unfoldable pub combine :
      List VerificationViolation → VerificationResult → VerificationResult → VerificationResult
  unfolding sort_violations
  combine found snapshot audit =
      let sorted = sort_violations (
        found
        ++ (snapshot.violations
            ++ (audit.violations ++ differ snapshot.policy_id audit.policy_id))) in
      if is_status snapshot.status invalid || (is_status audit.status invalid || has_serious sorted)
      then envelope_result invalid sorted snapshot audit
      else if is_status snapshot.status inconclusive || is_status audit.status inconclusive
      then envelope_result inconclusive sorted snapshot audit
      else record {
        ok = true;
        status = ok;
        violations = [];
        policy_id = snapshot.policy_id;
        state_hash = snapshot.state_hash;
        audit_head_hash = audit.audit_head_hash;
      }

  abbrev pub snapshot_result : VerificationEnvelopeV1 → VerifyEnvelopeOptions → VerificationResult
  snapshot_result e opts = verify_snapshot host wire.parse e.snapshot opts.expected_policy_id

  abbrev pub audit_result : VerificationEnvelopeV1 → VerifyEnvelopeOptions → VerificationResult
  audit_result e opts = verify_audit_events host e.events (record {
    expected_policy_id = opts.expected_policy_id;
    mode = opts.mode;
    require_state_anchors = none;
  })

  abbrev pub verify_decoded :
      Option VerificationEnvelopeV1 → VerifyEnvelopeOptions → ℕ → VerificationResult
  verify_decoded none opts clock = record {
    ok = false;
    status = invalid;
    violations = violation envelope_malformed;
    policy_id = none;
    state_hash = none;
    audit_head_hash = none;
  }
  verify_decoded (some e) opts clock =
      combine
        (issuer_violations opts.expected_issuer e.issuer
          ++ signature_violations e opts (get_or opts.now clock))
        (snapshot_result e opts) (audit_result e opts)

  unfoldable pub verify_envelope : String → VerifyEnvelopeOptions → ℕ → VerificationResult
  unfolding signature_violations combine decode_envelope
  verify_envelope bytes opts clock = verify_decoded (decode_envelope host wire bytes) opts clock
