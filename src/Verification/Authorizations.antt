-- ===== src/Verification/Authorizations.antt =====
-- packages/core/src/verification/verifyAuthorization.ts. The clock is a parameter, for calls that
-- give no time.
pub mod Sound
use oxdeai_core.Prelude.{
  ℕ, String, Bool, true, false, not, Option, none, some, List, [], ◌∷◌, ◌++◌, ◌==◌, ◌&&◌, leb, any,
  get_or, has_text, is_truthy, if◌then◌else◌,
}
use oxdeai_core.Crypto.{Host, auth_v1, verify_ed25519, verify_hmac_domain, sign_ed25519}
use oxdeai_core.Keyset.{KeySet, KeySetKey, ed25519, find_key_in_key_sets, key_is_active_at}
use oxdeai_core.Authorization.{AuthorizationV1, authorization_signing_payload}
use oxdeai_core.Verification.Types.{
  VerificationViolation, VerificationResult, ViolationCode, ok, invalid, auth_decision_invalid,
  auth_missing_field, auth_expired, auth_issuer_mismatch, auth_audience_mismatch,
  auth_policy_id_mismatch, auth_replay, auth_trust_missing, auth_kid_unknown, auth_key_inactive,
  auth_signature_invalid, auth_alg_unsupported, violation_if, sort_violations,
}

-- A single trusted key set is a list of one.
pub record VerifyAuthorizationOptions : Type 0 where
  pub now : Option ℕ
  pub expected_issuer : Option String
  pub expected_audience : Option String
  pub expected_policy_id : Option String
  pub consumed_auth_ids : Option (List String)
  pub trusted_key_sets : Option (List KeySet)
  pub require_signature_verification : Option Bool
  pub legacy_hmac_secret : Option String

abbrev pub missing : String → List VerificationViolation
missing s = violation_if (not (has_text s)) auth_missing_field none

abbrev pub missing_time : Option ℕ → List VerificationViolation
missing_time none = violation_if true auth_missing_field none
missing_time (some t) = []

-- No integer, or a time that has come.
abbrev pub expired : Option ℕ → ℕ → List VerificationViolation
expired none now = violation_if true auth_missing_field none
expired (some expiry) now = violation_if (leb expiry now) auth_expired none

-- `expected !== undefined && actual !== expected`
abbrev pub mismatch : Option String → String → ViolationCode → List VerificationViolation
mismatch none actual code = []
mismatch (some expected) actual code = violation_if (not (actual == expected)) code none

abbrev pub has_sig_material : AuthorizationV1 → Bool
has_sig_material auth = has_text auth.alg && (has_text auth.kid && has_text auth.signature)

-- The fields' own checks, in the order of the source.
unfoldable pub field_violations :
    AuthorizationV1 → VerifyAuthorizationOptions → ℕ → List VerificationViolation
field_violations auth opts now =
    violation_if (not (auth.decision == "ALLOW")) auth_decision_invalid none
    ++ (missing auth.intent_hash
        ++ (missing auth.state_hash
            ++ (missing auth.policy_id
                ++ (missing auth.issuer
                    ++ (missing auth.audience
                        ++ (missing auth.auth_id
                            ++ (missing_time auth.issued_at
                                ++ (missing auth.alg
                                    ++ (missing auth.kid
                                        ++ (missing auth.signature
                                            ++ (expired auth.expiry now
                                                ++ (mismatch opts.expected_issuer auth.issuer
                                                      auth_issuer_mismatch
                                                    ++ (mismatch opts.expected_audience
                                                          auth.audience auth_audience_mismatch
                                                        ++ (mismatch opts.expected_policy_id
                                                            auth.policy_id auth_policy_id_mismatch
                                                            ++ violation_if
                                                            (has_text auth.auth_id
                                                            && any (λ c. c == auth.auth_id)
                                                            (get_or opts.consumed_auth_ids []))
                                                            auth_replay none))))))))))))))

module _ (host : Host) where
  -- The key that was found, and the signature under it.
  abbrev pub key_violations : AuthorizationV1 → ℕ → Option KeySetKey → List VerificationViolation
  key_violations auth now none = violation_if true auth_kid_unknown none
  key_violations auth now (some key) =
      if not (key_is_active_at key now)
      then violation_if true auth_key_inactive none
      else violation_if
          (not (
            verify_ed25519 host auth_v1 (authorization_signing_payload auth) auth.signature
              key.public_key))
          auth_signature_invalid none

  abbrev pub ed25519_violations :
      AuthorizationV1 → ℕ → Bool → List KeySet → List VerificationViolation
  ed25519_violations auth now require_sig [] = violation_if require_sig auth_trust_missing none
  ed25519_violations auth now require_sig (ks ∷ trusted) =
      key_violations auth now (find_key_in_key_sets (ks ∷ trusted) auth.issuer auth.kid ed25519)

  abbrev pub hmac_violations : AuthorizationV1 → Bool → Option String → List VerificationViolation
  hmac_violations auth require_sig secret =
      if is_truthy secret
      then violation_if
          (not (
            verify_hmac_domain host auth_v1 (authorization_signing_payload auth) auth.signature
              (get_or secret "")))
          auth_signature_invalid none
      else violation_if require_sig auth_trust_missing none

  unfoldable pub signature_violations :
      AuthorizationV1 → VerifyAuthorizationOptions → ℕ → List VerificationViolation
  signature_violations auth opts now =
      let require_sig = get_or opts.require_signature_verification false in
      if not (has_sig_material auth)
      then []
      else if auth.alg == "Ed25519"
      then ed25519_violations auth now require_sig (get_or opts.trusted_key_sets [])
      else if auth.alg == "HMAC-SHA256"
      then hmac_violations auth require_sig opts.legacy_hmac_secret
      else violation_if true auth_alg_unsupported none

  abbrev pub text_option : String → Option String
  text_option s = if has_text s then some s else none

  abbrev pub result_of : AuthorizationV1 → List VerificationViolation → VerificationResult
  result_of auth [] = record {
    ok = true;
    status = ok;
    violations = [];
    policy_id = some auth.policy_id;
    state_hash = some auth.state_hash;
    audit_head_hash = none;
  }
  result_of auth (v ∷ vs) = record {
    ok = false;
    status = invalid;
    violations = sort_violations (v ∷ vs);
    policy_id = text_option auth.policy_id;
    state_hash = text_option auth.state_hash;
    audit_head_hash = none;
  }

  unfoldable pub verify_authorization :
      AuthorizationV1 → VerifyAuthorizationOptions → ℕ → VerificationResult
  unfolding field_violations signature_violations
  verify_authorization auth opts clock =
      let now = get_or opts.now clock in
      result_of auth (field_violations auth opts now ++ signature_violations auth opts now)

  -- `signAuthorizationEd25519`; `none` is an exception.
  unfoldable pub sign_authorization_ed25519 : AuthorizationV1 → String → Option AuthorizationV1
  sign_authorization_ed25519 auth private_key =
      let unsigned = record auth { alg = "Ed25519"; signature = "" } in
      elim (sign_ed25519 host auth_v1 (authorization_signing_payload unsigned) private_key) [
        | none ↦ none
        | some signature ↦ some (record auth { alg = "Ed25519"; signature = signature })
      ]
