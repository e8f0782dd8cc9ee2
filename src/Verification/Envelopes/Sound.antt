-- ===== src/Verification/Envelopes/Sound.antt =====
-- What a relying party knows of an envelope that `verifyEnvelope` accepts.
use oxdeai_core.Prelude.{
  ℕ, String, ◌≡◌, refl, sym, ap, ◌∙◌, true, false, Option-cases, Option, none, some, List, [], ◌∷◌,
  ◌++◌, any-append, eq_iff, arith, get_or, is_truthy, inl, inr,
}
use oxdeai_core.Crypto.{Host, envelope_v1, verify_ed25519}
use oxdeai_core.Keyset.{KeySet, KeySetKey, ed25519, find_key_in_key_sets, key_is_active_at}
use oxdeai_core.Envelope.{
  WireHost, VerificationEnvelopeV1, envelope_signing_payload, decode_envelope,
}
use oxdeai_core.Verification.Types.{
  VerificationViolation, VerificationResult, VerificationStatus, ok, invalid, inconclusive,
  sort_violations, any-sort_violations,
}
use oxdeai_core.Verification.Envelopes.{
  VerifyEnvelopeOptions, issuer_violations, key_violations, trust_violations, signature_violations,
  differ, is_status, is_serious, has_serious, combine, snapshot_result, audit_result,
  verify_decoded, verify_envelope,
}

-- The envelope's signature verifies under a trusted key of its issuer that is active at the time.
pub record IsSigned (host : Host) (wire : WireHost) (e : VerificationEnvelopeV1)
    (opts : VerifyEnvelopeOptions) (now : ℕ) : Type 0 where
  pub alg : get_or e.alg "" ≡ "Ed25519"
  pub key : KeySetKey
  pub found :
      find_key_in_key_sets
        (get_or opts.trusted_key_sets [])
        (get_or e.issuer "")
        (get_or e.kid "")
        ed25519
      ≡ some key
  pub active : key_is_active_at key now ≡ true
  pub verified :
      verify_ed25519 host envelope_v1
        (envelope_signing_payload wire e)
        (get_or e.signature "")
        key.public_key
      ≡ true

-- No issuer is expected, or the envelope names it.
abbrev pub IsFrom : Option String → Option String → Type 0
IsFrom none actual = Unit
IsFrom (some expected) actual = actual ≡ some expected

-- What makes an envelope acceptable.
pub record IsAcceptable (host : Host) (wire : WireHost) (bytes : String)
    (opts : VerifyEnvelopeOptions) (clock : ℕ) : Type 0 where
  pub envelope : VerificationEnvelopeV1
  pub policy_id : String
  pub decoded : decode_envelope host wire bytes ≡ some envelope
  pub issuer : IsFrom opts.expected_issuer envelope.issuer
  pub given : is_truthy envelope.signature ≡ true
  pub signed : IsSigned host wire envelope opts (get_or opts.now clock)
  pub snapshot_ok : (snapshot_result host wire envelope opts).status ≡ ok
  pub snapshot_policy : (snapshot_result host wire envelope opts).policy_id ≡ some policy_id
  pub audit_ok : (audit_result host wire envelope opts).status ≡ ok
  pub audit_policy : (audit_result host wire envelope opts).policy_id ≡ some policy_id
  pub verdict : verify_envelope host wire bytes opts clock ≡ record {
    ok = true;
    status = ok;
    violations = [];
    policy_id = some policy_id;
    state_hash = (snapshot_result host wire envelope opts).state_hash;
    audit_head_hash = (audit_result host wire envelope opts).audit_head_hash;
  }

module _ (host : Host) (wire : WireHost) where
  no_serious :
      (xs ys : List VerificationViolation)
      → has_serious host wire (xs ++ ys) ≡ false
      → (has_serious host wire xs ≡ false) × (has_serious host wire ys ≡ false)
  no_serious xs ys h =
      let e = any-append (is_serious host wire) xs ys in
      (ground (arith, e, h), ground (arith, e, h))

  module _ (e : VerificationEnvelopeV1) (opts : VerifyEnvelopeOptions) (now : ℕ) where
    key_of :
        (found : Option KeySetKey)
        → find_key_in_key_sets
            (get_or opts.trusted_key_sets [])
            (get_or e.issuer "")
            (get_or e.kid "")
            ed25519
          ≡ found
        → get_or e.alg "" ≡ "Ed25519"
        → has_serious host wire (key_violations host wire e now found) ≡ false
        → IsSigned host wire e opts now
    key_of none f a h = absurd (ground (arith, h))
    key_of (some key) f a h = record {
      alg = a;
      key = key;
      found = f;
      active = ground (arith, h);
      verified = ground (arith, h);
    }

    trusted_of :
        (trusted : List KeySet)
        → get_or opts.trusted_key_sets [] ≡ trusted
        → get_or e.alg "" ≡ "Ed25519"
        → has_serious host wire (trust_violations host wire e now trusted) ≡ false
        → IsSigned host wire e opts now
    trusted_of [] t a h = absurd (ground (arith, h))
    trusted_of (ks ∷ trusted) t a h =
        key_of _
          (ap (λ ts. find_key_in_key_sets ts (get_or e.issuer "") (get_or e.kid "") ed25519) t) a h

    signature_of :
        is_truthy e.signature ≡ true
        → has_serious host wire (signature_violations host wire e opts now) ≡ false
        → IsSigned host wire e opts now
    unfolding signature_violations
    signature_of given h =
        trusted_of (get_or opts.trusted_key_sets []) refl
          (ground (arith, given, h, eq_iff (get_or e.alg "") "Ed25519")) (ground (arith, given, h))

    signature_given :
        get_or opts.require_signature_verification false ≡ true
        → has_serious host wire (signature_violations host wire e opts now) ≡ false
        → is_truthy e.signature ≡ true
    unfolding signature_violations
    signature_given required h = ground (arith, required, h)

  status_ok :
      (s : VerificationStatus)
      → is_status host wire s invalid ≡ false
      → is_status host wire s inconclusive ≡ false
      → s ≡ ok
  status_ok ok h k = refl
  status_ok invalid h k = absurd (ground (arith, h))
  status_ok inconclusive h k = absurd (ground (arith, k))

  same_id :
      (a b : Option String)
      → has_serious host wire (differ host wire a b) ≡ false
      → (p : String) × (a ≡ some p) × (b ≡ some p)
  same_id none b h = absurd (ground (arith, h))
  same_id (some p) none h = absurd (ground (arith, h))
  same_id (some p) (some q) h = (p, refl, ground (arith, h, eq_iff p q))

  -- What an accepted verdict says of the parts.
  combine-ok :
      (found : List VerificationViolation) (snapshot audit : VerificationResult)
      → (combine host wire found snapshot audit).ok ≡ true
      → (has_serious host wire found ≡ false)
        × (snapshot.status ≡ ok)
        × (audit.status ≡ ok)
        × ((p : String) × (snapshot.policy_id ≡ some p) × (audit.policy_id ≡ some p))
        × (combine host wire found snapshot audit ≡ record {
          ok = true;
          status = ok;
          violations = [];
          policy_id = snapshot.policy_id;
          state_hash = snapshot.state_hash;
          audit_head_hash = audit.audit_head_hash;
        })
  unfolding combine
  combine-ok found snapshot audit h =
      let all =
        found
        ++ (snapshot.violations
            ++ (audit.violations ++ differ host wire snapshot.policy_id audit.policy_id)) in
      let sorted_calm : has_serious host wire (sort_violations all) ≡ false = ground (arith, h) in
      let calm : has_serious host wire all ≡ false =
        sym (any-sort_violations (is_serious host wire) all) ∙ sorted_calm in
      let (first, rest) = no_serious found _ calm in
      let (second, rest2) = no_serious snapshot.violations _ rest in
      let (third, last) = no_serious audit.violations _ rest2 in
      (
        first,
        status_ok snapshot.status (ground (arith, h)) (ground (arith, h)),
        status_ok audit.status (ground (arith, h)) (ground (arith, h)),
        same_id snapshot.policy_id audit.policy_id last,
        ground (arith, h),
      )

  issuer_of :
      (expected actual : Option String)
      → has_serious host wire (issuer_violations expected actual) ≡ false
      → IsFrom expected actual
  issuer_of none actual h = tt
  issuer_of (some x) none h = absurd (ground (arith, h))
  issuer_of (some x) (some y) h = ground (arith, h, eq_iff y x)

  -- An envelope that a verifier accepts while it requires a verified signature decodes, comes from the
  -- expected issuer, is signed by an active trusted key of its issuer, and carries a snapshot and
  -- events that their own verifiers accept, with the same policy id; what is reported of the state and
  -- of the log's head is what these verifiers report.
  pub accepted_envelope :
      (bytes : String) (opts : VerifyEnvelopeOptions) (clock : ℕ)
      → get_or opts.require_signature_verification false ≡ true
      → (verify_envelope host wire bytes opts clock).ok ≡ true
      → IsAcceptable host wire bytes opts clock
  unfolding verify_envelope
  accepted_envelope bytes opts clock required h =
      elim (Option-cases (decode_envelope host wire bytes)) [
        | inl e ↦ absurd (ground (arith, e, h))
        | inr (envelope, e) ↦
            let found =
              issuer_violations opts.expected_issuer envelope.issuer
              ++ signature_violations host wire envelope opts (get_or opts.now clock) in
            let same = ap (λ o. verify_decoded host wire o opts clock) e in
            let (calm, s_ok, a_ok, (p, s_id, a_id), verdict) =
              combine-ok found (snapshot_result host wire envelope opts)
                (audit_result host wire envelope opts)
                (ap (λ (r : VerificationResult). r.ok) (sym same) ∙ h) in
            let (from, signs) =
              no_serious (issuer_violations opts.expected_issuer envelope.issuer) _ calm in
            let given = signature_given envelope opts (get_or opts.now clock) required signs in
            record {
              envelope = envelope;
              policy_id = p;
              decoded = e;
              issuer = issuer_of opts.expected_issuer envelope.issuer from;
              given = given;
              signed = signature_of envelope opts (get_or opts.now clock) given signs;
              snapshot_ok = s_ok;
              snapshot_policy = s_id;
              audit_ok = a_ok;
              audit_policy = a_id;
              verdict =
                  same
                  ∙ verdict
                  ∙ ap
                      (λ i. record {
                        ok = true;
                        status = ok;
                        violations = [];
                        policy_id = i;
                        state_hash = (snapshot_result host wire envelope opts).state_hash;
                        audit_head_hash = (audit_result host wire envelope opts).audit_head_hash;
                      })
                      s_id;
            }
      ]
