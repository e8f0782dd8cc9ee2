-- ===== src/Verification/Authorizations/Sound.antt =====
-- What a relying party knows of an authorization that `verifyAuthorization` accepts.
use oxdeai_core.Prelude.{
  ℕ, ◌<◌, String, ◌≡◌, ◌⊎◌, refl, ap, true, false, Bool, Bool-cases, not, Option, none, some, List,
  [], ◌∷◌, ◌++◌, ◌==◌, eq_iff, arith, get_or, has_text, leb, any, inl, inr, ◌&&◌,
}
use oxdeai_core.Crypto.{Host, auth_v1, verify_ed25519, verify_hmac_domain}
use oxdeai_core.Keyset.{KeySet, KeySetKey, ed25519, find_key_in_key_sets, key_is_active_at}
use oxdeai_core.Authorization.{AuthorizationV1, authorization_signing_payload}
use oxdeai_core.Verification.Types.{
  VerificationViolation, ViolationCode, auth_decision_invalid, auth_issuer_mismatch,
  auth_audience_mismatch, auth_policy_id_mismatch, auth_replay, violation_if,
}
use oxdeai_core.Verification.Authorizations.{
  VerifyAuthorizationOptions, missing, missing_time, expired, mismatch, has_sig_material,
  field_violations, hmac_violations, key_violations, ed25519_violations, signature_violations,
  result_of, verify_authorization,
}

-- `expected` is absent, or it is the value.
abbrev pub IsExpected : Option String → String → Type 0
IsExpected none actual = Unit
IsExpected (some expected) actual = actual ≡ expected

-- The signature over the authorization's payload verifies: under a trusted key of its issuer that is
-- active at the time, or with the shared secret.
pub record IsKeySigned (host : Host) (auth : AuthorizationV1) (opts : VerifyAuthorizationOptions)
    (now : ℕ) : Type 0 where
  pub alg : auth.alg ≡ "Ed25519"
  pub key : KeySetKey
  pub found :
      find_key_in_key_sets (get_or opts.trusted_key_sets []) auth.issuer auth.kid ed25519 ≡ some key
  pub active : key_is_active_at key now ≡ true
  pub verified :
      verify_ed25519 host auth_v1 (authorization_signing_payload auth) auth.signature key.public_key
      ≡ true

pub record IsSecretSigned (host : Host) (auth : AuthorizationV1) (opts : VerifyAuthorizationOptions)
    : Type 0 where
  pub alg : auth.alg ≡ "HMAC-SHA256"
  pub secret : String
  pub known : opts.legacy_hmac_secret ≡ some secret
  pub verified :
      verify_hmac_domain host auth_v1 (authorization_signing_payload auth) auth.signature secret
      ≡ true

-- What makes an authorization acceptable at a time.
pub record IsAcceptable (host : Host) (auth : AuthorizationV1) (opts : VerifyAuthorizationOptions)
    (now : ℕ) : Type 0 where
  pub decision : auth.decision ≡ "ALLOW"
  pub expiry : ℕ
  pub expires : auth.expiry ≡ some expiry
  pub live : now < expiry
  pub issuer : IsExpected opts.expected_issuer auth.issuer
  pub audience : IsExpected opts.expected_audience auth.audience
  pub policy_id : IsExpected opts.expected_policy_id auth.policy_id
  pub unused : any (λ c. c == auth.auth_id) (get_or opts.consumed_auth_ids []) ≡ false
  pub signed : IsKeySigned host auth opts now ⊎ IsSecretSigned host auth opts

nil_left {ℓ} : {A : Type ℓ} (xs ys : List A) → xs ++ ys ≡ [] → xs ≡ []
nil_left [] ys h = refl
nil_left (x ∷ xs) ys h = absurd (cc h)

nil_right {ℓ} : {A : Type ℓ} (xs ys : List A) → xs ++ ys ≡ [] → ys ≡ []
nil_right [] ys h = h
nil_right (x ∷ xs) ys h = absurd (cc h)

no_violation :
    (b : Bool) (code : ViolationCode) (i : Option ℕ) → violation_if b code i ≡ [] → b ≡ false
no_violation true code i h = absurd (cc h)
no_violation false code i h = refl

expected_of :
    (expected : Option String) (actual : String) (code : ViolationCode)
    → mismatch expected actual code ≡ []
    → IsExpected expected actual
expected_of none actual code h = tt
expected_of (some e) actual code h =
    let b = no_violation (not (actual == e)) code none h in ground (arith, eq_iff actual e)

live_of :
    (expiry : Option ℕ) (now : ℕ)
    → expired expiry now ≡ []
    → (e : ℕ) × (expiry ≡ some e) × (now < e)
live_of none now h = absurd (cc h)
live_of (some e) now h = let b = no_violation (leb e now) _ none h in (e, refl, ground arith)

has_text-missing : (s : String) → missing s ≡ [] → has_text s ≡ true
has_text-missing s h = let b = no_violation (not (has_text s)) _ none h in ground arith

allow_of :
    (decision : String)
    → violation_if (not (decision == "ALLOW")) auth_decision_invalid none ≡ []
    → decision ≡ "ALLOW"
allow_of decision h =
    let b = no_violation (not (decision == "ALLOW")) _ none h in
    ground (arith, eq_iff decision "ALLOW")

material_of :
    (auth : AuthorizationV1)
    → has_text auth.alg ≡ true
    → has_text auth.kid ≡ true
    → has_text auth.signature ≡ true
    → has_sig_material auth ≡ true
material_of auth a k s = rw (a, k, s) refl

unused_of : (named used : Bool) → named ≡ true → (named && used) ≡ false → used ≡ false
unused_of named used n h = ground arith

module _ (host : Host) (auth : AuthorizationV1) (opts : VerifyAuthorizationOptions) (now : ℕ) where
  key_of :
      (found : Option KeySetKey)
      → find_key_in_key_sets (get_or opts.trusted_key_sets []) auth.issuer auth.kid ed25519 ≡ found
      → auth.alg ≡ "Ed25519"
      → key_violations host auth now found ≡ []
      → IsKeySigned host auth opts now
  key_of none f a h = absurd (cc h)
  key_of (some key) f a h = record {
    alg = a;
    key = key;
    found = f;
    active = ground arith;
    verified = ground arith;
  }

  trusted_of :
      (trusted : List KeySet)
      → get_or opts.trusted_key_sets [] ≡ trusted
      → auth.alg ≡ "Ed25519"
      → ed25519_violations host auth now true trusted ≡ []
      → IsKeySigned host auth opts now
  trusted_of [] t a h = absurd (cc h)
  trusted_of (ks ∷ trusted) t a h =
      key_of _ (ap (λ ts. find_key_in_key_sets ts auth.issuer auth.kid ed25519) t) a h

  secret_of :
      (secret : Option String)
      → opts.legacy_hmac_secret ≡ secret
      → auth.alg ≡ "HMAC-SHA256"
      → hmac_violations host auth true secret ≡ []
      → IsSecretSigned host auth opts
  secret_of none k a h = absurd (cc h)
  secret_of (some s) k a h = record { alg = a; secret = s; known = k; verified = ground arith }

  signed_of :
      opts.require_signature_verification ≡ some true
      → has_sig_material auth ≡ true
      → signature_violations host auth opts now ≡ []
      → IsKeySigned host auth opts now ⊎ IsSecretSigned host auth opts
  unfolding signature_violations
  signed_of required material h = elim (Bool-cases (auth.alg == "Ed25519")) [
    | inl a ↦
        inl (trusted_of (get_or opts.trusted_key_sets []) refl ((eq_iff _ _).0 a) (ground arith))
    | inr a ↦ elim (Bool-cases (auth.alg == "HMAC-SHA256")) [
      | inl b ↦ inr (secret_of opts.legacy_hmac_secret refl ((eq_iff _ _).0 b) (ground arith))
      | inr b ↦ absurd (ground arith)
    ]
  ]

  -- What the checks of the fields establish.
  abbrev IsFieldSound : Type 0
  IsFieldSound =
      (auth.decision ≡ "ALLOW")
      × (has_sig_material auth ≡ true)
      × ((e : ℕ) × (auth.expiry ≡ some e) × (now < e))
      × (IsExpected opts.expected_issuer auth.issuer)
      × (IsExpected opts.expected_audience auth.audience)
      × (IsExpected opts.expected_policy_id auth.policy_id)
      × (any (λ c. c == auth.auth_id) (get_or opts.consumed_auth_ids []) ≡ false)

  fields_of : field_violations auth opts now ≡ [] → IsFieldSound
  unfolding field_violations
  fields_of h0 =
      let h1 =
        nil_right (violation_if (not (auth.decision == "ALLOW")) auth_decision_invalid none) _ h0 in
      let h2 = nil_right (missing auth.intent_hash) _ h1 in
      let h3 = nil_right (missing auth.state_hash) _ h2 in
      let h4 = nil_right (missing auth.policy_id) _ h3 in
      let h5 = nil_right (missing auth.issuer) _ h4 in
      let h6 = nil_right (missing auth.audience) _ h5 in
      let h7 = nil_right (missing auth.auth_id) _ h6 in
      let h8 = nil_right (missing_time auth.issued_at) _ h7 in
      let h9 = nil_right (missing auth.alg) _ h8 in
      let h10 = nil_right (missing auth.kid) _ h9 in
      let h11 = nil_right (missing auth.signature) _ h10 in
      let h12 = nil_right (expired auth.expiry now) _ h11 in
      let h13 = nil_right (mismatch opts.expected_issuer auth.issuer auth_issuer_mismatch) _ h12 in
      let h14 =
        nil_right (mismatch opts.expected_audience auth.audience auth_audience_mismatch) _ h13 in
      let h15 =
        nil_right (mismatch opts.expected_policy_id auth.policy_id auth_policy_id_mismatch) _ h14 in
      (
        allow_of auth.decision (
            nil_left (violation_if (not (auth.decision == "ALLOW")) auth_decision_invalid none) _
              h0),
        material_of auth (has_text-missing auth.alg (nil_left (missing auth.alg) _ h8))
            (has_text-missing auth.kid (nil_left (missing auth.kid) _ h9))
            (has_text-missing auth.signature (nil_left (missing auth.signature) _ h10)),
        live_of auth.expiry now (nil_left (expired auth.expiry now) _ h11),
        expected_of opts.expected_issuer auth.issuer auth_issuer_mismatch
            (nil_left (mismatch opts.expected_issuer auth.issuer auth_issuer_mismatch) _ h12),
        expected_of opts.expected_audience auth.audience auth_audience_mismatch
            (nil_left (mismatch opts.expected_audience auth.audience auth_audience_mismatch) _ h13),
        expected_of opts.expected_policy_id auth.policy_id auth_policy_id_mismatch (
            nil_left (mismatch opts.expected_policy_id auth.policy_id auth_policy_id_mismatch) _
              h14),
        unused_of (has_text auth.auth_id) _
            (has_text-missing auth.auth_id (nil_left (missing auth.auth_id) _ h6))
            (no_violation _ auth_replay none h15),
      )

ok_nil :
    (host : Host) (auth : AuthorizationV1) (vs : List VerificationViolation)
    → (result_of host auth vs).ok ≡ true
    → vs ≡ []
ok_nil host auth [] h = refl
ok_nil host auth (v ∷ vs) h = absurd (cc h)

-- An authorization that a verifier accepts while it requires a verified signature allows, has not
-- expired, has the expected issuer, audience and policy, has not been consumed, and is signed by an
-- active trusted key of its issuer or with the shared secret.
pub accepted_authorization :
    (host : Host) (auth : AuthorizationV1) (opts : VerifyAuthorizationOptions) (clock : ℕ)
    → opts.require_signature_verification ≡ some true
    → (verify_authorization host auth opts clock).ok ≡ true
    → IsAcceptable host auth opts (get_or opts.now clock)
unfolding verify_authorization
accepted_authorization host auth opts clock required h =
    let now = get_or opts.now clock in
    let none_left = ok_nil host auth _ h in
    let (decision, material, (expiry, expires, live), issuer, audience, policy_id, unused) =
      fields_of host auth opts now (nil_left _ _ none_left) in
    record {
      decision = decision;
      expiry = expiry;
      expires = expires;
      live = live;
      issuer = issuer;
      audience = audience;
      policy_id = policy_id;
      unused = unused;
      signed = signed_of host auth opts now required material (nil_right _ _ none_left);
    }
