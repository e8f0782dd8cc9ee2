-- ===== src/Tests/Parties.antt =====
-- Theorems on the verifier of authorizations at a concrete authorization.
use oxdeai_core.Prelude.{◌≡◌, refl, none, some, true}
use oxdeai_core.Authorization.{AuthorizationV1}
use oxdeai_core.Verification.Authorizations.{VerifyAuthorizationOptions, verify_authorization}
use oxdeai_core.Verification.Authorizations.Sound.{IsAcceptable, accepted_authorization}
use oxdeai_core.Tests.Setting.{toy_host}

abbrev permit : AuthorizationV1
permit = record {
  auth_id = "id";
  issuer = "engine";
  audience = "shop";
  intent_hash = "i";
  state_hash = "s";
  policy_id = "p";
  decision = "ALLOW";
  issued_at = some 1000;
  expiry = some 1060;
  alg = "HMAC-SHA256";
  kid = "k";
  signature = "o";
  nonce = none;
  capability = none;
}

abbrev strict_options : VerifyAuthorizationOptions
strict_options = record {
  now = some 1010;
  expected_issuer = some "engine";
  expected_audience = none;
  expected_policy_id = some "p";
  consumed_auth_ids = none;
  trusted_key_sets = none;
  require_signature_verification = some true;
  legacy_hmac_secret = some "secret";
}

accepted_authorization_example : IsAcceptable toy_host permit strict_options 1010
unfolding verify_authorization oxdeai_core.Crypto.verify_hmac_domain
    oxdeai_core.Crypto.sign_hmac_domain oxdeai_core.Crypto.signature_input
    oxdeai_core.Authorization.authorization_signing_payload oxdeai_core.Json.canonical_json
    oxdeai_core.Json.canonicalize oxdeai_core.Json.insert_field oxdeai_core.Json.json_stringify
    oxdeai_core.Json.normalize oxdeai_core.Json.quote oxdeai_core.Json.quote_from
    oxdeai_core.Json.sort_fields oxdeai_core.Prelude.show_from oxdeai_core.Prelude.show_ℕ
accepted_authorization_example = accepted_authorization toy_host permit strict_options 0 refl refl
