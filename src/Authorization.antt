-- ===== src/Authorization.antt =====
-- Authorizations, packages/core/src/types/authorization.ts, and the payload that their signature
-- covers, `authorizationSigningPayload` of packages/core/src/verification/verifyAuthorization.ts.
use oxdeai_core.Prelude.{ℕ, String, Option, none, some}
use oxdeai_core.Json.{Json, undefined, null, num, str, obj, Fields, end, field}

-- `AuthorizationV1` as a verifier receives it: the texts are any texts, and `none` for a time is a
-- value that is no integer.
pub record AuthorizationV1 : Type 0 where
  pub auth_id : String
  pub issuer : String
  pub audience : String
  pub intent_hash : String
  pub state_hash : String
  pub policy_id : String
  pub decision : String
  pub issued_at : Option ℕ
  pub expiry : Option ℕ
  pub alg : String
  pub kid : String
  pub signature : String
  pub nonce : Option String
  pub capability : Option String

-- The legacy fields that the engine's authorizations carry besides.
pub record Authorization : Type 0 where
  pub v1 : AuthorizationV1
  pub open v1 use *
  pub authorization_id : String
  pub policy_version : String
  pub state_snapshot_hash : String
  pub expires_at : ℕ
  pub engine_signature : String

abbrev pub text_or_undefined : Option String → Json
text_or_undefined none = undefined
text_or_undefined (some s) = str s

abbrev pub time_json : Option ℕ → Json
time_json none = null
time_json (some t) = num t

-- The fields of the payload, in front of `rest`.
abbrev pub signing_fields : AuthorizationV1 → Fields → Fields
signing_fields auth rest = field "auth_id" (str auth.auth_id) (
    field "issuer" (str auth.issuer) (
      field "audience" (str auth.audience) (
        field "intent_hash" (str auth.intent_hash) (
          field "state_hash" (str auth.state_hash) (
            field "policy_id" (str auth.policy_id) (
              field "decision" (str auth.decision) (
                field "issued_at" (time_json auth.issued_at) (
                  field "expiry" (time_json auth.expiry) (
                    field "alg" (str auth.alg) (
                      field "kid" (str auth.kid) (
                        field "nonce" (text_or_undefined auth.nonce)
                          (field "capability" (text_or_undefined auth.capability) rest))))))))))))

unfoldable pub authorization_signing_payload : AuthorizationV1 → Json
authorization_signing_payload auth = obj (signing_fields auth end)
