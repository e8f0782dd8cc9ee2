-- ===== src/Crypto.antt =====
-- Hashing, signing and key lookup, packages/core/src/crypto. What node:crypto and Buffer do is the
-- parameter `Host`: texts stand for their UTF-8 bytes, digests for their hexadecimal text, and
-- `none` is an exception.
use text.Mathlib.Text.{find?}
use Prim.Native.String
use oxdeai_core.Prelude.{
  ℕ, String, Bool, true, false, Option, none, some, List, [], ◌∷◌, ◌==◌, ◌&&◌, nat_eq, is_some,
  if◌then◌else◌, get_or,
}
use oxdeai_core.Intent.{Intent, action_name, type_name, IntentType}
use oxdeai_core.Json.{Json, bool, num, bigint, str, obj, Fields, end, field, canonical_json}

pub record Host : Type 0 where
  pub sha256 : String → String
  -- secret, message
  pub hmac_sha256 : String → String → String
  -- Buffer.from(text, "hex")
  pub from_hex : String → List ℕ
  -- Buffer.from(text, "base64").toString("utf8")
  pub from_base64 : String → String
  -- private key, message; the signature in base64
  pub ed25519_sign : String → String → Option String
  -- public key, message, signature in base64
  pub ed25519_verify : String → String → String → Option Bool

infixr 65 ◌+++◌
abbrev pub ◌+++◌ : String → String → String
s +++ t = String.◌++◌ s t

-- A field of an object literal whose value may be undefined.
abbrev pub opt_field {ℓ} : {A : Type ℓ} → String → (A → Json) → Option A → Fields → Fields
opt_field k f none fs = fs
opt_field k f (some a) fs = field k (f a) fs

-- The object `binding` of `intentHash`: the intent's binding fields that are not undefined.
unfoldable pub intent_binding : Intent → Json
intent_binding i = obj (
    field "intent_id" (str i.intent_id) (
      field "agent_id" (str i.agent_id) (
        field "action_type" (str (action_name i.action_type)) (
          opt_field "depth" num i.depth (
            field "amount" (bigint i.amount) (
              opt_field "asset" str i.asset (
                field "target" (str i.target) (
                  field "timestamp" (num i.timestamp) (
                    field "metadata_hash" (str i.metadata_hash) (
                      field "nonce" (bigint i.nonce) (
                        opt_field "type" (λ (t : IntentType). str (type_name t)) i.type
                          (opt_field "authorization_id" str i.authorization_id (
                            opt_field "tool" str i.tool
                              (opt_field "tool_call" bool i.tool_call end))))))))))))))

pub data SigningDomain : Type 0 where
  auth_v1 envelope_v1 checkpoint_v1 : SigningDomain

abbrev pub domain_name : SigningDomain → String
domain_name auth_v1 = "OXDEAI_AUTH_V1"
domain_name envelope_v1 = "OXDEAI_ENVELOPE_V1"
domain_name checkpoint_v1 = "OXDEAI_CHECKPOINT_V1"

unfoldable pub signature_input : SigningDomain → Json → String
signature_input domain payload = domain_name domain +++ "\n" +++ canonical_json payload

-- `Buffer.compare` of equal lengths, byte by byte.
unfoldable pub same_bytes : List ℕ → List ℕ → Bool
same_bytes [] [] = true
same_bytes [] (_ ∷ _) = false
same_bytes (_ ∷ _) [] = false
same_bytes (a ∷ xs) (b ∷ ys) = nat_eq a b && same_bytes xs ys

module _ (host : Host) where
  unfoldable pub sha256_from_json : Json → String
  sha256_from_json v = host.sha256 (canonical_json v)

  unfoldable pub intent_hash : Intent → String
  unfolding sha256_from_json intent_binding
  intent_hash intent = sha256_from_json (intent_binding intent)

  unfoldable pub engine_sign_hmac : Json → String → String
  engine_sign_hmac payload secret = host.hmac_sha256 secret (canonical_json payload)

  unfoldable pub engine_verify_hmac : Json → String → String → Bool
  unfolding engine_sign_hmac same_bytes
  engine_verify_hmac payload signature secret =
      same_bytes (host.from_hex (engine_sign_hmac payload secret)) (host.from_hex signature)

  unfoldable pub normalize_pem : String → String
  normalize_pem key = if is_some (find? key "BEGIN") then key else host.from_base64 key

  unfoldable pub sign_ed25519 : SigningDomain → Json → String → Option String
  unfolding normalize_pem signature_input
  sign_ed25519 domain payload private_key =
      host.ed25519_sign (normalize_pem private_key) (signature_input domain payload)

  -- An exception is a failed verification.
  unfoldable pub verify_ed25519 : SigningDomain → Json → String → String → Bool
  unfolding normalize_pem signature_input
  verify_ed25519 domain payload signature public_key =
      get_or
        (host.ed25519_verify (normalize_pem public_key) (signature_input domain payload) signature)
        false

  unfoldable pub sign_hmac_domain : SigningDomain → Json → String → String
  unfolding signature_input
  sign_hmac_domain domain payload secret = host.hmac_sha256 secret (signature_input domain payload)

  unfoldable pub verify_hmac_domain : SigningDomain → Json → String → String → Bool
  unfolding sign_hmac_domain
  verify_hmac_domain domain payload signature secret =
      sign_hmac_domain domain payload secret == signature
