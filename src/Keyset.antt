-- ===== src/Keyset.antt =====
-- Key sets, packages/core/src/types/keyset.ts, and the lookup of a key by issuer, id and algorithm
-- in packages/core/src/crypto/signatures.ts.
use oxdeai_core.Prelude.{
  ℕ, String, Bool, true, false, Option, none, some, List, [], ◌∷◌, ◌==◌, ◌&&◌, ◌||◌, not, ltb,
  if◌then◌else◌,
}

pub data SignatureAlgorithm : Type 0 where
  ed25519 hmac_sha256 : SignatureAlgorithm

abbrev pub alg_name : SignatureAlgorithm → String
alg_name ed25519 = "Ed25519"
alg_name hmac_sha256 = "HMAC-SHA256"

pub data KeyStatus : Type 0 where
  active retired revoked : KeyStatus

pub record KeySetKey : Type 0 where
  pub kid : String
  pub alg : SignatureAlgorithm
  pub public_key : String
  pub status : Option KeyStatus
  pub not_before : Option ℕ
  pub not_after : Option ℕ

pub record KeySet : Type 0 where
  pub issuer : String
  pub version : String
  pub keys : List KeySetKey

-- `xs.find(p)`
abbrev pub find {ℓ} : {A : Type ℓ} → (A → Bool) → List A → Option A
find p [] = none
find p (x ∷ xs) = let rest = find p xs in if p x then some x else rest

abbrev find_in : Option KeySet → String → SignatureAlgorithm → Option KeySetKey
find_in none kid alg = none
find_in (some ks) kid alg = find (λ k. (k.kid == kid) && (alg_name k.alg == alg_name alg)) ks.keys

unfoldable pub find_key_in_key_sets :
    List KeySet → String → String → SignatureAlgorithm → Option KeySetKey
find_key_in_key_sets keysets issuer kid alg =
    find_in (find (λ ks. ks.issuer == issuer) keysets) kid alg

abbrev is_revoked : Option KeyStatus → Bool
is_revoked (some revoked) = true
is_revoked _ = false

-- `bound !== undefined && now < bound`
abbrev before : ℕ → Option ℕ → Bool
before now none = false
before now (some t) = ltb now t

abbrev after : ℕ → Option ℕ → Bool
after now none = false
after now (some t) = ltb t now

unfoldable pub key_is_active_at : KeySetKey → ℕ → Bool
key_is_active_at key now =
    not (is_revoked key.status || before now key.not_before || after now key.not_after)
