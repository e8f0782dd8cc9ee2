-- ===== src/Engine/Verify.antt =====
-- `PolicyEngine.verifyAuthorization`.
pub mod Issued
use oxdeai_core.Prelude.{
  ℕ, String, Bool, false, not, Option, none, some, ◌==◌, ltb, get_or, if◌then◌else◌,
}
use oxdeai_core.Crypto.{Host, intent_hash, engine_verify_hmac}
use oxdeai_core.Authorization.{Authorization}
use oxdeai_core.Intent.{Intent}
use oxdeai_core.State.{State}
use oxdeai_core.Policy.{
  ReasonCode, auth_intent_mismatch, auth_expired, auth_signature_invalid, policy_version_mismatch,
  internal_error,
}
use oxdeai_core.Engine.Options.{EngineOptions}
use oxdeai_core.Engine.Evaluate.{auth_payload}

pub data Validity : Type 0 where
  valid : Validity
  invalid : ReasonCode → Validity

-- The given time, or the clock's; in strict mode there is no clock, and an error is thrown.
abbrev pub time_of : EngineOptions → Option ℕ → ℕ → Option ℕ
time_of opts (some t) clock = some t
time_of opts none clock = if get_or opts.strict_determinism false then none else some clock

module _ (host : Host) where
  abbrev verify_signature : EngineOptions → Authorization → Bool
  verify_signature opts auth =
      engine_verify_hmac host
        (auth_payload auth.intent_hash auth.policy_version auth.state_snapshot_hash auth.expires_at)
        auth.engine_signature opts.engine_secret

  unfoldable pub check_authorization : EngineOptions → Intent → Authorization → State → ℕ → Validity
  check_authorization opts intent auth state t =
      if not (intent_hash host intent == auth.intent_hash)
      then invalid auth_intent_mismatch
      else if ltb (get_or auth.expiry auth.expires_at) t
      then invalid auth_expired
      else if not (auth.decision == "ALLOW")
      then invalid auth_signature_invalid
      else if not (state.policy_version == auth.policy_version)
      then invalid policy_version_mismatch
      else if not (verify_signature opts auth)
      then invalid auth_signature_invalid
      else valid

  unfoldable pub verify_authorization :
      EngineOptions → Intent → Authorization → State → Option ℕ → ℕ → Validity
  unfolding check_authorization
  verify_authorization opts intent auth state now clock = elim (time_of opts now clock) [
    | none ↦ invalid internal_error
    | some t ↦ check_authorization opts intent auth state t
  ]
