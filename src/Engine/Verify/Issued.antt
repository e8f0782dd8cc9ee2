-- ===== src/Engine/Verify/Issued.antt =====
-- The engine's own verification accepts what the engine has issued.
use oxdeai_core.Prelude.{
  ℕ, ◌+◌, String, ◌≡◌, refl, sym, ap, ◌∙◌, true, Option, none, some, List, [], ◌∷◌, eq_iff, eq_refl,
  arith, get_or, leb, if◌then◌else◌,
}
use oxdeai_core.Crypto.{Host, intent_hash, engine_sign_hmac, engine_verify_hmac, same_bytes}
use oxdeai_core.Json.{Json}
use oxdeai_core.Authorization.{Authorization}
use oxdeai_core.Intent.{Intent}
use oxdeai_core.State.{State}
use oxdeai_core.Policy.{PolicyResult, allow, deny, auth_expired}
use oxdeai_core.Engine.Options.{
  EngineOptions, PolicyEngine, Mode, fail_fast, collect_all, ttl_seconds,
}
use oxdeai_core.Engine.Apply.{Applied, apply_results, evaluate_modules, merge_delta}
use oxdeai_core.Merge.{aliased}
use oxdeai_core.Engine.Apply.Effects.{before}
use oxdeai_core.Engine.Evaluate.{
  allowing, evaluate_pure, unsigned_authorization, attach_signature, auth_payload,
}
use oxdeai_core.Engine.Snapshot.{compute_policy_id}
use oxdeai_core.Engine.Evaluate.Granted.{granted, applied}
use oxdeai_core.Engine.Verify.{valid, invalid, check_authorization, verify_authorization}

same_bytes_refl : (xs : List ℕ) → same_bytes xs xs ≡ true
unfolding same_bytes
same_bytes_refl [] = refl
same_bytes_refl (x ∷ xs) = ground (arith, same_bytes_refl xs)

-- The engine's signature of a payload is accepted for it.
pub engine_verify-sign :
    (host : Host) (payload : Json) (secret : String)
    → engine_verify_hmac host payload (engine_sign_hmac host payload secret) secret ≡ true
unfolding engine_verify_hmac
engine_verify-sign host payload secret =
    same_bytes_refl (host.from_hex (engine_sign_hmac host payload secret))

pub caller_version :
    (mode : Mode) (rs : List PolicyResult) (a : Applied)
    → (apply_results mode rs a).caller.policy_version ≡ a.caller.policy_version
unfolding apply_results aliased
caller_version mode [] a = refl
caller_version mode (allow none ∷ rs) a = caller_version mode rs a
caller_version mode (allow (some d) ∷ rs) a = caller_version mode rs (merge_delta (some d) a)
caller_version fail_fast (deny reasons ∷ rs) a = refl
caller_version collect_all (deny reasons ∷ rs) a = caller_version collect_all rs _

module _ (host : Host) (opts : EngineOptions) (intent : Intent) where
  unsigned_verifies :
      (given state : State) (state_hash policy_id signature : String) (t : ℕ)
      → state.policy_version ≡ given.policy_version
      → check_authorization host opts intent
          (attach_signature host
            (unsigned_authorization host opts intent given
              (intent_hash host intent)
              state_hash
              policy_id)
            signature)
          state
          t
        ≡ (if leb t (intent.timestamp + ttl_seconds opts) then valid else invalid auth_expired)
  unfolding check_authorization unsigned_authorization
  unsigned_verifies given state state_hash policy_id signature t same = ground (
    arith,
    eq_refl (intent_hash host intent),
    eq_refl "ALLOW",
    eq_iff state.policy_version given.policy_version,
    engine_verify-sign host
        (auth_payload (intent_hash host intent) given.policy_version state_hash
          (intent.timestamp + ttl_seconds opts))
        opts.engine_secret,
  )

-- An authorization that `evaluatePure` issues is accepted by `verifyAuthorization` of the same
-- engine, for the same intent and any state with the same policy version, at all times up to the
-- time of expiry and at that time itself, and is refused as expired at all later times.
pub issued_verifies :
    (host : Host) (intent : Intent) (state : State) (mode : Option Mode) (engine : PolicyEngine)
    (auth : Authorization) (next : State)
    → (evaluate_pure host intent state mode engine).output ≡ allowing auth next
    → (later : State) (t clock : ℕ) → later.policy_version ≡ state.policy_version
    → verify_authorization host engine.opts intent auth later (some t) clock
      ≡ (if leb t auth.expires_at then valid else invalid auth_expired)
unfolding verify_authorization unsigned_authorization
issued_verifies host intent state mode engine auth next h later t clock same =
    let g = granted host intent state engine auth next mode h in
    let given = (applied intent state (get_or mode fail_fast)).caller in
    let version : given.policy_version ≡ state.policy_version =
      caller_version (get_or mode fail_fast) (evaluate_modules intent state) (before state) in
    ap (λ (a : Authorization). check_authorization host engine.opts intent a later t) g.issued
    ∙ unsigned_verifies host engine.opts intent given later g.state_hash
        (compute_policy_id host engine.opts) g.signature t (same ∙ sym version)
    ∙ ap (λ (a : Authorization). if leb t a.expires_at then valid else invalid auth_expired)
        (sym g.issued)
