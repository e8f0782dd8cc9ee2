-- ===== src/Engine/Evaluate/Modes.antt =====
-- The two modes of `evaluatePure` differ on denied intents alone.
use oxdeai_core.Prelude.{
  ◌≡◌, refl, ap, not, ◌==◌, Option, List, [], ◌∷◌, All, get_or, if◌then◌else◌,
}
use oxdeai_core.Crypto.{Host, intent_hash}
use oxdeai_core.Authorization.{Authorization}
use oxdeai_core.Intent.{Intent}
use oxdeai_core.State.{State}
use oxdeai_core.Policy.{PolicyResult, allow, deny, state_invalid, policy_version_mismatch}
use oxdeai_core.Audit.{intent_received}
use oxdeai_core.Engine.Options.{PolicyEngine, Mode, fail_fast}
use oxdeai_core.Engine.Validate.{validate_intent, validate_state_for_intent}
use oxdeai_core.Engine.Apply.{Applied, apply_results, evaluate_modules, merge_delta}
use oxdeai_core.Engine.Apply.Outcomes.{IsAllow, modules-IsAllow}
use oxdeai_core.Engine.Apply.Effects.{before}
use oxdeai_core.Engine.Emit.{event, emit_audit}
use oxdeai_core.Engine.Snapshot.{compute_policy_id}
use oxdeai_core.Engine.Evaluate.{Outcome, allowing, stop, decide, evaluate_checked, evaluate_pure}
use oxdeai_core.Engine.Evaluate.Granted.{granted}

-- With no denial the loop runs through in either mode.
same_loop :
    (m n : Mode) (rs : List PolicyResult) (a : Applied)
    → All IsAllow rs
    → apply_results m rs a ≡ apply_results n rs a
unfolding apply_results
same_loop m n [] a h = refl
same_loop m n (allow d ∷ rs) a (_, h) = same_loop m n rs (merge_delta d a) h
same_loop m n (deny reasons ∷ rs) a ((d, e), h) = absurd (cc e)

module _ (host : Host) (intent : Intent) (state : State) (engine : PolicyEngine) where
  same_checked :
      (m n : Mode)
      → All IsAllow (evaluate_modules intent state)
      → evaluate_checked host intent state m engine ≡ evaluate_checked host intent state n engine
  unfolding evaluate_checked
  same_checked m n h =
      ap
        (λ (a : Applied).
          decide host intent (intent_hash host intent) (compute_policy_id host engine.opts) a
            a.deny_reasons
            (emit_audit host
              (event (intent_received (intent_hash host intent) intent.agent_id) intent.timestamp
                (compute_policy_id host engine.opts))
              engine))
        (same_loop m n (evaluate_modules intent state) (before state) h)

  -- An intent that is allowed in one mode has the same outcome in the other: the output, what is
  -- written into the caller's state, and the engine with its log.
  pub allowed_in_each_mode :
      (mode other : Option Mode) (auth : Authorization) (next : State)
      → (evaluate_pure host intent state mode engine).output ≡ allowing auth next
      → evaluate_pure host intent state mode engine ≡ evaluate_pure host intent state other engine
  unfolding evaluate_pure
  allowed_in_each_mode mode other auth next h =
      let g = granted host intent state engine auth next mode h in
      ap
        (λ (c : Outcome).
          if not (validate_intent intent)
          then stop state_invalid state engine
          else if not (validate_state_for_intent state intent)
          then stop state_invalid state engine
          else if not (state.policy_version == engine.opts.policy_version)
          then stop policy_version_mismatch state engine
          else c)
        (same_checked (get_or mode fail_fast) (get_or other fail_fast)
          (modules-IsAllow intent state (get_or mode fail_fast) (before state) g.no_reason))
