-- ===== src/Engine/Apply/Limits/Results.antt =====
-- Each module's change keeps the limits, so that the loop over all of them does.
use oxdeai_core.Prelude.{
  ℕ, ◌+◌, ◌-◌, ◌≤◌, String, ◌≡◌, refl, Option, none, some, map, All, arith, inl, inr,
}
use oxdeai_core.Intent.{Intent, IntentType, execute, release, intent_type}
use oxdeai_core.State.{State}
use oxdeai_core.Policy.{StateDelta, PolicyResult, allow}
use oxdeai_core.Modules.Sound.{budget_sound, concurrency_sound}
use oxdeai_core.Modules.Deltas.{
  slot_change, release_change, active_count, kill_switch_delta, allowlist_delta,
  recursion_depth_delta, budget_delta, velocity_delta, replay_delta, concurrency_delta,
  release_delta, tool_amplification_delta,
}
use oxdeai_core.Modules.KillSwitch.{kill_switch_module}
use oxdeai_core.Modules.Budget.{budget_module}
use oxdeai_core.Modules.Replay.{replay_module}
use oxdeai_core.Modules.Concurrency.{concurrency_module}
use oxdeai_core.Modules.ToolAmplification.{tool_amplification_module}
use oxdeai_core.Engine.Apply.Effects.{before}
use oxdeai_core.Engine.Options.{Mode}
use oxdeai_core.Engine.Apply.{apply_results, evaluate_modules, modules_for}
use oxdeai_core.Engine.Apply.Limits.{
  IsWithinSlots, IsWithinLimits, IsSafe, KeepsLimits, apply_results-KeepsLimits,
}

module _ (intent : Intent) (state : State) (j : String) (start : IsWithinLimits j state) where
  no_change : (d : Option StateDelta) → d ≡ none → IsSafe intent state j start d
  no_change none h = tt
  no_change (some d) h = absurd (cc h)

  other_change :
      (d : Option StateDelta) (c : StateDelta)
      → d ≡ some c
      → c.budget ≡ none
      → c.concurrency ≡ none
      → IsSafe intent state j start d
  other_change none c h b s = tt
  other_change (some d) c h b s = (inl (cc (h, b)), inl (cc (h, s)))

  kill_switch-IsSafe :
      (d : Option StateDelta)
      → kill_switch_module intent state ≡ allow d
      → IsSafe intent state j start d
  kill_switch-IsSafe d h = no_change d (kill_switch_delta intent state h)

  replay-IsSafe :
      (d : Option StateDelta) → replay_module intent state ≡ allow d → IsSafe intent state j start d
  replay-IsSafe d h = other_change d _ (replay_delta intent state h) refl refl

  tool-IsSafe :
      (d : Option StateDelta)
      → tool_amplification_module intent state ≡ allow d
      → IsSafe intent state j start d
  tool-IsSafe d h = elim (tool_amplification_delta intent state h) [
    | inl e ↦ no_change d e
    | inr (limits, e) ↦ other_change d _ e refl refl
  ]

  budget-IsSafe :
      (d : Option StateDelta) → budget_module intent state ≡ allow d → IsSafe intent state j start d
  budget-IsSafe none h = tt
  budget-IsSafe (some d) h =
      let e = budget_delta intent state h in (inr (cc e, budget_sound intent state h), inl (cc e))

  slots_below : (n m : ℕ) (max : Option ℕ) → n ≤ m → IsWithinSlots m max → IsWithinSlots n max
  slots_below n m none h k = tt
  slots_below n m (some max) h k = omega (arith, h, k)

  execute-IsSafe :
      (d : Option StateDelta)
      → concurrency_module intent state ≡ allow d
      → intent_type intent ≡ execute
      → IsSafe intent state j start d
  execute-IsSafe none h t = tt
  execute-IsSafe (some d) h t =
      let e = concurrency_delta intent state h t in
      let slot = concurrency_sound intent state h t in
      (
        inl (cc e),
        inr (
          active_count intent state + 1,
          slot_change intent state,
          cc e,
          refl,
          refl,
          rw slot.has_max (omega (arith, slot.free)),
        ),
      )

  release-IsSafe :
      IsWithinLimits intent.agent_id state
      → (d : Option StateDelta) → concurrency_module intent state ≡ allow d
      → intent_type intent ≡ release
      → IsSafe intent state j start d
  release-IsSafe own none h t = tt
  release-IsSafe own (some d) h t =
      let e = release_delta intent state h t in
      (
        inl (cc e),
        inr (
          active_count intent state - 1,
          release_change intent state,
          cc e,
          refl,
          refl,
          slots_below _ (active_count intent state) _ (omega arith) own.slots,
        ),
      )

  results-IsSafe :
      IsWithinLimits intent.agent_id state
      → (t : IntentType) → intent_type intent ≡ t
      → All
          (λ (r : PolicyResult).
            (d : Option StateDelta) → r ≡ allow d → IsSafe intent state j start d)
          (map (λ m. m.evaluate intent state) (modules_for t))
  results-IsSafe own release t =
      (kill_switch-IsSafe, (replay-IsSafe, (λ d h. release-IsSafe own d h t, tt)))
  results-IsSafe own execute t = (
    kill_switch-IsSafe,
    (
      λ d h. no_change d (allowlist_delta intent state h),
      (
        replay-IsSafe,
        (
          λ d h. no_change d (recursion_depth_delta intent state h),
          (
            λ d h. execute-IsSafe d h t,
            (
              tool-IsSafe,
              (
                budget-IsSafe,
                (λ d h. other_change d _ (velocity_delta intent state h) refl refl, tt),
              ),
            ),
          ),
        ),
      ),
    ),
  )

  start-KeepsLimits : KeepsLimits intent state j start (before state)
  start-KeepsLimits = ((refl, start.budget), (refl, start.slots))

  -- After the loop, in either mode and whatever the modules answer, each agent is within the
  -- limits of the state, if each was before.
  pub evaluated-KeepsLimits :
      (mode : Mode)
      → IsWithinLimits intent.agent_id state
      → KeepsLimits intent state j start
          (apply_results mode (evaluate_modules intent state) (before state))
  unfolding evaluate_modules
  evaluated-KeepsLimits mode own =
      apply_results-KeepsLimits intent state j start mode _ (before state)
        (results-IsSafe own (intent_type intent) refl) start-KeepsLimits
