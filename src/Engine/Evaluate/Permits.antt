-- ===== src/Engine/Evaluate/Permits.antt =====
-- What an allowed intent satisfies: no kill switch, the allow lists, the budget, the rates, the
-- limits and the freshness of its nonce, in the state that the caller gave.
use oxdeai_core.Prelude.{◌≡◌, Option, map, All}
use oxdeai_core.Crypto.{Host}
use oxdeai_core.Authorization.{Authorization}
use oxdeai_core.Intent.{Intent, IntentType, execute, release, intent_type}
use oxdeai_core.State.{State}
use oxdeai_core.Modules.Spec.{
  IsAlive, IsListed, IsAffordable, IsPaced, IsFresh, HasSlot, IsShallow, HasCallRoom,
}
use oxdeai_core.Modules.Sound.{
  kill_switch_sound, allowlist_sound, replay_sound, recursion_depth_sound, concurrency_sound,
  tool_amplification_sound, budget_sound, velocity_sound,
}
use oxdeai_core.Engine.Options.{PolicyEngine, Mode}
use oxdeai_core.Engine.Apply.{evaluate_modules, modules_for}
use oxdeai_core.Engine.Apply.Outcomes.{IsAllow, modules-IsAllow}
use oxdeai_core.Engine.Apply.Effects.{before}
use oxdeai_core.Engine.Evaluate.{allowing, evaluate_pure}
use oxdeai_core.Engine.Evaluate.Granted.{granted}

-- All that the policy asks of an EXECUTE intent in a state.
pub record IsPermitted (intent : Intent) (state : State) : Type 0 where
  pub alive : IsAlive intent state
  pub listed : IsListed intent state
  pub fresh : IsFresh intent state
  pub shallow : IsShallow intent state
  pub slot : HasSlot intent state
  pub call_room : HasCallRoom intent state
  pub affordable : IsAffordable intent state
  pub paced : IsPaced intent state

results_permit :
    (intent : Intent) (state : State) (t : IntentType)
    → t ≡ execute
    → intent_type intent ≡ execute
    → All IsAllow (map (λ m. m.evaluate intent state) (modules_for t))
    → IsPermitted intent state
results_permit intent state release e t h = absurd (cc e)
results_permit intent state execute e t
      ((_, k), ((_, l), ((_, f), ((_, d), ((_, c), ((_, tool), ((_, b), ((_, v), _)))))))) =
    record {
      alive = kill_switch_sound intent state k;
      listed = allowlist_sound intent state l;
      fresh = replay_sound intent state f;
      shallow = recursion_depth_sound intent state d;
      slot = concurrency_sound intent state c t;
      call_room = tool_amplification_sound intent state tool t;
      affordable = budget_sound intent state b;
      paced = velocity_sound intent state v;
    }

-- Fail closed: an EXECUTE intent is allowed, in either mode, only if the state has the engine's
-- policy version and no kill switch, allow list, nonce, depth, slot, limit on all calls or on the
-- calls of its tool, budget, cap or rate stands against it.
pub allow_implies-IsPermitted :
    (host : Host) (intent : Intent) (state : State) (mode : Option Mode) (engine : PolicyEngine)
    (auth : Authorization) (next : State)
    → intent_type intent ≡ execute
    → (evaluate_pure host intent state mode engine).output ≡ allowing auth next
    → (state.policy_version ≡ engine.opts.policy_version) × IsPermitted intent state
unfolding evaluate_modules
allow_implies-IsPermitted host intent state mode engine auth next t h =
    let g = granted host intent state engine auth next mode h in
    (
      g.version,
      results_permit intent state (intent_type intent) t t
          (modules-IsAllow intent state _ (before state) g.no_reason),
    )
