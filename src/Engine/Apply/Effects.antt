-- ===== src/Engine/Apply/Effects.antt =====
-- The working state when all modules have allowed: each part is merged with its module's change,
-- and the rest is as it was.
use oxdeai_core.Prelude.{
  ◌≡◌, refl, ap, true, false, Option, none, some, List, [], ◌∷◌, All, inl, inr, ◌⊎◌, map,
}
use oxdeai_core.Intent.{Intent, IntentType, execute, release, intent_type}
use oxdeai_core.State.{State, ToolLimitsState}
use oxdeai_core.Policy.{StateDelta, PolicyResult, allow, deny, no_delta}
use oxdeai_core.Modules.KillSwitch.{is_true}
use oxdeai_core.Merge.{
  deep_merge, merge_budget, merge_velocity, merge_replay, merge_concurrency, merge_tool_limits,
}
use oxdeai_core.Modules.Deltas.{
  budget_change, velocity_change, replay_change, slot_change, release_change, kill_switch_delta,
  allowlist_delta, recursion_depth_delta, budget_delta, velocity_delta, replay_delta,
  concurrency_delta, release_delta, tool_amplification_change, IsToolChange, tool_change,
}
use oxdeai_core.Engine.Options.{Mode}
use oxdeai_core.Engine.Apply.{Applied, apply_results, evaluate_modules, merge_delta, modules_for}
use oxdeai_core.Engine.Apply.Outcomes.{IsAllow, modules-IsAllow}

-- The state before the loop, held by the caller and by the loop.
abbrev pub before : State → Applied
before state = record { caller = state; working = state; deny_reasons = [] }

-- The parts that no module changes.
pub record SameFixed (old new : State) : Type 0 where
  pub policy_version : new.policy_version ≡ old.policy_version
  pub period_id : new.period_id ≡ old.period_id
  pub kill_switch : new.kill_switch ≡ old.kill_switch
  pub allowlists : new.allowlists ≡ old.allowlists
  pub max_amount_per_action : new.max_amount_per_action ≡ old.max_amount_per_action
  pub recursion : new.recursion ≡ old.recursion

-- A list of changes, merged one after the other.
unfoldable pub merge_all : List (Option StateDelta) → Applied → Applied
merge_all [] a = a
merge_all (d ∷ ds) a = merge_all ds (merge_delta d a)

-- The changes of an EXECUTE intent; `tool` is that of the tool module.
abbrev pub execute_deltas : Intent → State → Option StateDelta → List (Option StateDelta)
execute_deltas intent state tool =
    none
    ∷ none
    ∷ some (record no_delta { replay = some (replay_change intent state) })
    ∷ none
    ∷ some (record no_delta { concurrency = some (slot_change intent state) })
    ∷ tool
    ∷ some (record no_delta { budget = some (budget_change intent state) })
    ∷ some (record no_delta { velocity = some (velocity_change intent state) })
    ∷ []

abbrev pub release_deltas : Intent → State → List (Option StateDelta)
release_deltas intent state =
    none
    ∷ some (record no_delta { replay = some (replay_change intent state) })
    ∷ some (record no_delta { concurrency = some (release_change intent state) })
    ∷ []

apply_results-allow :
    (mode : Mode) (ds : List (Option StateDelta)) (rs : List PolicyResult) (a : Applied)
    → rs ≡ map allow ds
    → apply_results mode rs a ≡ merge_all ds a
unfolding apply_results merge_all
apply_results-allow mode [] [] a h = refl
apply_results-allow mode [] (r ∷ rs) a h = cc
apply_results-allow mode (d ∷ ds) [] a h = cc
apply_results-allow mode (d ∷ ds) (allow d' ∷ rs) a h =
    let same : d' ≡ d = cc in
    let rest : rs ≡ map allow ds = cc in
    rw same (apply_results-allow mode ds rs (merge_delta d a) rest)
apply_results-allow mode (d ∷ ds) (deny reasons ∷ rs) a h = cc

-- Where the tool limits are changed alone, or nothing.
abbrev pub IsToolDelta : Option StateDelta → Type 0
IsToolDelta d =
    (d ≡ none)
    ⊎ ((limits : ToolLimitsState) × (d ≡ some (record no_delta { tool_limits = some limits })))

execute_results :
    (intent : Intent) (state : State) (t : IntentType)
    → t ≡ execute
    → intent_type intent ≡ execute
    → All IsAllow (map (λ m. m.evaluate intent state) (modules_for t))
    → (tool : Option StateDelta) × IsToolChange intent state tool
      × (map (λ m. m.evaluate intent state) (modules_for t)
          ≡ map allow (execute_deltas intent state tool))
execute_results intent state release e t h = absurd (cc e)
execute_results intent state execute e t
      ((kd, k), ((ld, l), ((fd, f), ((dd, d), ((cd, c), ((td, tool), ((bd, b), ((vd, v), _)))))))) =
    (
      td,
      tool_amplification_change intent state tool t,
      cc (
        k,
        l,
        f,
        d,
        c,
        tool,
        b,
        v,
        kill_switch_delta intent state k,
        allowlist_delta intent state l,
        replay_delta intent state f,
        recursion_depth_delta intent state d,
        concurrency_delta intent state c t,
        budget_delta intent state b,
        velocity_delta intent state v,
      ),
    )

release_results :
    (intent : Intent) (state : State) (t : IntentType)
    → t ≡ release
    → intent_type intent ≡ release
    → All IsAllow (map (λ m. m.evaluate intent state) (modules_for t))
    → map (λ m. m.evaluate intent state) (modules_for t) ≡ map allow (release_deltas intent state)
release_results intent state execute e t h = absurd (cc e)
release_results intent state release e t ((kd, k), ((fd, f), ((cd, c), _))) = cc (
  k,
  f,
  c,
  kill_switch_delta intent state k,
  replay_delta intent state f,
  release_delta intent state c t,
)

-- The tool limits that a tool call leaves, or any other action.
abbrev pub IsToolMerge : Intent → State → State → Type 0
IsToolMerge intent state work =
    ((is_true intent.tool_call ≡ false) × (work.tool_limits ≡ state.tool_limits))
    ⊎ ((is_true intent.tool_call ≡ true)
        × (limits : ToolLimitsState) × (state.tool_limits ≡ some limits)
        × (work.tool_limits ≡ some (merge_tool_limits limits (tool_change intent state limits))))

-- What the loop leaves in the working state for an EXECUTE intent.
pub record ExecuteEffects (intent : Intent) (state work : State) : Type 0 where
  pub budget : work.budget ≡ merge_budget state.budget (budget_change intent state)
  pub velocity : work.velocity ≡ merge_velocity state.velocity (velocity_change intent state)
  pub replay : work.replay ≡ merge_replay state.replay (replay_change intent state)
  pub concurrency :
      work.concurrency ≡ merge_concurrency state.concurrency (slot_change intent state)
  pub tools : IsToolMerge intent state work
  pub fixed : SameFixed state work

merge_all-execute :
    (intent : Intent) (state : State) (tool : Option StateDelta)
    → IsToolChange intent state tool
    → ExecuteEffects intent state
        (merge_all (execute_deltas intent state tool) (before state)).working
unfolding merge_all deep_merge
merge_all-execute intent state tool (inl (call, e)) = rw e (record {
  budget = refl;
  velocity = refl;
  replay = refl;
  concurrency = refl;
  tools = inl (call, refl);
  fixed = record {
    policy_version = refl;
    period_id = refl;
    kill_switch = refl;
    allowlists = refl;
    max_amount_per_action = refl;
    recursion = refl;
  };
})
merge_all-execute intent state tool (inr (call, limits, f, e)) = rw e (record {
  budget = refl;
  velocity = refl;
  replay = refl;
  concurrency = refl;
  tools = inr (call, limits, f, rw f refl);
  fixed = record {
    policy_version = refl;
    period_id = refl;
    kill_switch = refl;
    allowlists = refl;
    max_amount_per_action = refl;
    recursion = refl;
  };
})

pub execute_effects :
    (intent : Intent) (state : State) (mode : Mode)
    → intent_type intent ≡ execute
    → (apply_results mode (evaluate_modules intent state) (before state)).deny_reasons ≡ []
    → ExecuteEffects intent state
        (apply_results mode (evaluate_modules intent state) (before state)).working
unfolding evaluate_modules
execute_effects intent state mode t h =
    let (tool, only, results) =
      execute_results intent state (intent_type intent) t t
        (modules-IsAllow intent state mode (before state) h) in
    rw (apply_results-allow mode (execute_deltas intent state tool) _ (before state) results)
      (merge_all-execute intent state tool only)

pub release_effects :
    (intent : Intent) (state : State) (mode : Mode)
    → intent_type intent ≡ release
    → (apply_results mode (evaluate_modules intent state) (before state)).deny_reasons ≡ []
    → (apply_results mode (evaluate_modules intent state) (before state)).working ≡ record state {
      replay = merge_replay state.replay (replay_change intent state);
      concurrency = merge_concurrency state.concurrency (release_change intent state);
    }
unfolding evaluate_modules merge_all deep_merge
release_effects intent state mode t h =
    ap (λ (a : Applied). a.working)
      (apply_results-allow mode (release_deltas intent state) _ (before state) (
        release_results intent state (intent_type intent) t t
          (modules-IsAllow intent state mode (before state) h)))
