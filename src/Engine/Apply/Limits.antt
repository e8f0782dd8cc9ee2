-- ===== src/Engine/Apply/Limits.antt =====
-- The limits that the loop over the modules' results keeps, whether or not it ends in a denial.
pub mod Results
use oxdeai_core.Prelude.{
  ℕ, ◌+◌, ◌-◌, ◌≤◌, ℤ, pos, ◌+ℤ◌, ◌≤ℤ◌, String, ◌≡◌, refl, sym, ap, subst, ◌∙◌, Bool, true, false,
  ◌==◌, eq_iff, Option, none, some, List, [], ◌∷◌, map, All, get_or, arith, Option-cases,
  Bool-cases, inl, inr, ◌⊎◌, if◌then◌else◌,
}
use oxdeai_core.Dict.{Dict, get, put, assign}
use oxdeai_core.Dict.Laws.{merged, get-merge_assign, get-put}
use oxdeai_core.Intent.{Intent, IntentType, execute, release, intent_type}
use oxdeai_core.State.{State, BudgetState, ConcurrencyState}
use oxdeai_core.Policy.{ReasonCode, StateDelta, PolicyResult, allow, deny, no_delta}
use oxdeai_core.Merge.{deep_merge, merge_budget, merge_concurrency, merge_field}
use oxdeai_core.Merge.Laws.{merged_self}
use oxdeai_core.Modules.Spec.{spent, IsAffordable, HasSlot}
use oxdeai_core.Modules.Sound.{budget_sound, concurrency_sound}
use oxdeai_core.Modules.Deltas.{
  budget_change, slot_change, release_change, active_count, kill_switch_delta, allowlist_delta,
  recursion_depth_delta, budget_delta, velocity_delta, replay_delta, concurrency_delta,
  release_delta, tool_amplification_delta,
}
use oxdeai_core.Modules.KillSwitch.{kill_switch_module}
use oxdeai_core.Modules.Budget.{budget_module}
use oxdeai_core.Modules.Replay.{replay_module}
use oxdeai_core.Modules.Concurrency.{concurrency_module}
use oxdeai_core.Modules.ToolAmplification.{tool_amplification_module}
use oxdeai_core.Engine.Apply.Effects.{before}
use oxdeai_core.Engine.Options.{Mode, fail_fast, collect_all}
use oxdeai_core.Engine.Apply.{Applied, apply_results, evaluate_modules, merge_delta, modules_for}

-- At most a limit, where there is one.
abbrev pub IsWithinBudget : ℤ → Option ℤ → Type 0
IsWithinBudget s none = Unit
IsWithinBudget s (some limit) = s ≤ℤ limit

abbrev pub IsWithinSlots : ℕ → Option ℕ → Type 0
IsWithinSlots n none = Unit
IsWithinSlots n (some max) = n ≤ max

-- Agent `j` has spent no more than its budget, and occupies no more slots than it has.
pub record IsWithinLimits (j : String) (state : State) : Type 0 where
  pub budget : IsWithinBudget (spent j state) (get j state.budget.budget_limit)
  pub slots :
      IsWithinSlots
        (get_or (get j state.concurrency.active) 0)
        (get j state.concurrency.max_concurrent)

within_merged :
    (x y : Option ℤ) (limit : Option ℤ)
    → IsWithinBudget (get_or x (pos 0)) limit
    → IsWithinBudget (get_or y (pos 0)) limit
    → IsWithinBudget (get_or (merged assign x y) (pos 0)) limit
within_merged x none limit h k = h
within_merged none (some v) limit h k = k
within_merged (some u) (some v) limit h k = k

IsWithinSlots-merged :
    (x y : Option ℕ) (max : Option ℕ)
    → IsWithinSlots (get_or x 0) max
    → IsWithinSlots (get_or y 0) max
    → IsWithinSlots (get_or (merged assign x y) 0) max
IsWithinSlots-merged x none max h k = h
IsWithinSlots-merged none (some v) max h k = k
IsWithinSlots-merged (some u) (some v) max h k = k

module _ (intent : Intent) (state : State) (j : String) where
  module _ (start : IsWithinLimits j state) where
    -- What agent `j` has spent and occupies once the intent's agent has been charged.
    abbrev charge : Option ℤ
    charge =
        if intent.agent_id == j
        then some (spent intent.agent_id state +ℤ intent.amount)
        else get j state.budget.spent_in_period

    abbrev slots_of : ℕ → Option ℕ
    slots_of n = if intent.agent_id == j then some n else get j state.concurrency.active

    charged :
        IsAffordable intent state
        → IsWithinBudget (get_or charge (pos 0)) (get j state.budget.budget_limit)
    charged p = elim (Bool-cases (intent.agent_id == j)) [
      | inl e ↦ rw (e, sym ((eq_iff intent.agent_id j).0 e), p.has_limit) p.within_limit
      | inr e ↦ rw e start.budget
    ]

    occupied :
        (n : ℕ)
        → IsWithinSlots n (get intent.agent_id state.concurrency.max_concurrent)
        → IsWithinSlots (get_or (slots_of n) 0) (get j state.concurrency.max_concurrent)
    occupied n h = elim (Bool-cases (intent.agent_id == j)) [
      | inl e ↦ rw (e, sym ((eq_iff intent.agent_id j).0 e)) h
      | inr e ↦ rw e start.slots
    ]

    abbrev KeepsBudget : BudgetState → Type 0
    KeepsBudget b =
        (get j b.budget_limit ≡ get j state.budget.budget_limit)
        × IsWithinBudget (get_or (get j b.spent_in_period) (pos 0))
            (get j state.budget.budget_limit)

    abbrev KeepsSlots : ConcurrencyState → Type 0
    KeepsSlots c =
        (get j c.max_concurrent ≡ get j state.concurrency.max_concurrent)
        × IsWithinSlots (get_or (get j c.active) 0) (get j state.concurrency.max_concurrent)

    abbrev IsSafeBudget : Option BudgetState → Type 0
    IsSafeBudget o =
        (o ≡ none) ⊎ ((o ≡ some (budget_change intent state)) × IsAffordable intent state)

    abbrev IsSafeSlots : Option ConcurrencyState → Type 0
    IsSafeSlots o =
        (o ≡ none)
        ⊎ ((n : ℕ) × (c : ConcurrencyState) × (o ≡ some c)
            × (c.max_concurrent ≡ state.concurrency.max_concurrent)
            × (c.active ≡ put intent.agent_id n state.concurrency.active)
            × IsWithinSlots n (get intent.agent_id state.concurrency.max_concurrent))

    budget_kept :
        (b : BudgetState) (o : Option BudgetState)
        → IsSafeBudget o
        → KeepsBudget b
        → KeepsBudget (merge_field merge_budget b o)
    budget_kept b o (inl e) h = rw e h
    budget_kept b o (inr (e, p)) (limit, within) = rw e (
      get-merge_assign j b.budget_limit state.budget.budget_limit
          ∙ (ap (λ x. merged assign x (get j state.budget.budget_limit)) limit
              ∙ merged_self assign (λ v. refl) _),
      subst (λ x. IsWithinBudget (get_or x (pos 0)) (get j state.budget.budget_limit))
          (sym (
            get-merge_assign j b.spent_in_period _
            ∙ ap (merged assign (get j b.spent_in_period)) (get-put intent.agent_id j _ _)))
          (within_merged (get j b.spent_in_period) charge _ within (charged p)),
    )

    slots_kept :
        (b : ConcurrencyState) (o : Option ConcurrencyState)
        → IsSafeSlots o
        → KeepsSlots b
        → KeepsSlots (merge_field merge_concurrency b o)
    slots_kept b o (inl e) h = rw e h
    slots_kept b o (inr (n, c, e, same, put_n, p)) (limit, within) = rw e (
      get-merge_assign j b.max_concurrent c.max_concurrent
          ∙ (ap (λ (d : Dict ℕ). merged assign (get j b.max_concurrent) (get j d)) same
              ∙ (ap (λ x. merged assign x (get j state.concurrency.max_concurrent)) limit
                  ∙ merged_self assign (λ v. refl) _)),
      subst (λ x. IsWithinSlots (get_or x 0) (get j state.concurrency.max_concurrent))
          (sym (
            get-merge_assign j b.active c.active
            ∙ ap (merged assign (get j b.active))
                (ap (get j) put_n ∙ get-put intent.agent_id j n state.concurrency.active)))
          (IsWithinSlots-merged (get j b.active) (slots_of n) _ within (occupied n p)),
    )

    -- What the loop may merge, or leave.
    abbrev pub IsSafe : Option StateDelta → Type 0
    IsSafe none = Unit
    IsSafe (some d) = IsSafeBudget d.budget × IsSafeSlots d.concurrency

    -- The working state is within the limits of the state.
    abbrev pub KeepsLimits : Applied → Type 0
    KeepsLimits a = KeepsBudget a.working.budget × KeepsSlots a.working.concurrency

    merge_delta-KeepsLimits :
        (d : Option StateDelta) (a : Applied)
        → IsSafe d
        → KeepsLimits a
        → KeepsLimits (merge_delta d a)
    unfolding deep_merge
    merge_delta-KeepsLimits none a p h = h
    merge_delta-KeepsLimits (some d) a (p, q) (h, k) = (budget_kept _ _ p h, slots_kept _ _ q k)

    pub apply_results-KeepsLimits :
        (mode : Mode) (rs : List PolicyResult) (a : Applied)
        → All (λ (r : PolicyResult). (d : Option StateDelta) → r ≡ allow d → IsSafe d) rs
        → KeepsLimits a
        → KeepsLimits (apply_results mode rs a)
    unfolding apply_results
    apply_results-KeepsLimits mode [] a p h = h
    apply_results-KeepsLimits mode (allow d ∷ rs) a (p, ps) h =
        apply_results-KeepsLimits mode rs (merge_delta d a) ps
          (merge_delta-KeepsLimits d a (p d refl) h)
    apply_results-KeepsLimits fail_fast (deny reasons ∷ rs) a p h = h
    apply_results-KeepsLimits collect_all (deny reasons ∷ rs) a (p, ps) h =
        apply_results-KeepsLimits collect_all rs _ ps h
