-- ===== src/Modules/Budget.antt =====
-- packages/core/src/policy/modules/BudgetModule.ts. Amounts are bigints, negative ones included.
use oxdeai_core.Prelude.{ℤ, pos, ◌+ℤ◌, ltb_ℤ, Option, none, some, [], ◌∷◌, get_or, if◌then◌else◌}
use oxdeai_core.Dict.{get, put}
use oxdeai_core.Intent.{Intent}
use oxdeai_core.State.{State}
use oxdeai_core.Policy.{
  PolicyResult, allow, deny, no_delta, state_invalid, budget_exceeded, per_action_cap_exceeded,
}

-- The tests, once the limit and the cap are read.
abbrev pub check_budget : Intent → State → Option ℤ → Option ℤ → ℤ → PolicyResult
check_budget intent state none cap spent = deny (state_invalid ∷ [])
check_budget intent state (some limit) none spent = deny (state_invalid ∷ [])
check_budget intent state (some limit) (some cap) spent =
    if ltb_ℤ cap intent.amount
    then deny (per_action_cap_exceeded ∷ [])
    else if ltb_ℤ limit (spent +ℤ intent.amount)
    then deny (budget_exceeded ∷ [])
    else allow (
        some (record no_delta {
          budget = some (record state.budget {
            spent_in_period =
                put intent.agent_id (spent +ℤ intent.amount) state.budget.spent_in_period;
          });
        }))

unfoldable pub budget_module : Intent → State → PolicyResult
budget_module intent state =
    check_budget intent state (get intent.agent_id state.budget.budget_limit)
      (get intent.agent_id state.max_amount_per_action)
      (get_or (get intent.agent_id state.budget.spent_in_period) (pos 0))
