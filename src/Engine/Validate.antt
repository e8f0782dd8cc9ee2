-- ===== src/Engine/Validate.antt =====
-- `validateIntent` and `validateStateForIntent`. The checks on the shape of an unknown value hold by
-- the type of states; left are the limits that may be missing and what the intent's agent needs.
use oxdeai_core.Prelude.{Bool, false, not, Option, none, some, ◌&&◌, is_some, is_truthy}
use oxdeai_core.Dict.{get}
use oxdeai_core.Intent.{Intent, intent_type, is_release}
use oxdeai_core.State.{State, ToolLimitsState}

-- An intent of type RELEASE names an authorization.
unfoldable pub validate_intent : Intent → Bool
validate_intent intent =
    not (is_release (intent_type intent) && not (is_truthy intent.authorization_id))

abbrev pub has_max_calls : Intent → Option ToolLimitsState → Bool
has_max_calls intent none = false
has_max_calls intent (some tl) = is_some (get intent.agent_id tl.max_calls)

unfoldable pub validate_state_for_intent : State → Intent → Bool
validate_state_for_intent state intent =
    is_some (get intent.agent_id state.budget.budget_limit)
    && (is_some (get intent.agent_id state.max_amount_per_action)
        && (is_some (get intent.agent_id state.concurrency.max_concurrent)
            && (is_some (get intent.agent_id state.recursion.max_depth)
                && has_max_calls intent state.tool_limits)))
