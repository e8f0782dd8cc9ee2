-- ===== src/Modules/ToolAmplification.antt =====
-- packages/core/src/policy/modules/ToolAmplificationModule.ts. The limits' fields are present and
-- numeric by their types; the limits themselves may be missing. All times are at least 0, so the
-- cutoff may stop at 0.
use oxdeai_core.Prelude.{
  ℕ, ◌+◌, ◌-◌, String, Bool, true, false, Option, none, some, List, [], ◌∷◌, ◌++◌, ◌==◌, ◌&&◌, leb,
  ltb, filter, length, get_or, is_truthy, if◌then◌else◌,
}
use oxdeai_core.Dict.{Dict, get, put}
use oxdeai_core.Intent.{Intent, IntentType, execute, release, intent_type}
use oxdeai_core.State.{State, ToolEvent, ToolLimitsState}
use oxdeai_core.Policy.{
  PolicyResult, allow, deny, no_delta, state_invalid, tool_call_limit_exceeded,
}
use oxdeai_core.Modules.KillSwitch.{is_true}

abbrev pub prune : List ToolEvent → ℕ → List ToolEvent
prune events cutoff = filter (λ e. leb cutoff e.ts) events

-- `e.tool === toolName`
abbrev pub same_tool : Option String → Option String → Bool
same_tool none none = true
same_tool (some s) (some t) = s == t
same_tool _ _ = false

abbrev pub tool_count : Option String → List ToolEvent → ℕ
tool_count tool [] = 0
tool_count tool (e ∷ events) =
    let n = tool_count tool events in if same_tool e.tool tool then n + 1 else n

-- `tl.max_calls_by_tool?.[agent]?.[toolName]`
abbrev pub tool_cap : Option (Dict (Dict ℕ)) → String → String → Option ℕ
tool_cap none agent tool = none
tool_cap (some by_agent) agent tool = get tool (get_or (get agent by_agent) [])

-- Whether the cap of the intent's tool stands in the way.
abbrev pub over_tool_cap : Option ℕ → ℕ → Bool
over_tool_cap none count = false
over_tool_cap (some max) count = ltb max (count + 1)

abbrev pub check_calls : Intent → ToolLimitsState → ℕ → List ToolEvent → PolicyResult
check_calls intent tl max pruned =
    if ltb max (length pruned + 1)
    then deny (tool_call_limit_exceeded ∷ [])
    else if is_truthy intent.tool
        && over_tool_cap (tool_cap tl.max_calls_by_tool intent.agent_id (get_or intent.tool ""))
            (tool_count intent.tool pruned)
    then deny (tool_call_limit_exceeded ∷ [])
    else allow (
        some (record no_delta {
          tool_limits = some (record tl {
            calls =
                put intent.agent_id
                  (pruned ++ record { ts = intent.timestamp; tool = intent.tool } ∷ []) tl.calls;
          });
        }))

abbrev pub check_limits : Intent → Option ToolLimitsState → PolicyResult
check_limits intent none = deny (state_invalid ∷ [])
check_limits intent (some tl) = elim (get intent.agent_id tl.max_calls) [
  | none ↦ deny (state_invalid ∷ [])
  | some max ↦
      check_calls intent tl max
        (prune (get_or (get intent.agent_id tl.calls) []) (intent.timestamp - tl.window_seconds))
]

abbrev pub guard_tool_call : Intent → State → IntentType → Bool → PolicyResult
guard_tool_call intent state release tool_call = allow none
guard_tool_call intent state execute false = allow none
guard_tool_call intent state execute true = check_limits intent state.tool_limits

unfoldable pub tool_amplification_module : Intent → State → PolicyResult
tool_amplification_module intent state =
    guard_tool_call intent state (intent_type intent) (is_true intent.tool_call)
