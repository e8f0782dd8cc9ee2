-- ===== src/Codec/Limits.antt =====
-- The serialized concurrency, recursion and tool limits and the kill switch, the normalizers of
-- packages/core/src/policy/modules/_codec.ts.
use oxdeai_core.Prelude.{
  sort_by, String, Bool, Option, none, some, List, [], ◌∷◌, ◌++◌, ◌&&◌, ◌||◌, ◌>>=◌, ◌>>◌, require,
  leb, ltb, nat_eq, get_or,
}
use oxdeai_core.Dict.{get, keys}
use oxdeai_core.Json.{
  Json, undefined, bool, num, str, arr, obj, Items, nil, item, Fields, end, field,
}
use oxdeai_core.Json.Order.{str_ltb}
use oxdeai_core.State.{
  KillSwitchState, ActiveAuth, ConcurrencyState, RecursionState, ToolEvent, ToolLimitsState,
}
use oxdeai_core.Codec.Sorting.{sorted_object, assert_pos, num_json, uniq_sorted}

abbrev auth_json : ActiveAuth → Option Json
auth_json a = some (obj (field "expires_at" (num a.expires_at) end))

-- The three objects that the loop of `normalizeConcurrency` fills.
pub record ConcurrencyRows : Type 0 where
  pub max_concurrent : Fields
  pub active : Fields
  pub active_auths : Fields

unfoldable pub concurrency_rows : ConcurrencyState → List String → Option ConcurrencyRows
unfolding sorted_object
concurrency_rows cc [] = some (record { max_concurrent = end; active = end; active_auths = end })
concurrency_rows cc (agent ∷ agents) = do
  let max = get_or (get agent cc.max_concurrent) 0
  let act = get_or (get agent cc.active) 0
  require (leb act max)
  auths ← sorted_object auth_json (get_or (get agent cc.active_auths) [])
  rows ← concurrency_rows cc agents
  some (record {
    max_concurrent = field agent (num max) rows.max_concurrent;
    active = field agent (num act) rows.active;
    active_auths = field agent auths rows.active_auths;
  })

unfoldable pub normalize_concurrency : ConcurrencyState → Option Json
unfolding concurrency_rows uniq_sorted
normalize_concurrency cc = do
  rows ←
      concurrency_rows cc
        (uniq_sorted (keys cc.max_concurrent ++ (keys cc.active ++ keys cc.active_auths)))
  some (
      obj (
        field "max_concurrent" (obj rows.max_concurrent)
          (field "active" (obj rows.active) (field "active_auths" (obj rows.active_auths) end))))

unfoldable pub normalize_recursion : RecursionState → Option Json
unfolding sorted_object
normalize_recursion rc = do
  depths ← sorted_object num_json rc.max_depth
  some (obj (field "max_depth" depths end))

abbrev pub tool_text : ToolEvent → String
tool_text e = get_or e.tool ""

abbrev pub event_lt : ToolEvent → ToolEvent → Bool
event_lt a b = ltb a.ts b.ts || (nat_eq a.ts b.ts && str_ltb (tool_text a) (tool_text b))

abbrev tool_json : Option String → Json
tool_json none = undefined
tool_json (some t) = str t

abbrev event_items : List ToolEvent → Items
event_items [] = nil
event_items (e ∷ es) =
    item (obj (field "ts" (num e.ts) (field "tool" (tool_json e.tool) end))) (event_items es)

unfoldable pub calls_json : List ToolEvent → Option Json
unfolding sort_by
calls_json events = some (arr (event_items (sort_by event_lt events)))

abbrev no_limits : ToolLimitsState
no_limits = record { window_seconds = 0; max_calls = []; max_calls_by_tool = some []; calls = [] }

unfoldable pub normalize_tool_limits : Option ToolLimitsState → Option Json
unfolding sorted_object calls_json
normalize_tool_limits limits = do
  let tl = get_or limits no_limits
  max_calls ← sorted_object num_json tl.max_calls
  by_tool ← sorted_object (sorted_object num_json) (get_or tl.max_calls_by_tool [])
  calls ← sorted_object calls_json tl.calls
  window ← assert_pos tl.window_seconds
  some (
      obj (
        field "window_seconds" (num window) (
          field "max_calls" max_calls
            (field "max_calls_by_tool" by_tool (field "calls" calls end)))))

abbrev flag_json : Bool → Option Json
flag_json b = some (bool b)

unfoldable pub normalize_kill_switch : KillSwitchState → Option Json
unfolding sorted_object
normalize_kill_switch ks = do
  agents ← sorted_object flag_json ks.agents
  some (obj (field "global" (bool ks.global) (field "agents" agents end)))
