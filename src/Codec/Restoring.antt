-- ===== src/Codec/Restoring.antt =====
-- `deserializeState` of each codec in packages/core/src/policy/modules/_codec.ts, as what it puts
-- in the place of a part of the state. A missing payload resets the part. `none` is a thrown error.
-- A text in the allowed actions that is no action's name, which the code lets through by a cast, has
-- no counterpart in the type of states, and counts as an error here.
pub mod RoundTrips
use oxdeai_core.Prelude.{
  ℕ, ℤ, String, Bool, true, false, Option, none, some, List, [], ◌∷◌, ◌++◌, ◌==◌, ◌&&◌, ◌||◌, map,
  leb, sort_by, ◌>>=◌, ◌>>◌, require, if◌then◌else◌,
}
use oxdeai_core.Dict.{Dict}
use oxdeai_core.Json.{Json, undefined, null, bool, num, bigint, str, arr, obj, Fields, end, field}
use oxdeai_core.Intent.{ActionType, payment, purchase, provision, onchain_tx}
use oxdeai_core.State.{
  KillSwitchState, AllowLists, BudgetState, VelocityConfig, VelocityCounter, VelocityState,
  NonceEntry, ReplayState, ActiveAuth, ConcurrencyState, RecursionState, ToolEvent, ToolLimitsState,
  State,
}
use oxdeai_core.Schemas.{keys_of}
use oxdeai_core.Codec.Sorting.{uniq_sorted}
use oxdeai_core.Codec.Policies.{nonce_lt, fresh_keys}
use oxdeai_core.Codec.Limits.{event_lt}
use oxdeai_core.Codec.Reading.{
  as_object, assert_int, assert_pos_int, as_string, as_bool, at_key, object_or_empty,
  number_or_zero, array_of, as_string_array, read_object, assert_decimal,
}

abbrev action_of : String → Option ActionType
action_of s =
    if s == "PAYMENT"
    then some payment
    else if s == "PURCHASE"
    then some purchase
    else if s == "PROVISION"
    then some provision
    else if s == "ONCHAIN_TX"
    then some onchain_tx
    else none

unfoldable actions_of : List String → Option (List ActionType)
actions_of [] = some []
actions_of (s ∷ ss) = do a ← action_of s; rest ← actions_of ss; some (a ∷ rest)

-- `value === undefined ? [] : asStringArray(value)`
abbrev array_or_empty : Json → Option (List String)
array_or_empty undefined = some []
array_or_empty v = as_string_array v

unfoldable pub read_allowlists : Json → Option AllowLists
unfolding uniq_sorted actions_of
read_allowlists undefined = some (record { action_types = none; assets = none; targets = none })
read_allowlists payload = do
  o ← as_object payload
  actions ← array_or_empty (at_key "action_types" o)
  assets ← array_or_empty (at_key "assets" o)
  targets ← array_or_empty (at_key "targets" o)
  action_types ← actions_of (uniq_sorted actions)
  some (record {
    action_types = some action_types;
    assets = some (uniq_sorted assets);
    targets = some (uniq_sorted targets);
  })

-- The budget, and the caps of one action.
unfoldable pub read_budget : Json → Option (BudgetState × Dict ℤ)
unfolding read_object
read_budget undefined = some (record { budget_limit = []; spent_in_period = [] }, [])
read_budget payload = do
  o ← as_object payload
  limits ← object_or_empty (at_key "budget_limit" o)
  spendings ← object_or_empty (at_key "spent_in_period" o)
  caps ← object_or_empty (at_key "max_amount_per_action" o)
  budget_limit ← read_object assert_decimal limits
  spent_in_period ← read_object assert_decimal spendings
  max_amount_per_action ← read_object assert_decimal caps
  some (
    record { budget_limit = budget_limit; spent_in_period = spent_in_period },
    max_amount_per_action,
  )

abbrev pub read_counter : Json → Option VelocityCounter
read_counter v = do
  o ← as_object v
  window_start ← assert_int (at_key "window_start" o)
  count ← assert_int (at_key "count" o)
  some (record { window_start = window_start; count = count })

unfoldable pub read_velocity : Json → Option VelocityState
unfolding read_object
read_velocity undefined =
    some (record { config = record { window_seconds = 1; max_actions = 0 }; counters = [] })
read_velocity payload = do
  o ← as_object payload
  config ← as_object (at_key "config" o)
  entries ← object_or_empty (at_key "counters" o)
  counters ← read_object read_counter entries
  window_seconds ← assert_pos_int (at_key "window_seconds" config)
  max_actions ← assert_int (at_key "max_actions" config)
  some (record {
    config = record { window_seconds = window_seconds; max_actions = max_actions };
    counters = counters;
  })

abbrev read_nonce : Json → Option NonceEntry
read_nonce v = do
  o ← as_object v
  nonce ← as_string (at_key "nonce" o)
  ts ← assert_int (at_key "ts" o)
  some (record { nonce = nonce; ts = ts })

unfoldable pub read_nonces : Json → Option (List NonceEntry)
unfolding sort_by fresh_keys
read_nonces v = do
  entries ← array_of read_nonce v
  require (fresh_keys [] (sort_by nonce_lt entries))
  some (sort_by nonce_lt entries)

unfoldable pub read_replay : Json → Option ReplayState
unfolding read_object read_nonces
read_replay undefined = some (record { window_seconds = 1; max_nonces_per_agent = 0; nonces = [] })
read_replay payload = do
  o ← as_object payload
  entries ← object_or_empty (at_key "nonces" o)
  nonces ← read_object read_nonces entries
  window_seconds ← assert_pos_int (at_key "window_seconds" o)
  max_nonces_per_agent ← assert_int (at_key "max_nonces_per_agent" o)
  some (record {
    window_seconds = window_seconds;
    max_nonces_per_agent = max_nonces_per_agent;
    nonces = nonces;
  })

abbrev read_auth : Json → Option ActiveAuth
read_auth v = do
  o ← as_object v
  expires_at ← assert_int (at_key "expires_at" o)
  some (record { expires_at = expires_at })

-- The loop over the agents of all three objects.
unfoldable pub read_rows : Fields → Fields → Fields → List String → Option ConcurrencyState
unfolding read_object
read_rows maxes actives auths [] =
    some (record { max_concurrent = []; active = []; active_auths = [] })
read_rows maxes actives auths (agent ∷ agents) = do
  max ← number_or_zero (at_key agent maxes)
  act ← number_or_zero (at_key agent actives)
  require (leb act max)
  raw ← object_or_empty (at_key agent auths)
  held ← read_object read_auth raw
  rest ← read_rows maxes actives auths agents
  some (record {
    max_concurrent = (agent, max) ∷ rest.max_concurrent;
    active = (agent, act) ∷ rest.active;
    active_auths = (agent, held) ∷ rest.active_auths;
  })

unfoldable pub read_concurrency : Json → Option ConcurrencyState
unfolding read_rows uniq_sorted keys_of
read_concurrency undefined = some (record { max_concurrent = []; active = []; active_auths = [] })
read_concurrency payload = do
  o ← as_object payload
  maxes ← object_or_empty (at_key "max_concurrent" o)
  actives ← object_or_empty (at_key "active" o)
  auths ← object_or_empty (at_key "active_auths" o)
  read_rows maxes actives auths (uniq_sorted (keys_of maxes ++ (keys_of actives ++ keys_of auths)))

unfoldable pub read_recursion : Json → Option RecursionState
unfolding read_object
read_recursion undefined = some (record { max_depth = [] })
read_recursion payload = do
  o ← as_object payload
  entries ← object_or_empty (at_key "max_depth" o)
  max_depth ← read_object assert_int entries
  some (record { max_depth = max_depth })

-- `asObject(byToolObj[agent] ?? {})`, each tool's limit read.
abbrev read_tools : Json → Option (Dict ℕ)
unfolding read_object
read_tools v = do o ← object_or_empty v; read_object assert_int o

-- Null stands for no tool.
abbrev read_tool : Json → Option (Option String)
read_tool undefined = some none
read_tool null = some none
read_tool v = do s ← as_string v; some (some s)

abbrev read_call : Json → Option ToolEvent
read_call v = do
  o ← as_object v
  tool ← read_tool (at_key "tool" o)
  ts ← assert_int (at_key "ts" o)
  some (record { ts = ts; tool = tool })

unfoldable pub read_calls : Json → Option (List ToolEvent)
unfolding sort_by
read_calls v = do entries ← array_of read_call v; some (sort_by event_lt entries)

unfoldable pub read_tool_limits : Json → Option ToolLimitsState
unfolding read_object read_calls
read_tool_limits undefined =
    some (record { window_seconds = 1; max_calls = []; max_calls_by_tool = some []; calls = [] })
read_tool_limits payload = do
  o ← as_object payload
  limits ← object_or_empty (at_key "max_calls" o)
  by_tool ← object_or_empty (at_key "max_calls_by_tool" o)
  events ← object_or_empty (at_key "calls" o)
  max_calls ← read_object assert_int limits
  max_calls_by_tool ← read_object read_tools by_tool
  calls ← read_object read_calls events
  window_seconds ← assert_pos_int (at_key "window_seconds" o)
  some (record {
    window_seconds = window_seconds;
    max_calls = max_calls;
    max_calls_by_tool = some max_calls_by_tool;
    calls = calls;
  })

unfoldable pub read_kill_switch : Json → Option KillSwitchState
unfolding read_object
read_kill_switch undefined = some (record { global = false; agents = [] })
read_kill_switch payload = do
  o ← as_object payload
  global ← as_bool (at_key "global" o)
  entries ← object_or_empty (at_key "agents" o)
  agents ← read_object as_bool entries
  some (record { global = global; agents = agents })

-- A part of a payload put into a state.
abbrev pub restore_with {ℓ} :
    {P : Type ℓ} → (Json → Option P) → (P → State → State) → Json → State → Option State
restore_with read put payload state = do part ← read payload; some (put part state)

-- `deserializeState` of each codec of the registry, by the sorted ids.
unfoldable pub restorers : Dict (Json → State → Option State)
unfolding read_allowlists read_budget read_velocity read_replay read_concurrency read_recursion
    read_tool_limits read_kill_switch
restorers =
    ("AllowlistModule", restore_with read_allowlists (λ p s. record s { allowlists = p }))
    ∷ (
      "BudgetModule",
      restore_with read_budget (λ p s. record s { budget = p.0; max_amount_per_action = p.1 }),
    )
    ∷ ("ConcurrencyModule", restore_with read_concurrency (λ p s. record s { concurrency = p }))
    ∷ ("KillSwitchModule", restore_with read_kill_switch (λ p s. record s { kill_switch = p }))
    ∷ ("RecursionDepthModule", restore_with read_recursion (λ p s. record s { recursion = p }))
    ∷ ("ReplayModule", restore_with read_replay (λ p s. record s { replay = p }))
    ∷ (
      "ToolAmplificationModule",
      restore_with read_tool_limits (λ p s. record s { tool_limits = some p }),
    )
    ∷ ("VelocityModule", restore_with read_velocity (λ p s. record s { velocity = p }))
    ∷ []
