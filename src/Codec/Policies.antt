-- ===== src/Codec/Policies.antt =====
-- The serialized allow lists, budget, velocity counters and nonces, the normalizers of
-- packages/core/src/policy/modules/_codec.ts. Values are integers by their types, so that
-- `assertInt` and `assertNonNegInt` always pass; `assertPosInt` refuses 0.
use oxdeai_core.Prelude.{
  sort_by, ℤ, String, Bool, true, not, Option, some, List, [], ◌∷◌, map, ◌==◌, ◌&&◌, ◌||◌, ◌>>=◌,
  ◌>>◌, require, ltb, nat_eq, any, get_or, show_ℕ, show_ℤ,
}
use oxdeai_core.Json.{Json, num, str, arr, obj, Items, nil, item, end, field}
use oxdeai_core.Json.Order.{str_ltb}
use oxdeai_core.Crypto.{◌+++◌}
use oxdeai_core.Intent.{action_name}
use oxdeai_core.State.{AllowLists, VelocityCounter, VelocityState, NonceEntry, ReplayState, State}
use oxdeai_core.Audit.{str_items}
use oxdeai_core.Codec.Sorting.{sorted_object, assert_pos, uniq_sorted}

unfoldable pub normalize_allowlists : AllowLists → Json
unfolding uniq_sorted
normalize_allowlists al = obj (
    field "action_types"
      (arr (str_items (uniq_sorted (map action_name (get_or al.action_types [])))))
      (field "assets" (arr (str_items (uniq_sorted (get_or al.assets []))))
        (field "targets" (arr (str_items (uniq_sorted (get_or al.targets [])))) end)))

abbrev bigint_json : ℤ → Option Json
bigint_json n = some (str (show_ℤ n))

unfoldable pub normalize_budget : State → Option Json
unfolding sorted_object
normalize_budget state = do
  limits ← sorted_object bigint_json state.budget.budget_limit
  spent ← sorted_object bigint_json state.budget.spent_in_period
  caps ← sorted_object bigint_json state.max_amount_per_action
  some (
      obj (
        field "budget_limit" limits
          (field "spent_in_period" spent (field "max_amount_per_action" caps end))))

abbrev counter_json : VelocityCounter → Option Json
counter_json c =
    some (obj (field "window_start" (num c.window_start) (field "count" (num c.count) end)))

unfoldable pub normalize_velocity : VelocityState → Option Json
unfolding sorted_object
normalize_velocity vel = do
  window ← assert_pos vel.config.window_seconds
  counters ← sorted_object counter_json vel.counters
  some (
      obj (
        field "config"
          (obj (
            field "window_seconds" (num window)
              (field "max_actions" (num vel.config.max_actions) end)))
          (field "counters" counters end)))

-- By time, then by nonce.
abbrev pub nonce_lt : NonceEntry → NonceEntry → Bool
nonce_lt a b = ltb a.ts b.ts || (nat_eq a.ts b.ts && str_ltb a.nonce b.nonce)

abbrev pub entry_key : NonceEntry → String
entry_key e = show_ℕ e.ts +++ ":" +++ e.nonce

-- Whether no key of the entries is in the set `seen`, or comes twice.
unfoldable pub fresh_keys : List String → List NonceEntry → Bool
fresh_keys seen [] = true
fresh_keys seen (e ∷ es) =
    not (any (λ s. s == entry_key e) seen) && fresh_keys (entry_key e ∷ seen) es

abbrev nonce_items : List NonceEntry → Items
nonce_items [] = nil
nonce_items (e ∷ es) =
    item (obj (field "nonce" (str e.nonce) (field "ts" (num e.ts) end))) (nonce_items es)

unfoldable pub nonces_json : List NonceEntry → Option Json
unfolding sort_by fresh_keys
nonces_json list = do
  require (fresh_keys [] (sort_by nonce_lt list))
  some (arr (nonce_items (sort_by nonce_lt list)))

unfoldable pub normalize_replay : ReplayState → Option Json
unfolding sorted_object nonces_json
normalize_replay rp = do
  nonces ← sorted_object nonces_json rp.nonces
  window ← assert_pos rp.window_seconds
  some (
      obj (
        field "window_seconds" (num window)
          (field "max_nonces_per_agent" (num rp.max_nonces_per_agent) (field "nonces" nonces end))))
