-- ===== src/Modules/Allowlist.antt =====
-- packages/core/src/policy/modules/AllowlistModule.ts
use oxdeai_core.Prelude.{
  String, Bool, true, false, not, Option, none, some, List, [], ◌∷◌, ◌++◌, ◌==◌, ◌&&◌, any,
  is_truthy, get_or,
}
use oxdeai_core.Intent.{Intent, ActionType, action_name}
use oxdeai_core.State.{State}
use oxdeai_core.Policy.{
  ReasonCode, PolicyResult, allow, deny, allowlist_action, allowlist_asset, allowlist_target,
}

-- `list && list.length > 0 && !list.includes(x)`
abbrev pub excludes : Option (List String) → String → Bool
excludes none x = false
excludes (some []) x = false
excludes (some (y ∷ ys)) x = not (any (λ z. z == x) (y ∷ ys))

-- The same over action types, which are equal where their texts are.
abbrev pub excludes_action : Option (List ActionType) → ActionType → Bool
excludes_action none a = false
excludes_action (some []) a = false
excludes_action (some (b ∷ bs)) a = not (any (λ c. action_name c == action_name a) (b ∷ bs))

-- `if (test) reasons.push(reason)`
abbrev pub push_if : Bool → ReasonCode → List ReasonCode → List ReasonCode
push_if true r rs = rs ++ r ∷ []
push_if false r rs = rs

abbrev pub deny_if_any : List ReasonCode → PolicyResult
deny_if_any [] = allow none
deny_if_any (r ∷ rs) = deny (r ∷ rs)

unfoldable pub allowlist_module : Intent → State → PolicyResult
allowlist_module intent state =
    let al = state.allowlists in
    let r1 = push_if (excludes_action al.action_types intent.action_type) allowlist_action [] in
    let r2 =
      push_if (is_truthy intent.asset && excludes al.assets (get_or intent.asset ""))
        allowlist_asset r1 in
    let r3 = push_if (excludes al.targets intent.target) allowlist_target r2 in deny_if_any r3
