-- ===== src/Engine/Apply/Shared.antt =====
-- What the loop over the modules' results leaves in the caller's object.
use oxdeai_core.Prelude.{◌≡◌, ap, ◌∙◌, Option, none, some, List, [], ◌∷◌, arith}
use oxdeai_core.State.{State, ToolLimitsState}
use oxdeai_core.Policy.{StateDelta, PolicyResult, allow, deny}
use oxdeai_core.Merge.{deep_merge, aliased, merge_field, merge_tool_limits}
use oxdeai_core.Engine.Options.{Mode, fail_fast, collect_all}
use oxdeai_core.Engine.Apply.{Applied, apply_results, merge_delta}

-- The caller's object and the working state hold the same, and have tool limits.
pub record IsShared (a : Applied) : Type 0 where
  pub same : a.caller ≡ a.working
  pub limits : ToolLimitsState
  pub limited : a.working.tool_limits ≡ some limits

pub aliased_self :
    (w : State) (d : StateDelta) (limits : ToolLimitsState)
    → w.tool_limits ≡ some limits
    → (aliased w (deep_merge w d) ≡ deep_merge w d)
      × ((deep_merge w d).tool_limits ≡ some (merge_field merge_tool_limits limits d.tool_limits))
unfolding deep_merge aliased
aliased_self w d limits e = (ground arith, ground arith)

merge_delta-IsShared :
    (d : Option StateDelta) (a : Applied) → IsShared a → IsShared (merge_delta d a)
merge_delta-IsShared none a s = s
merge_delta-IsShared (some d) a s =
    let (same, limited) = aliased_self a.working d s.limits s.limited in
    record {
      same = ap (λ c. aliased c (deep_merge a.working d)) s.same ∙ same;
      limits = merge_field merge_tool_limits s.limits d.tool_limits;
      limited = limited;
    }

-- Whatever the modules answer, the loop leaves in the caller's object what it leaves in the
-- working state.
pub apply_results-IsShared :
    (mode : Mode) (rs : List PolicyResult) (a : Applied)
    → IsShared a
    → IsShared (apply_results mode rs a)
unfolding apply_results
apply_results-IsShared mode [] a s = s
apply_results-IsShared mode (allow d ∷ rs) a s =
    apply_results-IsShared mode rs (merge_delta d a) (merge_delta-IsShared d a s)
apply_results-IsShared fail_fast (deny reasons ∷ rs) a s = record {
  same = s.same;
  limits = s.limits;
  limited = s.limited;
}
apply_results-IsShared collect_all (deny reasons ∷ rs) a s =
    apply_results-IsShared collect_all rs _
      (record { same = s.same; limits = s.limits; limited = s.limited })
