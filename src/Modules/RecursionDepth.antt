-- ===== src/Modules/RecursionDepth.antt =====
-- packages/core/src/policy/modules/RecursionDepthModule.ts
use oxdeai_core.Prelude.{ℕ, Option, none, some, [], ◌∷◌, ltb, get_or, if◌then◌else◌}
use oxdeai_core.Dict.{get}
use oxdeai_core.Intent.{Intent}
use oxdeai_core.State.{State}
use oxdeai_core.Policy.{PolicyResult, allow, deny, state_invalid, recursion_depth_exceeded}

abbrev pub check_depth : ℕ → Option ℕ → PolicyResult
check_depth depth none = deny (state_invalid ∷ [])
check_depth depth (some max) =
    if ltb max depth then deny (recursion_depth_exceeded ∷ []) else allow none

unfoldable pub recursion_depth_module : Intent → State → PolicyResult
recursion_depth_module intent state =
    check_depth (get_or intent.depth 0) (get intent.agent_id state.recursion.max_depth)
