-- ===== src/Modules/KillSwitch.antt =====
-- packages/core/src/policy/modules/KillSwitchModule.ts
use oxdeai_core.Prelude.{Bool, false, Option, none, some, [], ◌∷◌, if◌then◌else◌}
use oxdeai_core.Dict.{get}
use oxdeai_core.Intent.{Intent}
use oxdeai_core.State.{State}
use oxdeai_core.Policy.{PolicyResult, allow, deny, kill_switch}

-- `x === true`
abbrev pub is_true : Option Bool → Bool
is_true none = false
is_true (some b) = b

unfoldable pub kill_switch_module : Intent → State → PolicyResult
kill_switch_module intent state =
    if state.kill_switch.global
    then deny (kill_switch ∷ [])
    else if is_true (get intent.agent_id state.kill_switch.agents)
    then deny (kill_switch ∷ [])
    else allow none
