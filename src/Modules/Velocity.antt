-- ===== src/Modules/Velocity.antt =====
-- packages/core/src/policy/modules/VelocityModule.ts. The configuration is present and numeric by
-- its type, so the first guard of the source has no branch here.
use oxdeai_core.Prelude.{ℕ, ◌+◌, Option, none, some, [], ◌∷◌, leb, ltb, if◌then◌else◌}
use oxdeai_core.Dict.{get, put}
use oxdeai_core.Intent.{Intent}
use oxdeai_core.State.{State, VelocityCounter}
use oxdeai_core.Policy.{PolicyResult, allow, deny, no_delta, velocity_exceeded}

-- A new window where there is no counter or its window has expired, else the next count.
abbrev pub next_counter : ℕ → ℕ → Option VelocityCounter → VelocityCounter
next_counter now window none = record { window_start = now; count = 1 }
next_counter now window (some c) =
    if leb (c.window_start + window) now
    then record { window_start = now; count = 1 }
    else record { window_start = c.window_start; count = c.count + 1 }

unfoldable pub velocity_module : Intent → State → PolicyResult
velocity_module intent state =
    let cfg = state.velocity.config in
    let next =
      next_counter intent.timestamp cfg.window_seconds
        (get intent.agent_id state.velocity.counters) in
    if ltb cfg.max_actions next.count
    then deny (velocity_exceeded ∷ [])
    else allow (
        some (record no_delta {
          velocity = some (record state.velocity {
            counters = put intent.agent_id next state.velocity.counters;
          });
        }))
