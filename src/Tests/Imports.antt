-- ===== src/Tests/Imports.antt =====
-- Theorems on reading snapshots back, at a concrete state.
use oxdeai_core.Prelude.{◌≡◌, refl, false, Option, some, get_or}
use oxdeai_core.Json.{Json, null}
use oxdeai_core.Codec.Sorting.{sorted_entries}
use oxdeai_core.Codec.Policies.{normalize_velocity}
use oxdeai_core.Codec.Limits.{normalize_kill_switch, normalize_recursion}
use oxdeai_core.Codec.Restoring.{read_kill_switch, read_recursion, read_velocity}
use oxdeai_core.Codec.Restoring.RoundTrips.{restored_parts}
use oxdeai_core.Engine.Options.{PolicyEngine}
use oxdeai_core.Engine.Import.{import_state}
use oxdeai_core.Engine.Import.Failures.{failed_import_keeps_engine}
use oxdeai_core.Tests.Setting.{toy_host, engine, state}
use oxdeai_core.Tests.Snapshots.{snap}

abbrev switch : Json
switch = get_or (normalize_kill_switch state.kill_switch) null

abbrev depths : Json
depths = get_or (normalize_recursion state.recursion) null

abbrev rates : Json
rates = get_or (normalize_velocity state.velocity) null

serialized :
    (normalize_kill_switch state.kill_switch ≡ some switch)
    × (normalize_recursion state.recursion ≡ some depths)
    × (normalize_velocity state.velocity ≡ some rates)
unfolding normalize_kill_switch normalize_recursion normalize_velocity
    oxdeai_core.Codec.Sorting.sorted_object oxdeai_core.Codec.Sorting.object_of sorted_entries
serialized = (refl, refl, refl)

restored_parts_example :
    (read_kill_switch switch
      ≡ some (record {
        global = state.kill_switch.global;
        agents = sorted_entries state.kill_switch.agents;
      }))
    × (read_recursion depths
        ≡ some (record { max_depth = sorted_entries state.recursion.max_depth }))
    × (read_velocity rates
        ≡ some (record {
          config = state.velocity.config;
          counters = sorted_entries state.velocity.counters;
        }))
restored_parts_example =
    restored_parts state switch depths rates serialized.0 serialized.1 serialized.2

-- The engine with a current state.
abbrev running : PolicyEngine
running = record engine { current_state = some state }

import_refused :
    (import_state toy_host (some state) (record snap { format_version = 2 }) running).complete
    ≡ false
unfolding import_state
import_refused = refl

failed_import_keeps_engine_example :
    (import_state toy_host (some state) (record snap { format_version = 2 }) running).engine
    ≡ running
failed_import_keeps_engine_example =
    failed_import_keeps_engine toy_host (some state) (record snap { format_version = 2 }) running
      import_refused
