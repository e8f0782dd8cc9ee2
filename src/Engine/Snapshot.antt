-- ===== src/Engine/Snapshot.antt =====
-- The policy id, the hash of a state and the exported snapshot: `computePolicyId`,
-- `computeStateHashFor` and `exportState`, with packages/core/src/snapshot/CanonicalState.ts.
-- `none` is a thrown error.
use oxdeai_core.Prelude.{
  String, false, Option, some, List, [], ◌∷◌, map, get_or, is_truthy, ◌>>=◌, if◌then◌else◌,
}
use oxdeai_core.Dict.{Dict, put}
use oxdeai_core.Json.{
  Json, null, bool, num, str, arr, obj, Items, nil, item, end, field, canonical_json,
  stable_stringify,
}
use oxdeai_core.Crypto.{Host, sha256_from_json}
use oxdeai_core.State.{State}
use oxdeai_core.Codec.{module_codecs}
use oxdeai_core.Codec.Sorting.{sorted_entries, object_of}
use oxdeai_core.Engine.Options.{EngineOptions, CanonicalState, fail_fast, mode_name, ttl_seconds}
use oxdeai_core.Engine.Apply.{PolicyModule, execute_modules, release_modules}

abbrev engine_version : String
engine_version = "unknown"

abbrev module_items : Dict (Unit {0}) → Items
module_items [] = nil
module_items ((id, _) ∷ mods) =
    item (obj (field "id" (str id) (field "version" null end))) (module_items mods)

-- The modules' descriptions, in the order of their ids.
abbrev describe_modules : List PolicyModule → Json
describe_modules mods = arr (module_items (sorted_entries (map (λ m. (m.id, tt)) mods)))

-- What the policy id is the hash of.
unfoldable pub policy_payload : EngineOptions → Json
unfolding sorted_entries
policy_payload opts = obj (
    field "engine" (str "PolicyEngine") (
      field "engineVersion" (str engine_version) (
        field "modules"
          (obj (
            field "execute" (describe_modules execute_modules)
              (field "release" (describe_modules release_modules) end)))
          (field "opts"
            (obj (
              field "policy_version" (str opts.policy_version) (
                field "authorization_ttl_seconds" (num (ttl_seconds opts)) (
                  field "deny_mode" (str (mode_name (get_or opts.deny_mode fail_fast)))
                    (field "strict" (bool (get_or opts.strict_determinism false)) end)))))
            end))))

abbrev pub create_canonical_state : String → String → Dict Json → CanonicalState
create_canonical_state engine_version policy_id modules = record {
  format_version = 1;
  engine_version = engine_version;
  policy_id = policy_id;
  modules = modules;
}

unfoldable pub with_module_state : CanonicalState → String → Json → CanonicalState
with_module_state state module_id payload = record state {
  modules = put module_id payload state.modules;
}

-- The loop of `exportState` over the sorted ids.
unfoldable pub export_modules :
    State → Dict (State → Option Json) → CanonicalState → Option CanonicalState
unfolding with_module_state
export_modules state [] snapshot = some snapshot
export_modules state ((id, serialize) ∷ codecs) snapshot = do
  payload ← serialize state
  export_modules state codecs (with_module_state snapshot id payload)

module _ (host : Host) where
  unfoldable pub compute_policy_id : EngineOptions → String
  unfolding policy_payload
  compute_policy_id opts =
      if is_truthy opts.policy_id
      then get_or opts.policy_id ""
      else host.sha256 (stable_stringify (policy_payload opts))

  -- `stateHash` of each codec.
  abbrev module_hash : State → (State → Option Json) → Option Json
  module_hash state serialize = do
    payload ← serialize state
    some (str (sha256_from_json host payload))

  unfoldable pub compute_state_hash_for : EngineOptions → State → Option String
  unfolding sorted_entries object_of module_codecs compute_policy_id
  compute_state_hash_for opts state = do
    hashes ← object_of (module_hash state) (sorted_entries module_codecs)
    some (
        host.sha256 (
          canonical_json (
            obj (
              field "formatVersion" (num 1) (
                field "engineVersion" (str engine_version) (
                  field "policyId" (str (compute_policy_id opts))
                    (field "modules" (obj hashes) end)))))))

  unfoldable pub export_state : EngineOptions → State → Option CanonicalState
  unfolding sorted_entries module_codecs export_modules compute_policy_id
  export_state opts state =
      export_modules state (sorted_entries module_codecs)
        (create_canonical_state engine_version (compute_policy_id opts) [])
