-- ===== src/CanonicalCodec.antt =====
-- packages/core/src/snapshot/CanonicalCodec.ts: a snapshot as bytes and back. Texts stand for their
-- UTF-8 bytes; `parse` is `JSON.parse`, and `none` is an exception.
use oxdeai_core.Prelude.{String, Option, none, some, [], ◌∷◌, ◌>>=◌, ◌>>◌, require}
use oxdeai_core.Dict.{Dict}
use oxdeai_core.Json.{Json, num, str, obj, Fields, end, field, canonical_json}
use oxdeai_core.Schemas.{value_of, is_one}
use oxdeai_core.Engine.Options.{CanonicalState}

-- An object as a record of its keys, and back.
unfoldable pub fields_of : Dict Json → Fields
fields_of [] = end
fields_of ((k, v) ∷ d) = field k v (fields_of d)

unfoldable pub entries_of : Fields → Dict Json
entries_of end = []
entries_of (field k v fs) = (k, v) ∷ entries_of fs

unfoldable pub state_json : CanonicalState → Json
unfolding fields_of
state_json s = obj (
    field "formatVersion" (num s.format_version) (
      field "engineVersion" (str s.engine_version)
        (field "policyId" (str s.policy_id) (field "modules" (obj (fields_of s.modules)) end))))

-- A text, or an exception.
abbrev pub as_text : Json → Option String
as_text (str s) = some s
as_text _ = none

unfoldable pub as_record : Json → Option (Dict Json)
unfolding entries_of
as_record (obj fs) = some (entries_of fs)
as_record _ = none

unfoldable pub assert_canonical_state : Json → Option CanonicalState
unfolding value_of
assert_canonical_state (obj fs) = do
  version ← value_of "formatVersion" fs
  require (is_one version)
  engine_version ← value_of "engineVersion" fs >>= as_text
  policy_id ← value_of "policyId" fs >>= as_text
  modules ← value_of "modules" fs >>= as_record
  some (record {
    format_version = 1;
    engine_version = engine_version;
    policy_id = policy_id;
    modules = modules;
  })
assert_canonical_state _ = none

unfoldable pub encode_canonical_state : CanonicalState → Option String
unfolding assert_canonical_state state_json
encode_canonical_state state = do
  normalized ← assert_canonical_state (state_json state)
  some (canonical_json (state_json normalized))

unfoldable pub decode_canonical_state : (String → Option Json) → String → Option CanonicalState
unfolding assert_canonical_state
decode_canonical_state parse bytes = do parsed ← parse bytes; assert_canonical_state parsed
