-- ===== src/Schemas/Events.antt =====
-- The validators of audit events, logs of them and envelopes, in
-- packages/core/src/schemas/validate.ts.
use Prim.Native.Char.{code}
use oxdeai_core.Prelude.{
  ℕ, suc, ◌≡◌, refl, String, Bool, true, false, Option, none, some, List, [], ◌∷◌, ◌++◌, ◌&&◌, ◌==◌,
  nat_eq, map, show_ℕ, if◌then◌else◌,
}
use oxdeai_core.Crypto.{◌+++◌}
use oxdeai_core.Json.{Json, str, arr, obj, Items, nil, item, Fields}
use oxdeai_core.Schemas.{
  SchemaValidationIssue, issue, type, required, enum, format, value, value_of, is_str, is_full_str,
  is_one_of, is_one, is_base64_text, int_non_negative, missing, check_field, require_field,
  or_undefined, push_additional, sorted, not_object,
}

-- `path.replace("$", root)`: the first `$` makes room for the root.
unfoldable pub replace_root : String → String → String
replace_root root String.[] = ""
replace_root root (String.◌∷◌ c s) =
    let rest = replace_root root s in if nat_eq (code c) 36 then root +++ s else String.◌∷◌ c rest

abbrev pub at_root : String → SchemaValidationIssue → SchemaValidationIssue
at_root root i = record i { path = replace_root root i.path }

abbrev pub texts : Items → Bool
texts nil = true
texts (item v xs) = is_str v && texts xs

abbrev pub is_text_array : Json → Bool
is_text_array (arr xs) = texts xs
is_text_array _ = false

abbrev full : String → Fields → List SchemaValidationIssue
full k fs = require_field "$" k is_full_str type "must be non-empty string" fs

abbrev text : String → Fields → List SchemaValidationIssue
text k fs = require_field "$" k is_str type "must be string" fs

abbrev only : List String → Fields → List SchemaValidationIssue
only ks fs = push_additional "$" ks fs

abbrev pub received_issues : Fields → List SchemaValidationIssue
received_issues fs =
    full "intent_hash" fs
    ++ (text "agent_id" fs
        ++ only ("type" ∷ "intent_hash" ∷ "agent_id" ∷ "timestamp" ∷ "policyId" ∷ []) fs)

abbrev decision_keys : List String
decision_keys =
    "type" ∷ "intent_hash" ∷ "decision" ∷ "reasons" ∷ "policy_version" ∷ "timestamp" ∷ "policyId"
    ∷ []

abbrev pub decision_issues : Fields → List SchemaValidationIssue
decision_issues fs =
    full "intent_hash" fs
    ++ (require_field "$" "decision" (is_one_of ("ALLOW" ∷ "DENY" ∷ [])) enum
          "must be ALLOW or DENY" fs
        ++ (require_field "$" "reasons" is_text_array type "must be string array" fs
            ++ (text "policy_version" fs ++ only decision_keys fs)))

abbrev emitted_keys : List String
emitted_keys =
    "type" ∷ "authorization_id" ∷ "intent_hash" ∷ "expires_at" ∷ "timestamp" ∷ "policyId" ∷ []

abbrev pub emitted_issues : Fields → List SchemaValidationIssue
emitted_issues fs =
    full "authorization_id" fs
    ++ (full "intent_hash" fs
        ++ (require_field "$" "expires_at" int_non_negative type "must be non-negative integer" fs
            ++ only emitted_keys fs))

abbrev pub attested_issues : Fields → List SchemaValidationIssue
attested_issues fs =
    full "intent_hash" fs
    ++ (text "execution_ref" fs
        ++ only ("type" ∷ "intent_hash" ∷ "execution_ref" ∷ "timestamp" ∷ "policyId" ∷ []) fs)

abbrev pub checkpoint_issues : Fields → List SchemaValidationIssue
checkpoint_issues fs =
    full "stateHash" fs ++ only ("type" ∷ "stateHash" ∷ "timestamp" ∷ "policyId" ∷ []) fs

-- The issues of an event of each type.
abbrev pub typed_issues : String → Fields → List SchemaValidationIssue
typed_issues t fs =
    if t == "INTENT_RECEIVED"
    then received_issues fs
    else if t == "DECISION"
    then decision_issues fs
    else if t == "AUTH_EMITTED"
    then emitted_issues fs
    else if t == "EXECUTION_ATTESTED"
    then attested_issues fs
    else if t == "STATE_CHECKPOINT"
    then checkpoint_issues fs
    else issue "$.type" enum "unsupported event type" ∷ []

abbrev pub event_issues : Fields → Json → List SchemaValidationIssue
event_issues fs (str t) = sorted (
    require_field "$" "timestamp" int_non_negative type "timestamp must be non-negative integer" fs
    ++ (check_field "$" "policyId" is_str type "policyId must be string" fs ++ typed_issues t fs))
event_issues fs _ = issue "$.type" required "missing type" ∷ []

unfoldable pub validate_audit_event_json : Json → List SchemaValidationIssue
unfolding sorted push_additional value_of
validate_audit_event_json (obj fs) = event_issues fs (or_undefined (value_of "type" fs))
validate_audit_event_json _ = not_object

-- The loop over events, each with its path; `root` is what stands before the index.
unfoldable pub events_issues : String → ℕ → Items → List SchemaValidationIssue
unfolding validate_audit_event_json replace_root
events_issues root i nil = []
events_issues root i (item v xs) =
    map (at_root (root +++ "[" +++ show_ℕ i +++ "]")) (validate_audit_event_json v)
    ++ events_issues root (suc i) xs

unfoldable pub validate_audit_log_json : Json → List SchemaValidationIssue
unfolding events_issues sorted
validate_audit_log_json (arr xs) = sorted (events_issues "$" 0 xs)
validate_audit_log_json _ = issue "$" type "must be array" ∷ []

abbrev is_base64 : Json → Bool
is_base64 (str s) = is_base64_text s
is_base64 _ = false

abbrev wire_keys : List String
wire_keys = "formatVersion" ∷ "snapshot" ∷ "events" ∷ []

abbrev wire_extra_keys : List String
wire_extra_keys = "issuer" ∷ "alg" ∷ "kid" ∷ "signature" ∷ []

abbrev wire_events : Option Json → List SchemaValidationIssue
wire_events none = []
wire_events (some (arr xs)) = events_issues "$.events" 0 xs
wire_events (some _) = issue "$.events" type "must be array" ∷ []

abbrev needed : String → (Json → Bool) → Fields → List SchemaValidationIssue
needed k test fs = require_field "$" k test required "required when signature is present" fs

abbrev signed_issues : Bool → Fields → List SchemaValidationIssue
signed_issues true fs =
    needed "issuer" is_full_str fs
    ++ (needed "alg" (is_one_of ("Ed25519" ∷ [])) fs ++ needed "kid" is_full_str fs)
signed_issues false fs = []

unfoldable pub wire_issues : Fields → List SchemaValidationIssue
unfolding sorted missing push_additional value_of events_issues
wire_issues fs = sorted (
    missing "$" wire_keys fs
    ++ (push_additional "$" (wire_keys ++ wire_extra_keys) fs
        ++ (check_field "$" "formatVersion" is_one value "must equal 1" fs
            ++ (check_field "$" "snapshot" is_base64 format "must be base64 string" fs
                ++ (wire_events (value_of "events" fs)
                    ++ (check_field "$" "issuer" is_str type "must be string" fs
                        ++ (check_field "$" "alg" (is_one_of ("Ed25519" ∷ [])) enum
                              "must be Ed25519" fs
                            ++ (check_field "$" "kid" is_str type "must be string" fs
                                ++ (check_field "$" "signature" is_str type "must be string" fs
                                    ++ signed_issues
                                        (is_str (or_undefined (value_of "signature" fs)))
                                        fs)))))))))

unfoldable pub validate_verification_envelope_wire_json : Json → List SchemaValidationIssue
unfolding wire_issues
validate_verification_envelope_wire_json (obj fs) = wire_issues fs
validate_verification_envelope_wire_json _ = not_object

-- An issue's path shows where in the log it is.
rooted : replace_root "$[3]" "$.type" ≡ "$[3].type"
unfolding replace_root
rooted = refl
