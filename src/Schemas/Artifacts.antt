-- ===== src/Schemas/Artifacts.antt =====
-- The validators of canonical states, authorizations, intents, key sets and verification results, in
-- packages/core/src/schemas/validate.ts.
use oxdeai_core.Prelude.{
  ℕ, suc, String, Bool, true, false, not, List, [], ◌∷◌, ◌++◌, ◌&&◌, any, ◌==◌, show_ℕ,
}
use oxdeai_core.Crypto.{◌+++◌}
use oxdeai_core.Json.{Json, undefined, str, arr, obj, Items, nil, item, Fields}
use oxdeai_core.Schemas.{
  SchemaValidationIssue, issue, type, required, enum, format, value, value_of, is_str, is_full_str,
  is_one_of, is_object, is_array, is_bool, is_one, hex64, int_non_negative, bigint_like, js_string,
  issue_if, missing, check_field, require_field, or_undefined, push_additional, sorted, not_object,
}

-- The validators of an object's fields; a value that is not an object has one issue.
abbrev pub of_object : (Fields → List SchemaValidationIssue) → Json → List SchemaValidationIssue
of_object validate (obj fs) = validate fs
of_object validate _ = not_object

abbrev state_keys : List String
state_keys = "formatVersion" ∷ "engineVersion" ∷ "policyId" ∷ "modules" ∷ []

abbrev pub state_issues : Fields → List SchemaValidationIssue
state_issues fs = sorted (
    missing "$" state_keys fs
    ++ (push_additional "$" state_keys fs
        ++ (check_field "$" "formatVersion" is_one value "must equal 1" fs
            ++ (check_field "$" "engineVersion" is_str type "must be string" fs
                ++ (check_field "$" "policyId" is_full_str type "must be non-empty string" fs
                    ++ check_field "$" "modules" is_object type "must be object" fs)))))

unfoldable pub validate_canonical_state_json : Json → List SchemaValidationIssue
unfolding sorted missing push_additional value_of
validate_canonical_state_json v = of_object state_issues v

abbrev authorization_keys : List String
authorization_keys =
    "auth_id" ∷ "issuer" ∷ "audience" ∷ "intent_hash" ∷ "state_hash" ∷ "policy_id" ∷ "decision"
    ∷ "issued_at" ∷ "expiry" ∷ "alg" ∷ "kid" ∷ "signature" ∷ []

abbrev authorization_extra_keys : List String
authorization_extra_keys =
    "nonce" ∷ "capability" ∷ "signature" ∷ "authorization_id" ∷ "policy_version"
    ∷ "state_snapshot_hash" ∷ "expires_at" ∷ "engine_signature" ∷ []

abbrev is_undefined_or_str : Json → Bool
is_undefined_or_str undefined = true
is_undefined_or_str (str s) = true
is_undefined_or_str _ = false

abbrev text_check : String → Fields → List SchemaValidationIssue
text_check k fs = check_field "$" k is_full_str type "must be non-empty string" fs

abbrev hash_check : String → Fields → List SchemaValidationIssue
hash_check k fs = check_field "$" k hex64 format "must be 64-char lowercase hex" fs

abbrev time_check : String → Fields → List SchemaValidationIssue
time_check k fs = check_field "$" k int_non_negative type "must be non-negative integer" fs

abbrev authorization_fields : Fields → List SchemaValidationIssue
authorization_fields fs =
    text_check "auth_id" fs
    ++ (text_check "issuer" fs
        ++ (text_check "audience" fs
            ++ (hash_check "authorization_id" fs
                ++ (hash_check "intent_hash" fs
                    ++ (hash_check "state_hash" fs
                        ++ (hash_check "policy_id" fs
                            ++ (check_field "$" "policy_version" is_str type "must be string" fs
                                ++ (hash_check "state_snapshot_hash" fs
                                    ++ (check_field "$" "decision"
                                          (is_one_of ("ALLOW" ∷ "DENY" ∷ [])) enum
                                          "must be ALLOW or DENY" fs
                                        ++ (time_check "issued_at" fs
                                            ++ (time_check "expiry" fs
                                                ++ (check_field "$" "alg"
                                                      (is_one_of ("Ed25519" ∷ "HMAC-SHA256" ∷ []))
                                                      enum "must be Ed25519 or HMAC-SHA256" fs
                                                    ++ (text_check "kid" fs
                                                        ++ (time_check "expires_at" fs
                                                            ++ (hash_check "engine_signature" fs
                                                            ++ check_field "$" "signature"
                                                            is_undefined_or_str type
                                                            "must be string when present"
                                                            fs)))))))))))))))

unfoldable pub validate_authorization_json : Json → List SchemaValidationIssue
unfolding sorted missing push_additional value_of
validate_authorization_json v =
    of_object
      (λ fs. sorted (
        missing "$" authorization_keys fs
        ++ (push_additional "$" (authorization_keys ++ authorization_extra_keys) fs
            ++ authorization_fields fs)))
      v

abbrev intent_keys : List String
intent_keys =
    "intent_id" ∷ "agent_id" ∷ "action_type" ∷ "amount" ∷ "target" ∷ "timestamp" ∷ "metadata_hash"
    ∷ "nonce" ∷ "signature" ∷ []

abbrev intent_extra_keys : List String
intent_extra_keys = "asset" ∷ "depth" ∷ "type" ∷ "authorization_id" ∷ "tool" ∷ "tool_call" ∷ []

abbrev action_names : List String
action_names = "PAYMENT" ∷ "PURCHASE" ∷ "PROVISION" ∷ "ONCHAIN_TX" ∷ []

-- The value's text is one of the texts.
abbrev prints_as : List String → Json → Bool
prints_as texts v = any (λ t. t == js_string v) texts

abbrev is_intent_type : Json → Bool
is_intent_type undefined = true
is_intent_type v = is_one_of ("EXECUTE" ∷ "RELEASE" ∷ []) v

abbrev release_issues : Fields → List SchemaValidationIssue
release_issues fs =
    issue_if
      (is_one_of ("RELEASE" ∷ []) (or_undefined (value_of "type" fs))
        && not (is_full_str (or_undefined (value_of "authorization_id" fs))))
      "$.authorization_id" required "required for RELEASE"

abbrev integer_check : String → Fields → List SchemaValidationIssue
integer_check k fs = check_field "$" k bigint_like type "must be integer/bigint-like string" fs

unfoldable pub validate_intent_json : Json → List SchemaValidationIssue
unfolding sorted missing push_additional value_of js_string
validate_intent_json v =
    of_object
      (λ fs. sorted (
        missing "$" intent_keys fs
        ++ (require_field "$" "type" is_intent_type enum "must be EXECUTE or RELEASE" fs
            ++ (release_issues fs
                ++ (check_field "$" "action_type" (prints_as action_names) enum
                      "invalid action_type" fs
                    ++ (integer_check "amount" fs
                        ++ (integer_check "nonce" fs
                            ++ (time_check "timestamp" fs
                                ++ (time_check "depth" fs
                                    ++ push_additional "$" (intent_keys ++ intent_extra_keys)
                                        fs)))))))))
      v

-- Key sets.
abbrev key_set_keys : List String
key_set_keys = "issuer" ∷ "version" ∷ "keys" ∷ []

abbrev key_keys : List String
key_keys = "kid" ∷ "alg" ∷ "public_key" ∷ []

abbrev key_extra_keys : List String
key_extra_keys = "status" ∷ "not_before" ∷ "not_after" ∷ []

abbrev key_fields : String → Fields → List SchemaValidationIssue
key_fields path fs =
    missing path key_keys fs
    ++ (push_additional path (key_keys ++ key_extra_keys) fs
        ++ (check_field path "kid" is_full_str type "must be non-empty string" fs
            ++ (check_field path "alg" (is_one_of ("Ed25519" ∷ "HMAC-SHA256" ∷ [])) enum
                  "must be Ed25519 or HMAC-SHA256" fs
                ++ (check_field path "public_key" is_full_str type "must be non-empty string" fs
                    ++ (check_field path "status"
                          (is_one_of ("active" ∷ "retired" ∷ "revoked" ∷ [])) enum
                          "must be active, retired, or revoked" fs
                        ++ (check_field path "not_before" int_non_negative type
                              "must be non-negative integer" fs
                            ++ check_field path "not_after" int_non_negative type
                                "must be non-negative integer" fs))))))

abbrev key_issues : String → Json → List SchemaValidationIssue
key_issues path (obj fs) = key_fields path fs
key_issues path _ = issue path type "must be object" ∷ []

-- The loop over the keys.
unfoldable pub keys_issues : ℕ → Items → List SchemaValidationIssue
unfolding missing push_additional value_of
keys_issues i nil = []
keys_issues i (item v xs) = key_issues ("$.keys[" +++ show_ℕ i +++ "]") v ++ keys_issues (suc i) xs

abbrev array_issues : Json → List SchemaValidationIssue
array_issues (arr xs) = keys_issues 0 xs
array_issues _ = []

unfoldable pub validate_key_set_json : Json → List SchemaValidationIssue
unfolding sorted missing push_additional value_of keys_issues
validate_key_set_json v =
    of_object
      (λ fs. sorted (
        missing "$" key_set_keys fs
        ++ (push_additional "$" key_set_keys fs
            ++ (text_check "issuer" fs
                ++ (text_check "version" fs
                    ++ (check_field "$" "keys" is_array type "must be array" fs
                        ++ array_issues (or_undefined (value_of "keys" fs))))))))
      v

abbrev status_names : List String
status_names = "ok" ∷ "invalid" ∷ "inconclusive" ∷ []

unfoldable pub validate_verification_result_json : Json → List SchemaValidationIssue
unfolding sorted missing value_of js_string
validate_verification_result_json v =
    of_object
      (λ fs. sorted (
        missing "$" ("ok" ∷ "status" ∷ "violations" ∷ []) fs
        ++ (check_field "$" "ok" is_bool type "must be boolean" fs
            ++ (check_field "$" "status" (prints_as status_names) enum "invalid status" fs
                ++ check_field "$" "violations" is_array type "must be array" fs))))
      v
