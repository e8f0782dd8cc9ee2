-- ===== src/Audit.antt =====
-- Audit events, packages/core/src/audit/AuditLog.ts, and their canonical text.
use oxdeai_core.Prelude.{ℕ, String, Option, none, some, List, [], ◌∷◌}
use oxdeai_core.Json.{
  Json, null, num, str, arr, obj, Items, nil, item, Fields, end, field, canonical_json,
}

pub data Decision : Type 0 where
  allowed denied : Decision

abbrev pub decision_name : Decision → String
decision_name allowed = "ALLOW"
decision_name denied = "DENY"

-- What an event of each type carries.
pub data EventBody : Type 0 where
  intent_received : String → String → EventBody
  decision : String → Decision → List String → String → EventBody
  auth_emitted : String → String → ℕ → EventBody
  execution_attested : String → String → EventBody
  state_checkpoint : String → EventBody

pub record AuditEvent : Type 0 where
  pub body : EventBody
  pub timestamp : ℕ
  pub policy_id : Option String

abbrev pub str_items : List String → Items
str_items [] = nil
str_items (s ∷ ss) = item (str s) (str_items ss)

-- The fields of each type of event, put in front of those that all events have.
abbrev pub body_fields : EventBody → Fields → Fields
body_fields (intent_received intent_hash agent_id) fs =
    field "type" (str "INTENT_RECEIVED")
      (field "intent_hash" (str intent_hash) (field "agent_id" (str agent_id) fs))
body_fields (decision intent_hash verdict reasons policy_version) fs =
    field "type" (str "DECISION") (
      field "intent_hash" (str intent_hash) (
        field "decision" (str (decision_name verdict)) (
          field "reasons" (arr (str_items reasons))
            (field "policy_version" (str policy_version) fs))))
body_fields (auth_emitted authorization_id intent_hash expires_at) fs =
    field "type" (str "AUTH_EMITTED") (
      field "authorization_id" (str authorization_id)
        (field "intent_hash" (str intent_hash) (field "expires_at" (num expires_at) fs)))
body_fields (execution_attested intent_hash execution_ref) fs =
    field "type" (str "EXECUTION_ATTESTED")
      (field "intent_hash" (str intent_hash) (field "execution_ref" (str execution_ref) fs))
body_fields (state_checkpoint state_hash) fs =
    field "type" (str "STATE_CHECKPOINT") (field "stateHash" (str state_hash) fs)

-- `policyId: e.policyId ?? null`
abbrev policy_id_json : Option String → Json
policy_id_json none = null
policy_id_json (some p) = str p

-- `canonicalizeEntry`
unfoldable pub canonicalize_entry : AuditEvent → String
canonicalize_entry e = canonical_json (
    obj (
      body_fields e.body
        (field "timestamp" (num e.timestamp) (field "policyId" (policy_id_json e.policy_id) end))))
