-- ===== src/Intent.antt =====
-- Intents, packages/core/src/types/intent.ts. `number` values are natural numbers, `bigint` values
-- are integers, and an optional field is an `Option`.
use oxdeai_core.Prelude.{ℕ, ℤ, String, Bool, true, false, Option, get_or}

pub data ActionType : Type 0 where
  payment purchase provision onchain_tx : ActionType

pub data IntentType : Type 0 where
  execute release : IntentType

-- Both members of the union: `authorization_id` is optional at run time, and the engine tests it.
pub record Intent : Type 0 where
  pub intent_id : String
  pub agent_id : String
  pub action_type : ActionType
  pub depth : Option ℕ
  pub amount : ℤ
  pub asset : Option String
  pub target : String
  pub timestamp : ℕ
  pub metadata_hash : String
  pub nonce : ℤ
  pub signature : String
  pub tool : Option String
  pub tool_call : Option Bool
  pub type : Option IntentType
  pub authorization_id : Option String

-- `intent.type ?? "EXECUTE"`
abbrev pub intent_type : Intent → IntentType
intent_type i = get_or i.type execute

abbrev pub is_release : IntentType → Bool
is_release release = true
is_release execute = false

-- The text of an action type.
abbrev pub action_name : ActionType → String
action_name payment = "PAYMENT"
action_name purchase = "PURCHASE"
action_name provision = "PROVISION"
action_name onchain_tx = "ONCHAIN_TX"

abbrev pub type_name : IntentType → String
type_name execute = "EXECUTE"
type_name release = "RELEASE"
