-- ===== src/Sdk/Builders.antt =====
-- packages/sdk/src/builders.ts, with the inputs of packages/sdk/src/types.ts.
use oxdeai_core.Prelude.{
  ℕ, ℤ, pos, String, Bool, false, Option, none, some, List, [], ◌∷◌, get_or, is_truthy,
  if◌then◌else◌,
}
use oxdeai_core.Intent.{ActionType, provision, IntentType, execute, release, Intent}
use oxdeai_core.State.{State}

pub record IntentBuilderInput : Type 0 where
  pub intent_id : String
  pub agent_id : String
  pub action_type : ActionType
  pub amount : ℤ
  pub target : String
  pub nonce : ℤ
  pub timestamp : Option ℕ
  pub type : Option IntentType
  pub authorization_id : Option String
  pub asset : Option String
  pub metadata_hash : Option String
  pub signature : Option String
  pub depth : Option ℕ
  pub tool : Option String
  pub tool_call : Option Bool

pub record StateBuilderInput : Type 0 where
  pub policy_version : Option String
  pub period_id : Option String
  pub agent_id : String
  pub allow_action_types : Option (List ActionType)
  pub allow_assets : Option (List String)
  pub allow_targets : Option (List String)
  pub budget_limit : Option ℤ
  pub spent_in_period : Option ℤ
  pub max_amount_per_action : Option ℤ
  pub velocity_window_seconds : Option ℕ
  pub velocity_max_actions : Option ℕ
  pub replay_window_seconds : Option ℕ
  pub replay_max_nonces_per_agent : Option ℕ
  pub max_concurrent : Option ℕ
  pub max_depth : Option ℕ
  pub tool_window_seconds : Option ℕ
  pub tool_max_calls : Option ℕ

abbrev pub zero_hash : String
zero_hash = "0x0000000000000000000000000000000000000000000000000000000000000000"

-- The object `base`, with the type and the authorization of each branch.
abbrev pub with_type : IntentBuilderInput → IntentType → Intent
with_type input type = record {
  intent_id = input.intent_id;
  agent_id = input.agent_id;
  action_type = input.action_type;
  depth = input.depth;
  amount = input.amount;
  asset = input.asset;
  target = input.target;
  timestamp = get_or input.timestamp 0;
  metadata_hash = get_or input.metadata_hash zero_hash;
  nonce = input.nonce;
  signature = get_or input.signature "sdk-signature-placeholder";
  tool = input.tool;
  tool_call = input.tool_call;
  type = some type;
  authorization_id = input.authorization_id;
}

abbrev build_as : IntentType → IntentBuilderInput → Option Intent
build_as release input =
    if is_truthy input.authorization_id then some (with_type input release) else none
build_as execute input = some (with_type input execute)

-- `none`: a RELEASE intent names no authorization, and an error is thrown.
unfoldable pub build_intent : IntentBuilderInput → Option Intent
build_intent input = build_as (get_or input.type execute) input

unfoldable pub build_state : StateBuilderInput → State
build_state input =
    let agent = input.agent_id in
    record {
      policy_version = get_or input.policy_version "v1";
      period_id = get_or input.period_id "default-period";
      kill_switch = record { global = false; agents = [] };
      allowlists = record {
        action_types = some (get_or input.allow_action_types (provision ∷ []));
        assets = some (get_or input.allow_assets []);
        targets = some (get_or input.allow_targets []);
      };
      budget = record {
        budget_limit = (agent, get_or input.budget_limit (pos 1000000)) ∷ [];
        spent_in_period = (agent, get_or input.spent_in_period (pos 0)) ∷ [];
      };
      max_amount_per_action = (agent, get_or input.max_amount_per_action (pos 1000000)) ∷ [];
      velocity = record {
        config = record {
          window_seconds = get_or input.velocity_window_seconds 60;
          max_actions = get_or input.velocity_max_actions 1000;
        };
        counters = [];
      };
      replay = record {
        window_seconds = get_or input.replay_window_seconds 3600;
        max_nonces_per_agent = get_or input.replay_max_nonces_per_agent 256;
        nonces = [];
      };
      concurrency = record {
        max_concurrent = (agent, get_or input.max_concurrent 16) ∷ [];
        active = [];
        active_auths = [];
      };
      recursion = record { max_depth = (agent, get_or input.max_depth 8) ∷ [] };
      tool_limits = some (record {
        window_seconds = get_or input.tool_window_seconds 60;
        max_calls = (agent, get_or input.tool_max_calls 1000) ∷ [];
        max_calls_by_tool = some [];
        calls = [];
      });
    }
