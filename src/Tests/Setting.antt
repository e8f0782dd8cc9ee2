-- ===== src/Tests/Setting.antt =====
-- A concrete host, engine, state and intents, on which the theorems are tried.
use Prim.Native.String.{count}
use oxdeai_core.Prelude.{◌%◌, String, Bool, true, false, none, some, [], ◌∷◌, pos, nat_eq}
use oxdeai_core.Crypto.{Host}
use oxdeai_core.Intent.{Intent, payment, release}
use oxdeai_core.State.{State}
use oxdeai_core.Engine.Options.{EngineOptions, PolicyEngine, new_engine}

-- A digest of one letter: the parity of the text's length.
abbrev pub parity : Bool → String
parity true = "e"
parity false = "o"

abbrev pub toy_host : Host
toy_host = record {
  sha256 = λ s. parity (nat_eq (count s % 2) 0);
  hmac_sha256 = λ secret s. parity (nat_eq (count s % 2) 0);
  from_hex = λ s. count s ∷ [];
  from_base64 = λ s. s;
  ed25519_sign = λ key s. some "signature";
  ed25519_verify = λ key s signature. some true;
}

abbrev pub options : EngineOptions
options = record {
  policy_version = "v1";
  engine_secret = "secret";
  authorization_ttl_seconds = none;
  authorization_issuer = none;
  authorization_audience = none;
  authorization_signing_alg = none;
  authorization_signing_kid = none;
  authorization_private_key_pem = none;
  deny_mode = none;
  policy_id = some "policy";
  strict_determinism = none;
  checkpoint_every_n_events = none;
  state_store = false;
  audit_sink = true;
  auto_persist = none;
}

abbrev pub engine : PolicyEngine
engine = new_engine options

abbrev pub state : State
state = record {
  policy_version = "v1";
  period_id = "p";
  kill_switch = record { global = false; agents = [] };
  allowlists = record {
    action_types = some (payment ∷ []);
    assets = none;
    targets = some ("shop" ∷ "bank" ∷ []);
  };
  budget = record { budget_limit = ("a", pos 100) ∷ []; spent_in_period = ("a", pos 10) ∷ [] };
  max_amount_per_action = ("a", pos 99) ∷ [];
  velocity = record {
    config = record { window_seconds = 60; max_actions = 3 };
    counters = ("a", record { window_start = 990; count = 1 }) ∷ [];
  };
  replay = record {
    window_seconds = 100;
    max_nonces_per_agent = 2;
    nonces = ("a", record { nonce = "6"; ts = 990 } ∷ []) ∷ [];
  };
  concurrency = record {
    max_concurrent = ("a", 2) ∷ [];
    active = ("a", 1) ∷ [];
    active_auths = ("a", ("old", record { expires_at = 1050 }) ∷ []) ∷ [];
  };
  recursion = record { max_depth = ("a", 1) ∷ [] };
  tool_limits = some (record {
    window_seconds = 60;
    max_calls = ("a", 5) ∷ [];
    max_calls_by_tool = some (("a", ("card", 2) ∷ []) ∷ []);
    calls = [];
  });
}

-- An action of 40 at the shop.
abbrev pub pay : Intent
pay = record {
  intent_id = "i";
  agent_id = "a";
  action_type = payment;
  depth = some 1;
  amount = pos 40;
  asset = none;
  target = "shop";
  timestamp = 1000;
  metadata_hash = "m";
  nonce = pos 7;
  signature = "s";
  tool = some "card";
  tool_call = some true;
  type = none;
  authorization_id = none;
}

-- An action of 95, which the cap of one action admits and the budget does not hold.
abbrev pub costly : Intent
costly = record pay { amount = pos 95 }

-- Frees the slot of the authorization that the agent holds.
abbrev pub dismiss : Intent
dismiss = record pay { type = some release; authorization_id = some "old" }
