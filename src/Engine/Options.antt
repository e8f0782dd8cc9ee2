-- ===== src/Engine/Options.antt =====
-- `EngineOptions`, the defaults, and the fields of `PolicyEngine`.
use oxdeai_core.Prelude.{ℕ, String, Bool, Option, none, List, [], get_or}
use oxdeai_core.Dict.{Dict}
use oxdeai_core.Json.{Json}
use oxdeai_core.Keyset.{SignatureAlgorithm, ed25519, hmac_sha256}
use oxdeai_core.State.{State}
use oxdeai_core.Audit.{AuditEvent}
use oxdeai_core.Log.{HashChainedLog, new_log}

pub data Mode : Type 0 where
  fail_fast collect_all : Mode

abbrev pub mode_name : Mode → String
mode_name fail_fast = "fail-fast"
mode_name collect_all = "collect-all"

-- `state_store` and `audit_sink` say whether the engine has one.
pub record EngineOptions : Type 0 where
  pub policy_version : String
  pub engine_secret : String
  pub authorization_ttl_seconds : Option ℕ
  pub authorization_issuer : Option String
  pub authorization_audience : Option String
  pub authorization_signing_alg : Option SignatureAlgorithm
  pub authorization_signing_kid : Option String
  pub authorization_private_key_pem : Option String
  pub deny_mode : Option Mode
  pub policy_id : Option String
  pub strict_determinism : Option Bool
  pub checkpoint_every_n_events : Option ℕ
  pub state_store : Bool
  pub audit_sink : Bool
  pub auto_persist : Option Bool

abbrev pub ttl_seconds : EngineOptions → ℕ
ttl_seconds opts = get_or opts.authorization_ttl_seconds 60

abbrev pub issuer : EngineOptions → String
issuer opts = get_or opts.authorization_issuer "oxdeai.policy-engine"

abbrev pub audience : EngineOptions → String
audience opts = get_or opts.authorization_audience "oxdeai.relying-party"

abbrev pub signing_alg : EngineOptions → SignatureAlgorithm
signing_alg opts = get_or opts.authorization_signing_alg hmac_sha256

abbrev default_kid : SignatureAlgorithm → String
default_kid ed25519 = "ed25519-default"
default_kid hmac_sha256 = "hmac-default"

abbrev pub signing_kid : EngineOptions → String
signing_kid opts = get_or opts.authorization_signing_kid (default_kid (signing_alg opts))

-- `CanonicalState` of packages/core/src/types/state.ts.
pub record CanonicalState : Type 0 where
  pub format_version : ℕ
  pub engine_version : String
  pub policy_id : String
  pub modules : Dict Json

-- The engine: `sunk` holds the events that have been handed to the sink and `stored` the snapshots
-- that have been handed to the state store, in order.
pub record PolicyEngine : Type 0 where
  pub opts : EngineOptions
  pub current_state : Option State
  pub audit_event_count : ℕ
  pub audit : HashChainedLog
  pub sunk : List AuditEvent
  pub stored : List CanonicalState

abbrev pub new_engine : EngineOptions → PolicyEngine
new_engine opts = record {
  opts = opts;
  current_state = none;
  audit_event_count = 0;
  audit = new_log;
  sunk = [];
  stored = [];
}
