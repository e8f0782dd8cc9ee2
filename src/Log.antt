-- ===== src/Log.antt =====
-- The hash-chained audit log, packages/core/src/audit/HashChainedLog.ts. Copies made by
-- `structuredClone` are the same values here.
use oxdeai_core.Prelude.{
  String, Bool, true, false, List, [], ◌∷◌, ◌++◌, ◌==◌, ◌&&◌, map, if◌then◌else◌,
}
use oxdeai_core.Crypto.{Host, ◌+++◌}
use oxdeai_core.Audit.{AuditEvent, canonicalize_entry}
pub mod Integrity
pub mod Heads

pub record ChainedEntry : Type 0 where
  pub event : AuditEvent
  pub prev_hash : String
  pub hash : String

pub record HashChainedLog : Type 0 where
  pub chain : List ChainedEntry
  pub head : String

abbrev pub genesis : String
genesis = "GENESIS"

abbrev pub new_log : HashChainedLog
new_log = record { chain = []; head = genesis }

-- What the hash of an entry is taken of.
unfoldable pub message : String → AuditEvent → String
message prev_hash event = prev_hash +++ "\n" +++ canonicalize_entry event

unfoldable pub snapshot : HashChainedLog → List AuditEvent
snapshot log = map (λ e. e.event) log.chain

unfoldable pub head_hash : HashChainedLog → String
head_hash log = log.head

-- The head stays when the chain is handed out.
unfoldable pub drain : HashChainedLog → HashChainedLog × List AuditEvent
unfolding snapshot
drain log = (record log { chain = [] }, snapshot log)

module _ (host : Host) where
  unfoldable pub compute_next_hash : String → AuditEvent → String
  unfolding message
  compute_next_hash prev_hash event = host.sha256 (message prev_hash event)

  unfoldable pub append : AuditEvent → HashChainedLog → HashChainedLog × String
  unfolding compute_next_hash
  append event log =
      let hash = compute_next_hash log.head event in
      (
        record {
          chain = log.chain ++ record { event = event; prev_hash = log.head; hash = hash } ∷ [];
          head = hash;
        },
        hash,
      )

  -- The loop of `verify` from the link `prev` on.
  unfoldable pub verify_from : String → List ChainedEntry → String → Bool
  unfolding compute_next_hash
  verify_from prev [] head = prev == head
  verify_from prev (e ∷ chain) head =
      (e.prev_hash == prev)
      && ((compute_next_hash e.prev_hash e.event == e.hash) && verify_from e.hash chain head)

  unfoldable pub verify : HashChainedLog → Bool
  unfolding verify_from
  verify log = verify_from genesis log.chain log.head
