-- ===== src/Verification/Replays/Head.antt =====
-- The head that the replay verifier reports, packages/core/src/replay/verify.ts.
use oxdeai_core.Prelude.{ℕ, suc, String, ◌≡◌, refl, ◌∙◌, true, Option, none, List, [], ◌∷◌}
use oxdeai_core.Crypto.{Host}
use oxdeai_core.Audit.{AuditEvent}
use oxdeai_core.Log.{HashChainedLog, genesis, snapshot, head_hash, verify}
use oxdeai_core.Log.Heads.{chain_head, head_hash-verify}
use oxdeai_core.Verification.Replays.{
  VerifyViolation, VerifyOptions, Pass, pass_event, pass_events, conclude, verify_replay_events,
}

module _ (host : Host) where
  pass_events-chain_head :
      (i : ℕ) (es : List AuditEvent) (p : Pass)
      → (pass_events host i es p).head ≡ chain_head host p.head es
  unfolding pass_events pass_event chain_head
  pass_events-chain_head i [] p = refl
  pass_events-chain_head i (e ∷ es) p = pass_events-chain_head (suc i) es (pass_event host i e p)

  conclude-head :
      (opts : VerifyOptions) (observed : Option String) (count : ℕ) (head : String)
      (vs : List VerifyViolation)
      → (conclude host opts observed count head vs).audit_head_hash ≡ head
  conclude-head opts observed count head [] = refl
  conclude-head opts observed count head (v ∷ vs) = refl

  -- The replay verifier, given the events of a log whose chain verifies, reports that log's head,
  -- whatever violations it finds and with any options.
  pub replay_head-log_head :
      (log : HashChainedLog) (opts : VerifyOptions)
      → verify host log ≡ true
      → (verify_replay_events host (snapshot log) opts).audit_head_hash ≡ head_hash log
  unfolding verify_replay_events
  replay_head-log_head log opts h =
      conclude-head opts _ _ _ _
      ∙ (pass_events-chain_head 0 (snapshot log)
            (record { violations = []; checkpoint_count = 0; head = genesis; previous = none })
          ∙ head_hash-verify host log h)
