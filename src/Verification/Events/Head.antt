-- ===== src/Verification/Events/Head.antt =====
-- The head that the audit verifier reports, packages/core/src/verification/verifyAuditEvents.ts.
use Prim.Native.String.{count}
use oxdeai_core.Prelude.{
  arith, ℕ, suc, String, ◌≡◌, refl, sym, ap, ◌∙◌, true, some, List, [], ◌∷◌, map, All,
}
use oxdeai_core.Crypto.{Host}
use oxdeai_core.Audit.{AuditEvent}
use oxdeai_core.Log.{HashChainedLog, genesis, snapshot, head_hash, verify}
use oxdeai_core.Log.Integrity.{CollidesFrom}
use oxdeai_core.Log.Heads.{chain_head, head_hash-verify, start_matters}
use oxdeai_core.Verification.Events.{
  VerifyAuditOptions, Scan, start, schema_violations, at_index, body_issues, scan_event,
  scan_events, scan_checked, finish_scan, verify_audit_events,
}

-- The event's schema admits it.
abbrev pub IsAdmitted : AuditEvent → Type 0
IsAdmitted e = schema_violations 0 e ≡ []

map_nil : {A B : Type 0} (f g : A → B) (xs : List A) → map f xs ≡ [] → map g xs ≡ []
map_nil f g [] h = refl
map_nil f g (x ∷ xs) h = absurd (cc h)

admitted_anywhere : (i : ℕ) (e : AuditEvent) → IsAdmitted e → schema_violations i e ≡ []
unfolding schema_violations
admitted_anywhere i e h = map_nil (at_index 0) (at_index i) (body_issues e.body) h

module _ (host : Host) where
  scan_events-chain_head :
      (opts : VerifyAuditOptions) (i : ℕ) (es : List AuditEvent) (s : Scan)
      → All IsAdmitted es
      → (scan_events host opts i es s).head ≡ chain_head host s.head es
  unfolding scan_events scan_event chain_head
  scan_events-chain_head opts i [] s p = refl
  scan_events-chain_head opts i (e ∷ es) s (p, ps) =
      ap (λ vs. (scan_events host opts (suc i) es (scan_checked host opts i e s vs)).head)
        (admitted_anywhere i e p)
      ∙ scan_events-chain_head opts (suc i) es (scan_event host opts i e s) ps

  finish_scan-head :
      (opts : VerifyAuditOptions) (s : Scan)
      → (finish_scan host opts s).audit_head_hash ≡ some s.head
  unfolding finish_scan
  finish_scan-head opts s = ground arith

  -- The audit verifier starts its chain at the empty text, the log at its initial head: where
  -- digests have one length, the verifier reports the log's head for the events of a log that is
  -- not empty and whose chain verifies only if at some position the message that the verifier
  -- hashes and the one that the log hashes differ and have one hash, if all events are well formed.
  pub audit_head-ne_log_head :
      ((s t : String) → count (host.sha256 s) ≡ count (host.sha256 t))
      → (log : HashChainedLog) (e : AuditEvent) (es : List AuditEvent) (opts : VerifyAuditOptions)
      → snapshot log ≡ e ∷ es
      → All IsAdmitted (e ∷ es)
      → verify host log ≡ true
      → (verify_audit_events host (snapshot log) opts).audit_head_hash ≡ some (head_hash log)
      → CollidesFrom host "" genesis (e ∷ es) (e ∷ es)
  unfolding verify_audit_events
  audit_head-ne_log_head digest log e es opts shown admitted h same =
      let logged : chain_head host genesis (e ∷ es) ≡ head_hash log =
        ap (chain_head host genesis) (sym shown) ∙ head_hash-verify host log h in
      let scanned : (verify_audit_events host (e ∷ es) opts).audit_head_hash
          ≡ some (chain_head host "" (e ∷ es)) =
        finish_scan-head opts (scan_events host opts 0 (e ∷ es) start)
        ∙ ap some (scan_events-chain_head opts 0 (e ∷ es) start admitted) in
      let reported : (verify_audit_events host (e ∷ es) opts).audit_head_hash
          ≡ some (head_hash log) =
        ap (λ xs. (verify_audit_events host xs opts).audit_head_hash) (sym shown) ∙ same in
      start_matters host digest e es (cc (logged, scanned, reported))
