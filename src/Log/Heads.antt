-- ===== src/Log/Heads.antt =====
-- The head of a hash chain as a function of its start and its events, by which the log and the two
-- verifiers of events can be compared.
use Prim.Native.String.{count}
use Prim.Native.String.append
use text.Mathlib.TextLemmas.{append_assoc}
use oxdeai_core.Prelude.{
  String, ◌≡◌, ◌≢◌, refl, sym, ap, ◌∙◌, inl, inr, true, Bool-cases, List, [], ◌∷◌, map, ◌==◌,
  eq_iff, arith,
}
use oxdeai_core.Crypto.{Host, ◌+++◌}
use oxdeai_core.Audit.{AuditEvent, canonicalize_entry}
use oxdeai_core.Log.{
  ChainedEntry, HashChainedLog, genesis, message, snapshot, head_hash, compute_next_hash,
  verify_from, verify,
}
use oxdeai_core.Log.Integrity.{CollidesFrom, append-injective, verify_from_link}

module _ (host : Host) where
  unfoldable pub chain_head : String → List AuditEvent → String
  chain_head prev [] = prev
  chain_head prev (e ∷ es) = chain_head (compute_next_hash host prev e) es

  verify_from-chain_head :
      (prev head : String) (chain : List ChainedEntry)
      → verify_from host prev chain head ≡ true
      → chain_head prev (map (λ e. e.event) chain) ≡ head
  unfolding verify_from chain_head compute_next_hash
  verify_from-chain_head prev head [] h = (eq_iff prev head).0 h
  verify_from-chain_head prev head (e ∷ chain) h =
      let (link, hash, rest) = verify_from_link host prev head e chain h in
      ap (λ p. chain_head p (map (λ x. x.event) chain)) hash
      ∙ verify_from-chain_head e.hash head chain rest

  -- A log that verifies has the head that its events give from the initial one.
  pub head_hash-verify :
      (log : HashChainedLog)
      → verify host log ≡ true
      → chain_head genesis (snapshot log) ≡ head_hash log
  unfolding verify snapshot head_hash
  head_hash-verify log h = verify_from-chain_head genesis log.head log.chain h

  -- Different links of one length give different messages.
  message_link-ne :
      (p q : String) (e : AuditEvent) → count p ≡ count q → p ≢ q → message p e ≢ message q e
  unfolding message
  message_link-ne p q e n differ eq = differ (append-injective p q _ _ n eq).0

  -- Chains with the same events and the same head, whose first messages differ.
  next_links :
      ((s t : String) → count (host.sha256 s) ≡ count (host.sha256 t))
      → (p q : String) (e : AuditEvent) (es : List AuditEvent) → message p e ≢ message q e
      → chain_head p (e ∷ es) ≡ chain_head q (e ∷ es)
      → CollidesFrom host p q (e ∷ es) (e ∷ es)
  unfolding chain_head compute_next_hash
  next_links digest p q e [] differ h = inl (record { distinct = differ; same = h })
  next_links digest p q e (f ∷ es) differ h =
      let left = host.sha256 (message p e) in
      let right = host.sha256 (message q e) in
      elim (Bool-cases (left == right)) [
        | inl same ↦ inl (record { distinct = differ; same = (eq_iff left right).0 same })
        | inr other ↦ inr (
            next_links digest left right f es
              (message_link-ne left right f (digest _ _) (λ eq. ground (arith, eq_iff left right)))
              h)
      ]

  message-start_ne : (e : AuditEvent) → message "" e ≢ message genesis e
  unfolding message
  message-start_ne e h =
      let (first, _) =
        append-injective "\n" "G" (canonicalize_entry e)
          ("ENESIS" +++ ("\n" +++ canonicalize_entry e)) refl
          (sym (append.nil ("\n" +++ canonicalize_entry e))
            ∙ (h ∙ append_assoc "G" "ENESIS" ("\n" +++ canonicalize_entry e))) in
      absurd (cc ((eq_iff "\n" "G").1 first))

  -- No chain of events has the same head from the empty text and from the log's initial head, but
  -- by a collision of the messages that the two chains hash.
  pub start_matters :
      ((s t : String) → count (host.sha256 s) ≡ count (host.sha256 t))
      → (e : AuditEvent) (es : List AuditEvent)
      → chain_head "" (e ∷ es) ≡ chain_head genesis (e ∷ es)
      → CollidesFrom host "" genesis (e ∷ es) (e ∷ es)
  start_matters digest e es h = next_links digest "" genesis e es (message-start_ne e) h
