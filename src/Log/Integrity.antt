-- ===== src/Log/Integrity.antt =====
-- The audit log: what `append` keeps, and what a verified log is bound to.
use Prim.Native.String.{count}
use Prim.Native.String.append
use Prim.Native.String.count
use oxdeai_core.Prelude.{
  String, ◌≡◌, ◌≢◌, refl, sym, subst, ◌∙◌, ◌⊎◌, inl, inr, true, Bool-cases, List, [], ◌∷◌, ◌++◌,
  map, ◌==◌, eq_iff, eq_refl, arith, length, length-append, ◌+◌,
}
use mathlib.Core.Path.{ap₂}
use mathlib.Core.List.{map-append}
use oxdeai_core.Crypto.{Host, ◌+++◌}
use oxdeai_core.Audit.{AuditEvent, canonicalize_entry}
use oxdeai_core.Log.{
  ChainedEntry, HashChainedLog, genesis, message, snapshot, drain, head_hash, compute_next_hash,
  append, verify_from, verify,
}

-- Two texts that the hash does not tell apart.
pub record Collision (host : Host) (left right : String) : Type 0 where
  pub distinct : left ≢ right
  pub same : host.sha256 left ≡ host.sha256 right

-- Of the messages that two chains hash, the one from the link `p` over the events `es` and the other
-- from `q` over `fs`, two at the same position collide.
abbrev pub CollidesFrom : Host → String → String → List AuditEvent → List AuditEvent → Type 0
CollidesFrom host p q (e ∷ es) (f ∷ fs) =
    Collision host (message p e) (message q f)
    ⊎ CollidesFrom host (host.sha256 (message p e)) (host.sha256 (message q f)) es fs
CollidesFrom host p q _ _ = ⊥

-- The canonical texts of a chain's events.
abbrev pub contents : List ChainedEntry → List String
contents chain = map (λ e. canonicalize_entry e.event) chain

abbrev events_of : List ChainedEntry → List AuditEvent
events_of chain = map (λ e. e.event) chain

pub append-injective :
    (a b x y : String) → count a ≡ count b → (a +++ x) ≡ (b +++ y) → (a ≡ b) × (x ≡ y)
append-injective String.[] String.[] x y c e = (refl, sym (append.nil x) ∙ (e ∙ append.nil y))
append-injective String.[] (String.◌∷◌ d b) x y c e =
    absurd (ground (arith, count.nil, count.cons d b))
append-injective (String.◌∷◌ d a) String.[] x y c e =
    absurd (ground (arith, count.nil, count.cons d a))
append-injective (String.◌∷◌ d a) (String.◌∷◌ d' b) x y c e =
    let e' : String.◌∷◌ d (a +++ x) ≡ String.◌∷◌ d' (b +++ y) =
      sym (append.cons d a x) ∙ (e ∙ append.cons d' b y) in
    let (p, q) =
      append-injective a b x y (ground (arith, count.cons d a, count.cons d' b)) (cc e') in
    (cc (e', p), q)

module _ (host : Host) where
  verify_from-append :
      (prev head : String) (chain : List ChainedEntry) (event : AuditEvent)
      → verify_from host prev chain head ≡ true
      → verify_from host prev
          (chain
            ++ record { event = event; prev_hash = head; hash = compute_next_hash host head event }
              ∷ [])
          (compute_next_hash host head event)
        ≡ true
  unfolding verify_from
  verify_from-append prev head [] event h =
      ground
        (arith, eq_iff prev head, eq_iff head prev, eq_refl (compute_next_hash host head event))
  verify_from-append prev head (e ∷ chain) event h =
      ground (arith, verify_from-append e.hash head chain event)

  -- Appending to a log that verifies gives a log that verifies.
  pub verify-append :
      (event : AuditEvent) (log : HashChainedLog)
      → verify host log ≡ true
      → verify host (append host event log).0 ≡ true
  unfolding verify append
  verify-append event log h = verify_from-append genesis log.head log.chain event h

  pub verify_from_link :
      (p head : String) (e : ChainedEntry) (c : List ChainedEntry)
      → verify_from host p (e ∷ c) head ≡ true
      → (e.prev_hash ≡ p)
        × (host.sha256 (message p e.event) ≡ e.hash)
        × (verify_from host e.hash c head ≡ true)
  unfolding verify_from compute_next_hash
  verify_from_link p head e c h =
      ground
        (arith, eq_iff e.prev_hash p, eq_iff (host.sha256 (message e.prev_hash e.event)) e.hash)

  -- Equal hashes of two messages: a collision, or the same link and the same event.
  pub same_message :
      (p q : String) (e f : AuditEvent)
      → count p ≡ count q
      → host.sha256 (message p e) ≡ host.sha256 (message q f)
      → Collision host (message p e) (message q f)
        ⊎ ((p ≡ q) × (canonicalize_entry e ≡ canonicalize_entry f))
  unfolding message
  same_message p q e f n h = elim (Bool-cases (message p e == message q f)) [
    | inl same ↦
        let (link, rest) = append-injective p q _ _ n ((eq_iff _ _).0 same) in
        inr (link, (append-injective "\n" "\n" _ _ refl rest).1)
    | inr differ ↦
        inl
          (record { distinct = λ eq. ground (arith, eq_iff (message p e) (message q f)); same = h })
  ]

  -- Either the chains hold the same contents from the same link on, or two messages collide.
  same_contents :
      ((s t : String) → count (host.sha256 s) ≡ count (host.sha256 t))
      → (p q head : String) (c d : List ChainedEntry) → count p ≡ count q
      → length c ≡ length d
      → verify_from host p c head ≡ true
      → verify_from host q d head ≡ true
      → CollidesFrom host p q (events_of c) (events_of d) ⊎ ((p ≡ q) × (contents c ≡ contents d))
  unfolding verify_from
  same_contents digest p q head [] [] n l h k =
      inr (ground (arith, eq_iff p head, eq_iff q head), refl)
  same_contents digest p q head [] (f ∷ d) n l h k = absurd (omega arith)
  same_contents digest p q head (e ∷ c) [] n l h k = absurd (omega arith)
  same_contents digest p q head (e ∷ c) (f ∷ d) n l h k =
      let (pe, he, ke) = verify_from_link p head e c h in
      let (pf, hf, kf) = verify_from_link q head f d k in
      let left = host.sha256 (message p e.event) in
      let right = host.sha256 (message q f.event) in
      elim (same_contents digest left right head c d
        (digest (message p e.event) (message q f.event)) (omega arith)
        (subst (λ x. verify_from host x c head ≡ true) (sym he) ke)
        (subst (λ x. verify_from host x d head ≡ true) (sym hf) kf)) [
          | inl collides ↦ inl (inr collides)
          | inr (same_hash, rest) ↦ elim (same_message p q e.event f.event n same_hash) [
            | inl collision ↦ inl (inl collision)
            | inr (link, here) ↦ inr (link, ap₂ (λ x xs. x ∷ xs) here rest)
          ]
        ]

  -- Tamper evidence: where digests have one length, two verified logs with the same number of
  -- entries and the same head hash hold events with the same canonical texts, in the same order,
  -- or at some position the messages that the two chains hash there, each its link and its event,
  -- differ and have one hash.
  pub verify_tamper_evident :
      (l m : HashChainedLog)
      → ((s t : String) → count (host.sha256 s) ≡ count (host.sha256 t))
      → length l.chain ≡ length m.chain
      → verify host l ≡ true
      → verify host m ≡ true
      → head_hash l ≡ head_hash m
      → CollidesFrom host genesis genesis (snapshot l) (snapshot m)
        ⊎ (contents l.chain ≡ contents m.chain)
  unfolding verify head_hash snapshot
  verify_tamper_evident l m digest n h k same =
      let k' : verify_from host genesis m.chain l.head ≡ true = rw same k in
      elim (same_contents digest genesis genesis l.head l.chain m.chain refl n h k') [
        | inl collides ↦ inl collides
        | inr (_, rest) ↦ inr rest
      ]

  -- A log that hands out its events keeps its head, so that it verifies again only if the head is
  -- still the initial one.
  pub verify-drain : (log : HashChainedLog) → verify host (drain log).0 ≡ (genesis == head_hash log)
  unfolding verify verify_from drain head_hash
  verify-drain log = refl

  -- What a log shows after an append is what it showed before, and the event.
  pub snapshot-append :
      (event : AuditEvent) (log : HashChainedLog)
      → snapshot (append host event log).0 ≡ snapshot log ++ event ∷ []
  unfolding snapshot append
  snapshot-append event log = rw map-append

  pub length-append_chain :
      (event : AuditEvent) (log : HashChainedLog)
      → length (append host event log).0.chain ≡ length log.chain + 1
  unfolding append
  length-append_chain event log = omega (arith, length-append {0} log.chain)
