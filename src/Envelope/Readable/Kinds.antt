-- ===== src/Envelope/Readable/Kinds.antt =====
-- The typed fields of an event of each type, where its schema finds no issue.
use oxdeai_core.Prelude.{
  ◌≡◌, ◌⊎◌, refl, sym, ap, subst, ◌∙◌, String, Bool, Bool-cases, false, none, some, List, [], ◌∷◌,
  ◌==◌, ◌||◌, any, eq_iff, arith, inl, inr, if◌then◌else◌,
}
use oxdeai_core.Json.{str, Fields, end, field}
use oxdeai_core.Audit.{
  EventBody, Decision, allowed, denied, intent_received, decision, auth_emitted, execution_attested,
  state_checkpoint, decision_name, str_items, body_fields,
}
use oxdeai_core.Schemas.{SchemaValidationIssue, value_of, keys_of}
use oxdeai_core.Schemas.Events.{
  received_issues, decision_issues, emitted_issues, attested_issues, checkpoint_issues,
  typed_issues,
}
use oxdeai_core.Envelope.Readable.Checks.{
  append_nil, not_nil, no_issue, full_read, str_read, number_read, array_read, verdict_read,
  additional_nil,
}
use oxdeai_core.Envelope.{as_decision, texts_of, as_texts, text_at, number_at, body_of}

texts_of-str_items : (ss : List String) → texts_of (str_items ss) ≡ some ss
unfolding texts_of
texts_of-str_items [] = refl
texts_of-str_items (s ∷ ss) = rw (texts_of-str_items ss) refl

as_decision-decision_name : (d : Decision) → as_decision (str (decision_name d)) ≡ some d
as_decision-decision_name allowed = refl
as_decision-decision_name denied = refl

-- The key is one of those of the fields.
abbrev pub has_field : String → Fields → Bool
has_field k fs = any (λ j. j == k) (keys_of fs)

pub has_field-body :
    (k : String) (b : EventBody) (tail : Fields)
    → has_field k (body_fields b tail) ≡ (has_field k (body_fields b end) || has_field k tail)
unfolding keys_of
has_field-body k (intent_received h a) tail = ground arith
has_field-body k (decision h d r v) tail = ground arith
has_field-body k (auth_emitted i h x) tail = ground arith
has_field-body k (execution_attested h r) tail = ground arith
has_field-body k (state_checkpoint h) tail = ground arith

module _ (fs : Fields) where
  -- The object has these fields.
  abbrev pub Matches : Fields → Type 0
  Matches end = Unit
  Matches (field k v gs) = (value_of k fs ≡ some v) × Matches gs

  pub Matches-body :
      (b : EventBody) (tail : Fields)
      → Matches (body_fields b end)
      → Matches tail
      → Matches (body_fields b tail)
  Matches-body (intent_received h a) tail (x, (y, (z, _))) t = (x, (y, (z, t)))
  Matches-body (decision h d r v) tail (x, (y, (z, (u, (w, _))))) t = (x, (y, (z, (u, (w, t)))))
  Matches-body (auth_emitted i h e) tail (x, (y, (z, (u, _)))) t = (x, (y, (z, (u, t))))
  Matches-body (execution_attested h r) tail (x, (y, (z, _))) t = (x, (y, (z, t)))
  Matches-body (state_checkpoint h) tail (x, (y, _)) t = (x, (y, t))

  -- At each key, either the same value, or nothing is among the fields.
  pub Matches-at :
      (k : String) (gs : Fields)
      → Matches gs
      → (value_of k fs ≡ value_of k gs) ⊎ ((has_field k gs ≡ false) × (value_of k gs ≡ none))
  unfolding value_of keys_of
  Matches-at k end m = inr (refl, refl)
  Matches-at k (field j v gs) (e, m) = elim (Bool-cases (j == k)) [
    | inl same ↦ inl (ap (λ i. value_of i fs) (sym ((eq_iff j k).0 same)) ∙ e ∙ (rw same refl))
    | inr other ↦ rw other (Matches-at k gs m)
  ]

  -- What the fields of an event's type are, and that no other field is there, but for two.
  pub record IsBody (t : String) : Type 0 where
    pub body : EventBody
    pub read : body_of fs t ≡ some body
    pub matches : Matches (body_fields body end)
    pub alone :
        (k : String)
        → has_field k (body_fields body end) ≡ false
        → ("timestamp" == k) ≡ false
        → ("policyId" == k) ≡ false
        → value_of k fs ≡ none

  abbrev pub Kind : String → Type 0
  Kind t = value_of "type" fs ≡ some (str t)

  received_read : received_issues fs ≡ [] → Kind "INTENT_RECEIVED" → IsBody "INTENT_RECEIVED"
  unfolding body_of text_at keys_of
  received_read h kind =
      let (h1, k1) = append_nil _ _ h in
      let (h2, only) = append_nil _ _ k1 in
      let (hash, e1) = full_read (value_of "intent_hash" fs) (no_issue _ _ _ _ h1) in
      let (agent, e2) = str_read (value_of "agent_id" fs) (no_issue _ _ _ _ h2) in
      record {
        body = intent_received hash agent;
        read = rw (e1, e2) refl;
        matches = (kind, (e1, (e2, tt)));
        alone = λ k a b c. additional_nil _ fs only k (ground (arith, a, b, c));
      }

  decision_read : decision_issues fs ≡ [] → Kind "DECISION" → IsBody "DECISION"
  unfolding body_of text_at as_texts keys_of
  decision_read h kind =
      let (h1, k1) = append_nil _ _ h in
      let (h2, k2) = append_nil _ _ k1 in
      let (h3, k3) = append_nil _ _ k2 in
      let (h4, only) = append_nil _ _ k3 in
      let (hash, e1) = full_read (value_of "intent_hash" fs) (no_issue _ _ _ _ h1) in
      let (verdict, e2) = verdict_read (value_of "decision" fs) (no_issue _ _ _ _ h2) in
      let (reasons, e3) = array_read (value_of "reasons" fs) (no_issue _ _ _ _ h3) in
      let (version, e4) = str_read (value_of "policy_version" fs) (no_issue _ _ _ _ h4) in
      record {
        body = decision hash verdict reasons version;
        read =
            rw (e1, e2, e3, e4, as_decision-decision_name verdict, texts_of-str_items reasons) refl;
        matches = (kind, (e1, (e2, (e3, (e4, tt)))));
        alone = λ k a b c. additional_nil _ fs only k (ground (arith, a, b, c));
      }

  emitted_read : emitted_issues fs ≡ [] → Kind "AUTH_EMITTED" → IsBody "AUTH_EMITTED"
  unfolding body_of text_at number_at keys_of
  emitted_read h kind =
      let (h1, k1) = append_nil _ _ h in
      let (h2, k2) = append_nil _ _ k1 in
      let (h3, only) = append_nil _ _ k2 in
      let (id, e1) = full_read (value_of "authorization_id" fs) (no_issue _ _ _ _ h1) in
      let (hash, e2) = full_read (value_of "intent_hash" fs) (no_issue _ _ _ _ h2) in
      let (time, e3) = number_read (value_of "expires_at" fs) (no_issue _ _ _ _ h3) in
      record {
        body = auth_emitted id hash time;
        read = rw (e1, e2, e3) refl;
        matches = (kind, (e1, (e2, (e3, tt))));
        alone = λ k a b c. additional_nil _ fs only k (ground (arith, a, b, c));
      }

  attested_read : attested_issues fs ≡ [] → Kind "EXECUTION_ATTESTED" → IsBody "EXECUTION_ATTESTED"
  unfolding body_of text_at keys_of
  attested_read h kind =
      let (h1, k1) = append_nil _ _ h in
      let (h2, only) = append_nil _ _ k1 in
      let (hash, e1) = full_read (value_of "intent_hash" fs) (no_issue _ _ _ _ h1) in
      let (ref, e2) = str_read (value_of "execution_ref" fs) (no_issue _ _ _ _ h2) in
      record {
        body = execution_attested hash ref;
        read = rw (e1, e2) refl;
        matches = (kind, (e1, (e2, tt)));
        alone = λ k a b c. additional_nil _ fs only k (ground (arith, a, b, c));
      }

  checkpoint_read : checkpoint_issues fs ≡ [] → Kind "STATE_CHECKPOINT" → IsBody "STATE_CHECKPOINT"
  unfolding body_of text_at keys_of
  checkpoint_read h kind =
      let (h1, only) = append_nil _ _ h in
      let (hash, e1) = full_read (value_of "stateHash" fs) (no_issue _ _ _ _ h1) in
      record {
        body = state_checkpoint hash;
        read = rw e1 refl;
        matches = (kind, (e1, tt));
        alone = λ k a b c. additional_nil _ fs only k (ground (arith, a, b, c));
      }

  -- An event of the type `name`, or what the other types give.
  Kind-read :
      (t name : String) (own others : List SchemaValidationIssue)
      → (own ≡ [] → Kind name → IsBody name)
      → (others ≡ [] → Kind t → IsBody t)
      → (if t == name then own else others) ≡ []
      → Kind t
      → IsBody t
  Kind-read t name own others here there h kind = elim (Bool-cases (t == name)) [
    | inl e ↦
        let same = (eq_iff t name).0 e in
        subst IsBody (sym same)
          (here (ap (λ c. if c then own else others) (sym e) ∙ h) (subst Kind same kind))
    | inr e ↦ there (ap (λ c. if c then own else others) (sym e) ∙ h) kind
  ]

  pub typed_read : (t : String) → typed_issues t fs ≡ [] → Kind t → IsBody t
  typed_read t h =
      Kind-read t "INTENT_RECEIVED" (received_issues fs) _ received_read
        (Kind-read t "DECISION" (decision_issues fs) _ decision_read (
          Kind-read t "AUTH_EMITTED" (emitted_issues fs) _ emitted_read (
            Kind-read t "EXECUTION_ATTESTED" (attested_issues fs) _ attested_read (
              Kind-read t "STATE_CHECKPOINT" (checkpoint_issues fs) _ checkpoint_read
                (λ h. absurd (not_nil _ _ h))))))
        h
