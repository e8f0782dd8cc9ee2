-- ===== src/Envelope/Readable.antt =====
-- `validateAuditEventJson` of packages/core/src/schemas/validate.ts is what justifies the cast of an
-- envelope's events in packages/core/src/verification/envelope.ts: a value that passes is an event.
pub mod Checks
pub mod Kinds
use oxdeai_core.Prelude.{
  ℕ, ◌≡◌, refl, sym, ap, ◌∙◌, String, Bool-cases, true, false, Option, none, some, [], ◌==◌, ◌>>=◌,
  ◌||◌, eq_iff, arith, inl, inr,
}
use oxdeai_core.Json.{Json, str, num, obj, Fields, end, field}
use oxdeai_core.Crypto.{opt_field}
use oxdeai_core.Audit.{AuditEvent, body_fields}
use oxdeai_core.CanonicalCodec.{as_text}
use oxdeai_core.Schemas.{value_of, keys_of, or_undefined, check_field, is_str, type}
use oxdeai_core.Schemas.Events.{validate_audit_event_json, typed_issues, event_issues}
use oxdeai_core.Envelope.Readable.Checks.{
  opt_str, append_nil, not_nil, sorted_nil, no_issue, no_issue_if, number_read, optional_read,
}
use oxdeai_core.Envelope.Readable.Kinds.{
  has_field, has_field-body, Matches, Matches-body, Matches-at, IsBody, Kind, typed_read,
}
use oxdeai_core.Envelope.{text_at, number_at, event_of, event_json}

-- What an object has at a key.
abbrev pub field_at : String → Json → Option Json
field_at k (obj fs) = value_of k fs
field_at k _ = none

-- The value is read as the event, and has at every key what the event's own object has.
pub record IsEvent (v : Json) : Type 0 where
  pub event : AuditEvent
  pub read : event_of v ≡ some event
  pub fields : (k : String) → field_at k v ≡ field_at k (event_json event)

opt_text : (p : Option String) → (opt_str p >>= as_text) ≡ p
opt_text none = refl
opt_text (some s) = refl

module _ (fs : Fields) where
  -- Either the policy id is a field of the event, or it is missing.
  policy-Matches :
      (p : Option String)
      → value_of "policyId" fs ≡ opt_str p
      → Matches fs (opt_field "policyId" str p end)
  policy-Matches none e = tt
  policy-Matches (some s) e = (e, tt)

  policy_absent :
      (p : Option String) (k : String)
      → value_of "policyId" fs ≡ opt_str p
      → has_field k (opt_field "policyId" str p end) ≡ false
      → ((k' : String) → ("policyId" == k') ≡ false → k' ≡ k → value_of k fs ≡ none)
      → value_of k fs ≡ none
  unfolding keys_of
  policy_absent none k e absent other = elim (Bool-cases ("policyId" == k)) [
    | inl same ↦ ap (λ j. value_of j fs) (sym ((eq_iff "policyId" k).0 same)) ∙ e
    | inr differ ↦ other k differ refl
  ]
  policy_absent (some s) k e absent other = other k (ground (arith, absent)) refl

  module _ (t : String) (b : IsBody fs t) (time : ℕ) (p : Option String)
      (timed : value_of "timestamp" fs ≡ some (num time))
      (policy : value_of "policyId" fs ≡ opt_str p) where
    abbrev tail : Fields
    tail = field "timestamp" (num time) (opt_field "policyId" str p end)

    all_fields : (k : String) → value_of k fs ≡ value_of k (body_fields b.body tail)
    unfolding keys_of
    all_fields k =
        elim (Matches-at fs k (body_fields b.body tail)
          (Matches-body fs b.body tail b.matches (timed, policy-Matches p policy))) [
            | inl e ↦ e
            | inr (absent, e) ↦
                let split = has_field-body k b.body tail in
                policy_absent p k policy (ground (arith, absent, split)) (λ j differ same.
                  b.alone k (ground (arith, absent, split)) (ground (arith, absent, split))
                    (ap (λ i. "policyId" == i) (sym same) ∙ differ))
                ∙ sym e
          ]

  event_issues-IsEvent :
      (v : Option Json)
      → value_of "type" fs ≡ v
      → event_issues fs (or_undefined v) ≡ []
      → IsEvent (obj fs)
  unfolding event_of text_at number_at event_json
  event_issues-IsEvent (some (str t)) e h =
      let (h1, k) = append_nil _ _ (sorted_nil _ h) in
      let check = check_field "$" "policyId" is_str type "policyId must be string" fs in
      let (h2, h3) = append_nil check (typed_issues t fs) k in
      let (time, timed) = number_read (value_of "timestamp" fs) (no_issue _ _ _ _ h1) in
      let (p, policy) = optional_read (value_of "policyId" fs) (no_issue_if _ _ _ _ h2) in
      let b = typed_read fs t h3 e in
      record {
        event = record { body = b.body; timestamp = time; policy_id = p };
        read = rw (e, timed, policy, b.read, opt_text p) refl;
        fields = all_fields t b time p timed policy;
      }
  event_issues-IsEvent none e h = absurd (not_nil _ _ h)
  event_issues-IsEvent (some _) e h = absurd (not_nil _ _ h)

-- Every value that has no issue of the schema of audit events is read as an event of one of the five
-- types, and has at every key just what the object of that event has there: the type, each field of
-- the type with a value of the field's own type, the time, a policy id only if it is a text, and
-- nothing else.
pub validate_audit_event_json-IsEvent : (v : Json) → validate_audit_event_json v ≡ [] → IsEvent v
unfolding validate_audit_event_json
validate_audit_event_json-IsEvent (obj fs) h = event_issues-IsEvent fs (value_of "type" fs) refl h
validate_audit_event_json-IsEvent _ h = absurd (not_nil _ _ h)
