-- ===== src/Envelope/RoundTrips.antt =====
-- Envelopes and their events, read back from their wire form.
use oxdeai_core.Prelude.{
  ◌≡◌, refl, ap, ◌∙◌, String, ℕ, eq_refl, Option, none, some, List, [], ◌∷◌, ◌>>=◌,
}
use oxdeai_core.Json.{
  Json, num, str, arr, obj, Fields, end, field, canonicalize, canonicalize_items,
  canonicalize_fields, sort_fields,
}
use oxdeai_core.Crypto.{Host, opt_field}
use oxdeai_core.Audit.{
  AuditEvent, EventBody, allowed, denied, intent_received, decision, auth_emitted,
  execution_attested, state_checkpoint, str_items,
}
use oxdeai_core.CanonicalCodec.{as_text}
use oxdeai_core.Schemas.{value_of}
use oxdeai_core.Schemas.Lookup.{value_of-sort_fields, value_of-opt_field}
use oxdeai_core.Schemas.Events.{validate_verification_envelope_wire_json}
use oxdeai_core.Envelope.{
  WireHost, VerificationEnvelopeV1, event_json, event_items, to_wire, encode_envelope, texts_of,
  as_texts, text_at, number_at, body_of, event_of, events_of, as_events, assert_envelope,
  ed25519_text, decode_envelope,
}

texts_back : (ss : List String) → texts_of (canonicalize_items (str_items ss)) ≡ some ss
unfolding texts_of canonicalize
texts_back [] = refl
texts_back (s ∷ ss) = rw (texts_back ss) refl

body_back :
    (b : EventBody) (t : ℕ) (p : Option String)
    → event_of (canonicalize (event_json (record { body = b; timestamp = t; policy_id = p })))
      ≡ some (record { body = b; timestamp = t; policy_id = p })
unfolding event_of event_json canonicalize sort_fields value_of body_of text_at number_at as_texts
body_back (intent_received h a) t none = refl
body_back (intent_received h a) t (some p) = refl
body_back (decision h allowed r v) t none = rw (texts_back r) refl
body_back (decision h allowed r v) t (some p) = rw (texts_back r) refl
body_back (decision h denied r v) t none = rw (texts_back r) refl
body_back (decision h denied r v) t (some p) = rw (texts_back r) refl
body_back (auth_emitted i h x) t none = refl
body_back (auth_emitted i h x) t (some p) = refl
body_back (execution_attested h ref) t none = refl
body_back (execution_attested h ref) t (some p) = refl
body_back (state_checkpoint h) t none = refl
body_back (state_checkpoint h) t (some p) = refl

event_back : (e : AuditEvent) → event_of (canonicalize (event_json e)) ≡ some e
event_back e = body_back e.body e.timestamp e.policy_id

events_back : (es : List AuditEvent) → events_of (canonicalize_items (event_items es)) ≡ some es
unfolding events_of event_items canonicalize
events_back [] = refl
events_back (e ∷ es) = rw (event_back e, events_back es) refl

-- A text that may be missing, where nothing behind it has its key.
opt_text :
    (k : String) (o : Option String) (fs : Fields)
    → value_of k (canonicalize_fields fs) ≡ none
    → (value_of k (canonicalize_fields (opt_field k str o fs)) >>= as_text) ≡ o
unfolding value_of canonicalize
opt_text k none fs h = rw h refl
opt_text k (some s) fs h = rw (eq_refl k) refl

module _ (wire : WireHost) (e : VerificationEnvelopeV1) where
  -- The fields of the wire form from the key id, the algorithm and the issuer on.
  abbrev from_kid : Fields
  from_kid = opt_field "kid" str e.kid (opt_field "signature" str e.signature end)

  abbrev from_alg : Fields
  from_alg = opt_field "alg" str e.alg from_kid

  abbrev from_issuer : Fields
  from_issuer = opt_field "issuer" str e.issuer from_alg

  abbrev all_fields : Fields
  all_fields = field "formatVersion" (num 1) (
      field "snapshot" (str (wire.to_base64 e.snapshot))
        (field "events" (arr (event_items e.events)) from_issuer))

  abbrev sorted_fields : Fields
  sorted_fields = sort_fields (canonicalize_fields all_fields)

  sorted_wire : canonicalize (to_wire wire e) ≡ obj sorted_fields
  unfolding canonicalize to_wire
  sorted_wire = refl

  read_at :
      {A : Type 0} (k : String) (f : Json → Option A) (o : Option A)
      → (value_of k (canonicalize_fields all_fields) >>= f) ≡ o
      → (value_of k sorted_fields >>= f) ≡ o
  read_at k f o h = ap (λ v. v >>= f) (value_of-sort_fields k (canonicalize_fields all_fields)) ∙ h

  read_issuer : text_at sorted_fields "issuer" ≡ e.issuer
  unfolding text_at value_of canonicalize
  read_issuer = read_at "issuer" as_text e.issuer (
      opt_text "issuer" e.issuer from_alg (
        value_of-opt_field "issuer" "alg" str e.alg from_kid refl
        ∙ value_of-opt_field "issuer" "kid" str e.kid (opt_field "signature" str e.signature end)
            refl
        ∙ value_of-opt_field "issuer" "signature" str e.signature end refl))

  read_alg : text_at sorted_fields "alg" ≡ e.alg
  unfolding text_at value_of canonicalize
  read_alg = read_at "alg" as_text e.alg (
      ap (λ v. v >>= as_text) (value_of-opt_field "alg" "issuer" str e.issuer from_alg refl)
      ∙ opt_text "alg" e.alg from_kid (
          value_of-opt_field "alg" "kid" str e.kid (opt_field "signature" str e.signature end) refl
          ∙ value_of-opt_field "alg" "signature" str e.signature end refl))

  read_kid : text_at sorted_fields "kid" ≡ e.kid
  unfolding text_at value_of canonicalize
  read_kid = read_at "kid" as_text e.kid (
      ap (λ v. v >>= as_text)
        (value_of-opt_field "kid" "issuer" str e.issuer from_alg refl
          ∙ value_of-opt_field "kid" "alg" str e.alg from_kid refl)
      ∙ opt_text "kid" e.kid (opt_field "signature" str e.signature end)
          (value_of-opt_field "kid" "signature" str e.signature end refl))

  read_signature : text_at sorted_fields "signature" ≡ e.signature
  unfolding text_at value_of canonicalize
  read_signature = read_at "signature" as_text e.signature (
      ap (λ v. v >>= as_text)
        (value_of-opt_field "signature" "issuer" str e.issuer from_alg refl
          ∙ value_of-opt_field "signature" "alg" str e.alg from_kid refl
          ∙ value_of-opt_field "signature" "kid" str e.kid
              (opt_field "signature" str e.signature end) refl)
      ∙ opt_text "signature" e.signature end refl)

  read_snapshot : text_at sorted_fields "snapshot" ≡ some (wire.to_base64 e.snapshot)
  unfolding text_at value_of canonicalize
  read_snapshot = read_at "snapshot" as_text (some (wire.to_base64 e.snapshot)) refl

  read_events : (value_of "events" sorted_fields >>= as_events) ≡ some e.events
  unfolding value_of canonicalize as_events
  read_events = read_at "events" as_events (some e.events) (events_back e.events)

  read_version : value_of "formatVersion" sorted_fields ≡ some (num 1)
  unfolding value_of canonicalize
  read_version = value_of-sort_fields "formatVersion" (canonicalize_fields all_fields)

-- An envelope, signed or not, is decoded to what was encoded, where its wire form has no issue of
-- its schema, its algorithm is Ed25519 or none, parsing the text gives back its canonical form, and
-- base64 its bytes.
pub decode-encode_envelope :
    (host : Host) (wire : WireHost) (e : VerificationEnvelopeV1)
    → validate_verification_envelope_wire_json (canonicalize (to_wire wire e)) ≡ []
    → ed25519_text e.alg ≡ e.alg
    → wire.parse (encode_envelope wire e) ≡ some (canonicalize (to_wire wire e))
    → host.from_base64 (wire.to_base64 e.snapshot) ≡ e.snapshot
    → decode_envelope host wire (encode_envelope wire e) ≡ some e
unfolding decode_envelope assert_envelope
decode-encode_envelope host wire e admitted alg parsed base64 =
    rw
      (
        parsed,
        admitted,
        sorted_wire wire e,
        read_version wire e,
        read_snapshot wire e,
        read_events wire e,
        read_issuer wire e,
        read_alg wire e,
        read_kid wire e,
        read_signature wire e,
        alg,
        base64,
      )
      refl
