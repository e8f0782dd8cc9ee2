-- ===== src/Envelope.antt =====
-- packages/core/src/verification/envelope.ts: a snapshot with the events of its log as one text that
-- may be signed. Texts stand for bytes. The events of a decoded envelope have passed their schema,
-- and are read as the records of the type `AuditEntry`.
pub mod RoundTrips
pub mod Readable
use oxdeai_core.Prelude.{
  ℕ, String, Bool, true, false, Option, none, some, List, [], ◌∷◌, ◌==◌, ◌>>=◌, ◌>>◌, require,
  if◌then◌else◌,
}
use oxdeai_core.Crypto.{Host, opt_field, envelope_v1, sign_ed25519}
use oxdeai_core.Json.{
  Json, num, str, arr, obj, Items, nil, item, Fields, end, field, canonical_json,
}
use oxdeai_core.Audit.{
  AuditEvent, EventBody, Decision, allowed, denied, intent_received, decision, auth_emitted,
  execution_attested, state_checkpoint, body_fields,
}
use oxdeai_core.CanonicalCodec.{as_text}
use oxdeai_core.Schemas.{SchemaValidationIssue, value_of, is_one}
use oxdeai_core.Schemas.Events.{validate_verification_envelope_wire_json}

-- What the text of an envelope needs of JSON.parse and Buffer: `none` is an exception.
pub record WireHost : Type 0 where
  pub parse : String → Option Json
  pub to_base64 : String → String

pub record VerificationEnvelopeV1 : Type 0 where
  pub snapshot : String
  pub events : List AuditEvent
  pub issuer : Option String
  pub alg : Option String
  pub kid : Option String
  pub signature : Option String

-- An event as an object; a missing policy id is left out.
unfoldable pub event_json : AuditEvent → Json
event_json e = obj (
    body_fields e.body
      (field "timestamp" (num e.timestamp) (opt_field "policyId" str e.policy_id end)))

unfoldable pub event_items : List AuditEvent → Items
unfolding event_json
event_items [] = nil
event_items (e ∷ es) = item (event_json e) (event_items es)

-- The fields of `toWire`, with a signature or without.
unfoldable pub wire_fields : WireHost → VerificationEnvelopeV1 → Option String → Json
unfolding event_items
wire_fields wire e signature = obj (
    field "formatVersion" (num 1) (
      field "snapshot" (str (wire.to_base64 e.snapshot)) (
        field "events" (arr (event_items e.events)) (
          opt_field "issuer" str e.issuer (
            opt_field "alg" str e.alg
              (opt_field "kid" str e.kid (opt_field "signature" str signature end)))))))

unfoldable pub to_wire : WireHost → VerificationEnvelopeV1 → Json
unfolding wire_fields
to_wire wire e = wire_fields wire e e.signature

unfoldable pub envelope_signing_payload : WireHost → VerificationEnvelopeV1 → Json
unfolding wire_fields
envelope_signing_payload wire e = wire_fields wire e none

unfoldable pub encode_envelope : WireHost → VerificationEnvelopeV1 → String
unfolding to_wire
encode_envelope wire e = canonical_json (to_wire wire e)

-- Reading events back.
abbrev as_number : Json → Option ℕ
as_number (num n) = some n
as_number _ = none

abbrev as_decision : Json → Option Decision
as_decision (str s) =
    if s == "ALLOW" then some allowed else if s == "DENY" then some denied else none
as_decision _ = none

unfoldable pub texts_of : Items → Option (List String)
texts_of nil = some []
texts_of (item v xs) = do s ← as_text v; ss ← texts_of xs; some (s ∷ ss)

unfoldable pub as_texts : Json → Option (List String)
unfolding texts_of
as_texts (arr xs) = texts_of xs
as_texts _ = none

module _ (fs : Fields) where
  unfoldable pub text_at : String → Option String
  unfolding value_of
  text_at k = value_of k fs >>= as_text

  unfoldable pub number_at : String → Option ℕ
  unfolding value_of
  number_at k = value_of k fs >>= as_number

  unfoldable pub body_of : String → Option EventBody
  unfolding value_of texts_of
  body_of t =
      if t == "INTENT_RECEIVED"
      then (do
        hash ← text_at "intent_hash"
        agent ← text_at "agent_id"
        some (intent_received hash agent))
      else if t == "DECISION"
      then (do
        hash ← text_at "intent_hash"
        verdict ← value_of "decision" fs >>= as_decision
        reasons ← value_of "reasons" fs >>= as_texts
        version ← text_at "policy_version"
        some (decision hash verdict reasons version))
      else if t == "AUTH_EMITTED"
      then (do
        id ← text_at "authorization_id"
        hash ← text_at "intent_hash"
        expires_at ← number_at "expires_at"
        some (auth_emitted id hash expires_at))
      else if t == "EXECUTION_ATTESTED"
      then (do
        hash ← text_at "intent_hash"
        ref ← text_at "execution_ref"
        some (execution_attested hash ref))
      else if t == "STATE_CHECKPOINT"
      then (do hash ← text_at "stateHash"; some (state_checkpoint hash))
      else none

-- The cast of a value to an event, as a reader. A policy id that is no text, which the schema refuses,
-- would count as missing.
unfoldable pub event_of : Json → Option AuditEvent
unfolding value_of texts_of
event_of (obj fs) = do
  t ← text_at fs "type"
  body ← body_of fs t
  timestamp ← number_at fs "timestamp"
  some (record { body = body; timestamp = timestamp; policy_id = text_at fs "policyId" })
event_of _ = none

unfoldable pub events_of : Items → Option (List AuditEvent)
unfolding event_of
events_of nil = some []
events_of (item v xs) = do e ← event_of v; es ← events_of xs; some (e ∷ es)

unfoldable pub as_events : Json → Option (List AuditEvent)
unfolding events_of
as_events (arr xs) = events_of xs
as_events _ = none

abbrev ed25519_text : Option String → Option String
ed25519_text none = none
ed25519_text (some s) = if s == "Ed25519" then some s else none

-- `assertEnvelope` and the decoding of the snapshot's base64.
unfoldable pub assert_envelope : Host → Json → Option VerificationEnvelopeV1
unfolding value_of events_of
assert_envelope host (obj fs) = do
  version ← value_of "formatVersion" fs
  require (is_one version)
  snapshot ← text_at fs "snapshot"
  events ← value_of "events" fs >>= as_events
  some (record {
    snapshot = host.from_base64 snapshot;
    events = events;
    issuer = text_at fs "issuer";
    alg = ed25519_text (text_at fs "alg");
    kid = text_at fs "kid";
    signature = text_at fs "signature";
  })
assert_envelope host _ = none

abbrev is_valid : List SchemaValidationIssue → Bool
is_valid [] = true
is_valid (_ ∷ _) = false

unfoldable pub decode_envelope : Host → WireHost → String → Option VerificationEnvelopeV1
unfolding assert_envelope validate_verification_envelope_wire_json
decode_envelope host wire bytes = do
  parsed ← wire.parse bytes
  require (is_valid (validate_verification_envelope_wire_json parsed))
  assert_envelope host parsed

-- `signEnvelopeEd25519`
unfoldable pub sign_envelope_ed25519 :
    Host
    → WireHost
    → VerificationEnvelopeV1
    → String
    → String
    → String
    → Option VerificationEnvelopeV1
unfolding envelope_signing_payload
sign_envelope_ed25519 host wire e issuer kid private_key = do
  let unsigned = record e {
    issuer = some issuer;
    alg = some "Ed25519";
    kid = some kid;
    signature = none;
  }
  signature ← sign_ed25519 host envelope_v1 (envelope_signing_payload wire unsigned) private_key
  some (record unsigned { signature = some signature })
