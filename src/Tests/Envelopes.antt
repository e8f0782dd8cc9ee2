-- ===== src/Tests/Envelopes.antt =====
-- Theorems on envelopes at a concrete envelope.
use oxdeai_core.Prelude.{◌≡◌, refl, eq_refl, true, none, some, List, [], ◌∷◌, ◌==◌, if◌then◌else◌}
use oxdeai_core.Json.{Json, num, str, arr, obj, nil, item, end, field, canonicalize}
use oxdeai_core.Keyset.{KeySet, ed25519, active, find_key_in_key_sets, key_is_active_at}
use oxdeai_core.Crypto.{verify_ed25519}
use oxdeai_core.Audit.{denied, decision, state_checkpoint}
use oxdeai_core.Schemas.Events.{validate_audit_event_json, validate_verification_envelope_wire_json}
use oxdeai_core.Envelope.{
  WireHost, VerificationEnvelopeV1, to_wire, encode_envelope, decode_envelope,
}
use oxdeai_core.Envelope.{event_of}
use oxdeai_core.Envelope.Readable.{IsEvent, validate_audit_event_json-IsEvent}
use oxdeai_core.Envelope.RoundTrips.{decode-encode_envelope}
use oxdeai_core.Verification.Envelopes.{VerifyEnvelopeOptions, verify_envelope}
use oxdeai_core.Verification.Envelopes.Sound.{IsAcceptable, accepted_envelope}
use oxdeai_core.Tests.Setting.{toy_host}

abbrev snapshot : Json
snapshot = obj (
    field "formatVersion" (num 1) (
      field "engineVersion" (str "e")
        (field "policyId" (str "policy") (field "modules" (obj end) end))))

abbrev checkpoint : Json
checkpoint = obj (
    field "type" (str "STATE_CHECKPOINT") (
      field "stateHash" (str "h")
        (field "timestamp" (num 5) (field "policyId" (str "policy") end))))

abbrev envelope : Json
envelope = obj (
    field "formatVersion" (num 1) (
      field "snapshot" (str "snap") (
        field "events" (arr (item checkpoint nil)) (
          field "issuer" (str "i") (
            field "alg" (str "Ed25519")
              (field "kid" (str "k") (field "signature" (str "s") end)))))))

-- Two texts that can be read: the snapshot's and the envelope's.
abbrev wire : WireHost
wire = record {
  parse = λ text. if text == "snap" then some snapshot else some envelope;
  to_base64 = λ s. s;
}

abbrev keys : List KeySet
keys =
    record {
      issuer = "i";
      version = "1";
      keys =
          record {
            kid = "k";
            alg = ed25519;
            public_key = "BEGIN key";
            status = some active;
            not_before = none;
            not_after = some 100;
          }
          ∷ [];
    }
    ∷ []

abbrev options : VerifyEnvelopeOptions
options = record {
  now = some 50;
  expected_policy_id = some "policy";
  mode = none;
  expected_issuer = some "i";
  trusted_key_sets = some keys;
  require_signature_verification = some true;
}

envelope_ok : (verify_envelope toy_host wire "envelope" options 0).ok ≡ true
unfolding verify_envelope oxdeai_core.Schemas.is_base64_text oxdeai_core.Envelope.text_at
    oxdeai_core.Envelope.as_events oxdeai_core.Envelope.body_of oxdeai_core.Envelope.number_at
    oxdeai_core.Verification.Snapshots.verify_snapshot oxdeai_core.CanonicalCodec.as_record
    oxdeai_core.CanonicalCodec.state_json oxdeai_core.Verification.Events.verify_audit_events
    find_key_in_key_sets key_is_active_at verify_ed25519
envelope_ok = refl

accepted_envelope_example : IsAcceptable toy_host wire "envelope" options 0
accepted_envelope_example = accepted_envelope toy_host wire "envelope" options 0 refl envelope_ok

abbrev signed : VerificationEnvelopeV1
signed = record {
  snapshot = "snap";
  events =
      record {
        body = decision "h" denied ("BUDGET_EXCEEDED" ∷ []) "v1";
        timestamp = 4;
        policy_id = none;
      }
      ∷ record { body = state_checkpoint "h"; timestamp = 5; policy_id = some "policy" }
      ∷ [];
  issuer = some "i";
  alg = some "Ed25519";
  kid = some "k";
  signature = some "s";
}

-- Reads the one text that is there.
abbrev echo : WireHost
echo = record {
  parse = λ text.
      if text == encode_envelope wire signed
      then some (canonicalize (to_wire wire signed))
      else none;
  to_base64 = λ s. s;
}

admitted : validate_verification_envelope_wire_json (canonicalize (to_wire echo signed)) ≡ []
unfolding validate_verification_envelope_wire_json canonicalize to_wire
    oxdeai_core.Schemas.is_base64_text
admitted = refl

decode-encode_envelope_example :
    decode_envelope toy_host echo (encode_envelope echo signed) ≡ some signed
unfolding encode_envelope canonicalize
decode-encode_envelope_example =
    decode-encode_envelope toy_host echo signed admitted refl
      (rw (eq_refl (encode_envelope echo signed)) refl) refl

checkpoint_admitted : validate_audit_event_json checkpoint ≡ []
unfolding validate_audit_event_json
checkpoint_admitted = refl

validate_audit_event_json-IsEvent_example : IsEvent checkpoint
validate_audit_event_json-IsEvent_example =
    validate_audit_event_json-IsEvent checkpoint checkpoint_admitted
