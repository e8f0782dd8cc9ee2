-- ===== src/Sdk/Client/Artifacts.antt =====
-- `verifyCurrentArtifacts` of packages/sdk/src/client.ts: the client verifies what its engine would
-- show of the stored state and of its log. A `mode` that is not given is "best-effort".
use oxdeai_core.Prelude.{
  ℕ, String, ◌≡◌, refl, sym, ap, ◌∙◌, true, Option, none, some, some_injective, subst, arith, List,
  [], has_text, get_or,
}
use oxdeai_core.Json.{canonicalize, canonical_json}
use oxdeai_core.Crypto.{Host}
use oxdeai_core.State.{State}
use oxdeai_core.Audit.{AuditEvent}
use oxdeai_core.Log.{snapshot}
use oxdeai_core.CanonicalCodec.{state_json, encode_canonical_state}
use oxdeai_core.Engine.Options.{CanonicalState}
use oxdeai_core.Engine.Snapshot.{compute_policy_id, compute_state_hash_for, export_state}
use oxdeai_core.Schemas.Events.{validate_verification_envelope_wire_json}
use oxdeai_core.Envelope.{
  WireHost, VerificationEnvelopeV1, to_wire, encode_envelope, decode_envelope,
}
use oxdeai_core.Envelope.RoundTrips.{decode-encode_envelope}
use oxdeai_core.Verification.Types.{VerificationResult, ok}
use oxdeai_core.Verification.Snapshots.{verify_snapshot}
use oxdeai_core.Verification.Snapshots.Exported.{exported_snapshot_verifies}
use oxdeai_core.Verification.Events.{
  AuditMode, best_effort, VerifyAuditOptions, verify_audit_events,
}
use oxdeai_core.Verification.Envelopes.{
  VerifyEnvelopeOptions, combine, signature_violations, verify_decoded, verify_envelope,
}
use oxdeai_core.Sdk.Adapters.{Async, fulfilled, ◌>>=◌, pure}
use oxdeai_core.Sdk.Guard.{GuardState, lift, or_reject}
use oxdeai_core.Sdk.Guard.Enforces.{bind-next}
use oxdeai_core.Sdk.Client.{ClientOptions}

pub record VerifyBundleResult : Type 0 where
  pub snapshot : VerificationResult
  pub audit : VerificationResult
  pub envelope : VerificationResult

abbrev pub audit_options : Option AuditMode → VerifyAuditOptions
audit_options mode = record {
  expected_policy_id = none;
  mode = some (get_or mode best_effort);
  require_state_anchors = none;
}

abbrev pub envelope_options : Option AuditMode → VerifyEnvelopeOptions
envelope_options mode = record {
  now = none;
  expected_policy_id = none;
  mode = some (get_or mode best_effort);
  expected_issuer = none;
  trusted_key_sets = none;
  require_signature_verification = none;
}

abbrev pub unsigned_envelope : String → List AuditEvent → VerificationEnvelopeV1
unsigned_envelope bytes events = record {
  snapshot = bytes;
  events = events;
  issuer = none;
  alg = none;
  kid = none;
  signature = none;
}

module _ (host : Host) (wire : WireHost) where
  -- The three results on the bytes of the snapshot and the events of the log.
  unfoldable pub verify_artifacts :
      Option AuditMode → ℕ → String → List AuditEvent → VerifyBundleResult
  verify_artifacts mode clock bytes events = record {
    snapshot = verify_snapshot host wire.parse bytes none;
    audit = verify_audit_events host events (audit_options mode);
    envelope =
        verify_envelope host wire (encode_envelope wire (unsigned_envelope bytes events))
          (envelope_options mode) clock;
  }

  -- What follows once the state is loaded; an export that throws rejects the call.
  abbrev pub verify_loaded :
      {W : Type 0}
      → ClientOptions W
      → Option AuditMode
      → State
      → Async (GuardState W) VerifyBundleResult
  verify_loaded opts mode state g =
      (do
        exported ← or_reject (export_state host g.engine.opts state)
        bytes ← or_reject (encode_canonical_state exported)
        pure (verify_artifacts mode opts.clock bytes (snapshot g.engine.audit)))
        g

  unfoldable pub verify_current_artifacts :
      {W : Type 0} → ClientOptions W → Option AuditMode → Async (GuardState W) VerifyBundleResult
  unfolding verify_artifacts
  verify_current_artifacts opts mode = do
    state ← lift opts.state_adapter.load
    verify_loaded opts mode state

-- An envelope without a signature, where none is required, is judged by its parts alone.
unsigned_verdict :
    (host : Host) (wire : WireHost) (mode : Option AuditMode) (clock : ℕ) (bytes : String)
    (events : List AuditEvent)
    → decode_envelope host wire (encode_envelope wire (unsigned_envelope bytes events))
      ≡ some (unsigned_envelope bytes events)
    → (verify_artifacts host wire mode clock bytes events).envelope
      ≡ combine host wire []
          (verify_artifacts host wire mode clock bytes events).snapshot
          (verify_artifacts host wire mode clock bytes events).audit
unfolding verify_artifacts verify_envelope signature_violations
unsigned_verdict host wire mode clock bytes events h =
    ap (λ o. verify_decoded host wire o (envelope_options mode) clock) h

fulfils :
    (host : Host) (wire : WireHost) {W : Type 0} (opts : ClientOptions W) (mode : Option AuditMode)
    (g : GuardState W) (state : State) (w : W) (snap : CanonicalState) (bytes : String)
    → opts.state_adapter.load g.world ≡ fulfilled state w
    → export_state host g.engine.opts state ≡ some snap
    → encode_canonical_state snap ≡ some bytes
    → verify_current_artifacts host wire opts mode g
      ≡ fulfilled
          (verify_artifacts host wire mode opts.clock bytes (snapshot g.engine.audit))
          (record g { world = w })
unfolding verify_current_artifacts
fulfils host wire opts mode g state w snap bytes loads exports encodes =
    bind-next opts.state_adapter.load (verify_loaded host wire opts mode) g state w loads
    ∙ ground (arith, exports, encodes)

-- In a state that can be loaded, exported and encoded, the client's verification of its current artifacts is
-- fulfilled and changes neither the engine nor the cursor: the snapshot is accepted with the
-- engine's policy id and the hash that the engine computes of that state, the events are judged as
-- the whole log, and the envelope's verdict combines just these two, if the policy id is not empty,
-- parsing gives back canonical forms, base64 the bytes, and the envelope's wire form has no issue
-- of its schema.
pub client_artifacts_agree :
    (host : Host) (wire : WireHost) {W : Type 0} (opts : ClientOptions W) (mode : Option AuditMode)
    (g : GuardState W) (state : State) (w : W) (snap : CanonicalState) (bytes : String)
    → opts.state_adapter.load g.world ≡ fulfilled state w
    → export_state host g.engine.opts state ≡ some snap
    → encode_canonical_state snap ≡ some bytes
    → has_text (compute_policy_id host g.engine.opts) ≡ true
    → wire.parse (canonical_json (state_json snap)) ≡ some (canonicalize (state_json snap))
    → wire.parse (encode_envelope wire (unsigned_envelope bytes (snapshot g.engine.audit)))
      ≡ some (canonicalize (to_wire wire (unsigned_envelope bytes (snapshot g.engine.audit))))
    → host.from_base64 (wire.to_base64 bytes) ≡ bytes
    → validate_verification_envelope_wire_json
        (canonicalize (to_wire wire (unsigned_envelope bytes (snapshot g.engine.audit))))
      ≡ []
    → (r : VerifyBundleResult) × (verify_current_artifacts host wire opts mode g
        ≡ fulfilled r (record g { world = w }))
      × (r.snapshot ≡ record {
        ok = true;
        status = ok;
        violations = [];
        policy_id = some (compute_policy_id host g.engine.opts);
        state_hash = compute_state_hash_for host g.engine.opts state;
        audit_head_hash = none;
      })
      × (r.audit ≡ verify_audit_events host (snapshot g.engine.audit) (audit_options mode))
      × (r.envelope ≡ combine host wire [] r.snapshot r.audit)
unfolding verify_current_artifacts
client_artifacts_agree host wire opts mode g state w snap bytes loads exports encodes full parsed
      parsed' base64 admitted =
    let (same, encodes', accepts) =
      exported_snapshot_verifies host g.engine.opts state wire.parse snap none exports parsed full
        refl in
    let events = snapshot g.engine.audit in
    let envelope = unsigned_envelope bytes events in
    let artifacts = verify_artifacts host wire mode opts.clock bytes events in
    let written : same ≡ bytes = some_injective (sym encodes' ∙ encodes) in
    (
      artifacts,
      fulfils host wire opts mode g state w snap bytes loads exports encodes,
      subst
          (λ b. (verify_artifacts host wire mode opts.clock b events).snapshot ≡ record {
            ok = true;
            status = ok;
            violations = [];
            policy_id = some (compute_policy_id host g.engine.opts);
            state_hash = compute_state_hash_for host g.engine.opts state;
            audit_head_hash = none;
          })
          written accepts,
      refl,
      unsigned_verdict host wire mode opts.clock bytes events
          (decode-encode_envelope host wire envelope admitted refl parsed' base64),
    )
