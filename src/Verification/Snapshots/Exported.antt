-- ===== src/Verification/Snapshots/Exported.antt =====
-- Snapshots that the engine has exported, under the snapshot verifier.
use oxdeai_core.Prelude.{
  ◌≡◌, refl, sym, ap, ◌∙◌, String, true, Option, none, some, [], ◌∷◌, map, ◌>>=◌, some_injective,
  bind-some, has_text, get_or, eq_refl,
}
use oxdeai_core.Dict.{Dict, put}
use oxdeai_core.Json.{Json, num, str, obj, end, field, canonicalize, canonical_json}
use oxdeai_core.Json.Canonical.{canonical_json-canonicalize}
use oxdeai_core.Crypto.{Host, sha256_from_json}
use oxdeai_core.State.{State}
use oxdeai_core.Codec.Sorting.{sorted_entries, object_of}
use oxdeai_core.Codec.Policies.{
  normalize_allowlists, normalize_budget, normalize_velocity, normalize_replay,
}
use oxdeai_core.Codec.Limits.{
  normalize_concurrency, normalize_recursion, normalize_tool_limits, normalize_kill_switch,
}
use oxdeai_core.Codec.{module_codecs}
use oxdeai_core.Engine.Options.{EngineOptions, CanonicalState}
use oxdeai_core.Engine.Snapshot.{
  with_module_state, export_modules, compute_policy_id, compute_state_hash_for, export_state,
}
use oxdeai_core.CanonicalCodec.{
  fields_of, entries_of, as_record, state_json, assert_canonical_state, encode_canonical_state,
  decode_canonical_state,
}
use oxdeai_core.Schemas.{value_of, missing, push_additional, sorted}
use oxdeai_core.Schemas.Artifacts.{validate_canonical_state_json}
use oxdeai_core.Verification.Types.{ok}
use oxdeai_core.Verification.Snapshots.{
  hash_fields, snapshot_hash, verify_decoded, verify_state, verify_snapshot,
}

-- The payloads of the eight modules.
pub record Payloads : Type 0 where
  pub allowlist : Json
  pub budget : Json
  pub concurrency : Json
  pub kill_switch : Json
  pub recursion : Json
  pub replay : Json
  pub tools : Json
  pub velocity : Json

-- Each module's state serializes to its payload.
pub record Serializes (state : State) (p : Payloads) : Type 0 where
  pub allowlist : some (normalize_allowlists state.allowlists) ≡ some p.allowlist
  pub budget : normalize_budget state ≡ some p.budget
  pub concurrency : normalize_concurrency state.concurrency ≡ some p.concurrency
  pub kill_switch : normalize_kill_switch state.kill_switch ≡ some p.kill_switch
  pub recursion : normalize_recursion state.recursion ≡ some p.recursion
  pub replay : normalize_replay state.replay ≡ some p.replay
  pub tools : normalize_tool_limits state.tool_limits ≡ some p.tools
  pub velocity : normalize_velocity state.velocity ≡ some p.velocity

abbrev pub modules_of : Payloads → Dict Json
modules_of p =
    ("AllowlistModule", p.allowlist)
    ∷ ("BudgetModule", p.budget)
    ∷ ("ConcurrencyModule", p.concurrency)
    ∷ ("KillSwitchModule", p.kill_switch)
    ∷ ("RecursionDepthModule", p.recursion)
    ∷ ("ReplayModule", p.replay)
    ∷ ("ToolAmplificationModule", p.tools)
    ∷ ("VelocityModule", p.velocity)
    ∷ []

abbrev snapshot_of : String → Payloads → CanonicalState
snapshot_of policy_id p = record {
  format_version = 1;
  engine_version = "unknown";
  policy_id = policy_id;
  modules = modules_of p;
}

abbrev canonical_payloads : Payloads → Payloads
canonical_payloads p = record {
  allowlist = canonicalize p.allowlist;
  budget = canonicalize p.budget;
  concurrency = canonicalize p.concurrency;
  kill_switch = canonicalize p.kill_switch;
  recursion = canonicalize p.recursion;
  replay = canonicalize p.replay;
  tools = canonicalize p.tools;
  velocity = canonicalize p.velocity;
}

module _ (host : Host) (opts : EngineOptions) (state : State) where
  exported :
      (snap : CanonicalState)
      → export_state host opts state ≡ some snap
      → (p : Payloads) × Serializes state p × (snap ≡ snapshot_of (compute_policy_id host opts) p)
  unfolding export_state export_modules sorted_entries module_codecs with_module_state put
  exported snap h =
      let (p2, e2, h2) = bind-some (normalize_budget state) _ snap h in
      let (p3, e3, h3) = bind-some (normalize_concurrency state.concurrency) _ snap h2 in
      let (p4, e4, h4) = bind-some (normalize_kill_switch state.kill_switch) _ snap h3 in
      let (p5, e5, h5) = bind-some (normalize_recursion state.recursion) _ snap h4 in
      let (p6, e6, h6) = bind-some (normalize_replay state.replay) _ snap h5 in
      let (p7, e7, h7) = bind-some (normalize_tool_limits state.tool_limits) _ snap h6 in
      let (p8, e8, h8) = bind-some (normalize_velocity state.velocity) _ snap h7 in
      (
        record {
          allowlist = normalize_allowlists state.allowlists;
          budget = p2;
          concurrency = p3;
          kill_switch = p4;
          recursion = p5;
          replay = p6;
          tools = p7;
          velocity = p8;
        },
        record {
          allowlist = refl;
          budget = e2;
          concurrency = e3;
          kill_switch = e4;
          recursion = e5;
          replay = e6;
          tools = e7;
          velocity = e8;
        },
        some_injective (sym h8),
      )

  module _ (p : Payloads) (s : Serializes state p) where
    hashed :
        compute_state_hash_for host opts state
        ≡ some (snapshot_hash host (snapshot_of (compute_policy_id host opts) p))
    unfolding compute_state_hash_for snapshot_hash hash_fields sorted_entries object_of
        module_codecs sha256_from_json
    hashed =
        rw
          (
            some_injective s.allowlist,
            s.budget,
            s.concurrency,
            s.kill_switch,
            s.recursion,
            s.replay,
            s.tools,
            s.velocity,
          )
          refl

canonical_entry : String × Json → String × Json
canonical_entry (k, v) = (k, canonicalize v)

hash_fields-canonical :
    (host : Host) (d : Dict Json) → hash_fields host (map canonical_entry d) ≡ hash_fields host d
unfolding hash_fields sha256_from_json canonical_entry
hash_fields-canonical host [] = refl
hash_fields-canonical host ((k, v) ∷ d) =
    ap (λ t. field k (str (host.sha256 t)) (hash_fields host (map canonical_entry d)))
      (canonical_json-canonicalize v)
    ∙ ap (field k (str (host.sha256 (canonical_json v)))) (hash_fields-canonical host d)

canonical_hash :
    (host : Host) (policy_id : String) (p : Payloads)
    → snapshot_hash host (snapshot_of policy_id (canonical_payloads p))
      ≡ snapshot_hash host (snapshot_of policy_id p)
unfolding snapshot_hash sorted_entries canonical_entry
canonical_hash host policy_id p =
    ap
      (λ fs. sha256_from_json host (
        obj (
          field "formatVersion" (num 1) (
            field "engineVersion" (str "unknown")
              (field "policyId" (str policy_id) (field "modules" (obj fs) end))))))
      (hash_fields-canonical host (modules_of p))

decoded :
    (policy_id : String) (p : Payloads)
    → assert_canonical_state (canonicalize (state_json (snapshot_of policy_id p)))
      ≡ some (snapshot_of policy_id (canonical_payloads p))
unfolding assert_canonical_state canonicalize state_json fields_of entries_of value_of as_record
decoded policy_id p = refl

admitted :
    (policy_id : String) (p : Payloads)
    → has_text policy_id ≡ true
    → validate_canonical_state_json (state_json (snapshot_of policy_id p)) ≡ []
unfolding validate_canonical_state_json state_json fields_of value_of missing push_additional sorted
admitted policy_id p h = rw h refl

accepted :
    (host : Host) (policy_id : String) (p : Payloads) (expected : Option String)
    → has_text policy_id ≡ true
    → get_or expected policy_id ≡ policy_id
    → verify_state host (some (snapshot_of policy_id (canonical_payloads p))) expected ≡ record {
      ok = true;
      status = ok;
      violations = [];
      policy_id = some policy_id;
      state_hash = some (snapshot_hash host (snapshot_of policy_id p));
      audit_head_hash = none;
    }
unfolding verify_decoded
accepted host policy_id p none full e =
    rw (admitted policy_id (canonical_payloads p) full, full, canonical_hash host policy_id p) refl
accepted host policy_id p (some x) full e =
    rw
      (
        admitted policy_id (canonical_payloads p) full,
        full,
        e,
        eq_refl policy_id,
        canonical_hash host policy_id p,
      )
      (rw full refl)

encoded :
    (policy_id : String) (p : Payloads)
    → encode_canonical_state (snapshot_of policy_id p)
      ≡ some (canonical_json (state_json (snapshot_of policy_id p)))
unfolding encode_canonical_state assert_canonical_state state_json fields_of entries_of value_of
    as_record
encoded policy_id p = refl

-- Every snapshot that an engine exports can be encoded, and the snapshot verifier accepts the bytes,
-- expecting the engine's policy or none, and reports the engine's policy id and the very hash that
-- the engine computes of that state, if the policy id is not empty and parsing the bytes gives back
-- the canonical form of the snapshot.
pub exported_snapshot_verifies :
    (host : Host) (opts : EngineOptions) (state : State) (parse : String → Option Json)
    (snap : CanonicalState) (expected : Option String)
    → export_state host opts state ≡ some snap
    → parse (canonical_json (state_json snap)) ≡ some (canonicalize (state_json snap))
    → has_text (compute_policy_id host opts) ≡ true
    → get_or expected (compute_policy_id host opts) ≡ compute_policy_id host opts
    → (bytes : String) × (encode_canonical_state snap ≡ some bytes)
      × (verify_snapshot host parse bytes expected ≡ record {
        ok = true;
        status = ok;
        violations = [];
        policy_id = some (compute_policy_id host opts);
        state_hash = compute_state_hash_for host opts state;
        audit_head_hash = none;
      })
unfolding verify_snapshot decode_canonical_state
exported_snapshot_verifies host opts state parse snap expected h parsed full e =
    let (p, s, same) = exported host opts state snap h in
    let policy_id = compute_policy_id host opts in
    let bytes = canonical_json (state_json snap) in
    let read : decode_canonical_state parse bytes
        ≡ some (snapshot_of policy_id (canonical_payloads p)) =
      ap (λ o. o >>= assert_canonical_state)
        (parsed ∙ ap (λ x. some (canonicalize (state_json x))) same)
      ∙ decoded policy_id p in
    (
      bytes,
      ap encode_canonical_state same
          ∙ encoded policy_id p
          ∙ ap (λ x. some (canonical_json (state_json x))) (sym same),
      ap (λ o. verify_state host o expected) read
          ∙ accepted host policy_id p expected full e
          ∙ ap
              (λ hash. record {
                ok = true;
                status = ok;
                violations = [];
                policy_id = some policy_id;
                state_hash = hash;
                audit_head_hash = none;
              })
              (sym (hashed host opts state p s)),
    )
