-- ===== src/Verification/Replays.antt =====
-- `verifyReplayEvents` of packages/core/src/replay/verify.ts. The details of violations are left out.
pub mod Head
use Prim.Native.String
use Prim.Native.Char.{Char, code}
use oxdeai_core.Prelude.{
  ℕ, zero, suc, ◌+◌, String, Bool, true, false, not, Option, none, some, List, [], ◌∷◌, ◌++◌, ◌==◌,
  ◌&&◌, ◌||◌, ltb, leb, nat_eq, any, get_or, is_truthy, if◌then◌else◌,
}
use oxdeai_core.Crypto.{Host}
use oxdeai_core.Audit.{AuditEvent, EventBody, state_checkpoint}
use oxdeai_core.Log.{compute_next_hash, genesis}
use oxdeai_core.Verification.Events.{AuditMode, strict, best_effort}

pub data VerifyStatus : Type 0 where
  ok violation inconclusive : VerifyStatus

pub data ReplayCode : Type 0 where
  non_monotonic_timestamp invalid_state_hash mixed_policy_id : ReplayCode
  policy_id_mismatch no_state_anchor : ReplayCode

pub record VerifyViolation : Type 0 where
  pub code : ReplayCode
  pub at : Option ℕ

pub record VerifyOptions : Type 0 where
  pub policy_id : Option String
  pub mode : Option AuditMode

pub record VerifyResult : Type 0 where
  pub ok : Bool
  pub status : VerifyStatus
  pub violations : List VerifyViolation
  pub expected_policy_id : Option String
  pub observed_policy_id : Option String
  pub audit_head_hash : String

abbrev hex_code : ℕ → Bool
hex_code c = (leb 48 c && leb c 57) || (leb 97 c && leb c 102)

-- `/^[0-9a-f]{64}$/`, with the number of characters that are still to come.
unfoldable pub is_hex : ℕ → String → Bool
is_hex zero String.[] = true
is_hex zero (String.◌∷◌ _ _) = false
is_hex (suc n) String.[] = false
is_hex (suc n) (String.◌∷◌ c s) = hex_code (code c) && is_hex n s

abbrev push_if : Bool → ReplayCode → Option ℕ → List VerifyViolation
push_if true code at = record { code = code; at = at } ∷ []
push_if false code at = []

-- `i > 0 && e.timestamp < events[i - 1].timestamp`
abbrev behind : Option ℕ → ℕ → Bool
behind none t = false
behind (some last) t = ltb t last

abbrev bad_anchor : EventBody → Bool
bad_anchor (state_checkpoint hash) = not (is_hex 64 hash)
bad_anchor _ = false

abbrev anchors : EventBody → ℕ → ℕ
anchors (state_checkpoint hash) n = n + 1
anchors _ n = n

-- The variables of the loop; `previous` is the time of the event before.
pub record Pass : Type 0 where
  pub violations : List VerifyViolation
  pub checkpoint_count : ℕ
  pub head : String
  pub previous : Option ℕ

-- The policy ids that are defined, in order.
unfoldable pub defined_policy_ids : List AuditEvent → List String
defined_policy_ids [] = []
defined_policy_ids (e ∷ es) = elim e.policy_id [
  | none ↦ defined_policy_ids es
  | some p ↦ p ∷ defined_policy_ids es
]

abbrev pub observed : List String → Option String
observed [] = none
observed (p ∷ ps) = some p

abbrev is_strict_mode : AuditMode → Bool
is_strict_mode strict = true
is_strict_mode best_effort = false

abbrev is_mixed : List String → Bool
is_mixed [] = false
is_mixed (p ∷ ps) = any (λ q. not (q == p)) ps

module _ (host : Host) where
  unfoldable pub pass_event : ℕ → AuditEvent → Pass → Pass
  unfolding compute_next_hash is_hex
  pass_event i e p = record {
    violations =
        p.violations
        ++ (push_if (behind p.previous e.timestamp) non_monotonic_timestamp (some i)
            ++ push_if (bad_anchor e.body) invalid_state_hash (some i));
    checkpoint_count = anchors e.body p.checkpoint_count;
    head = compute_next_hash host p.head e;
    previous = some e.timestamp;
  }

  unfoldable pub pass_events : ℕ → List AuditEvent → Pass → Pass
  unfolding pass_event
  pass_events i [] p = p
  pass_events i (e ∷ es) p = pass_events (suc i) es (pass_event i e p)

  abbrev pub conclude :
      VerifyOptions → Option String → ℕ → String → List VerifyViolation → VerifyResult
  conclude opts observed count head (v ∷ vs) = record {
    ok = false;
    status = violation;
    violations = v ∷ vs;
    expected_policy_id = opts.policy_id;
    observed_policy_id = observed;
    audit_head_hash = head;
  }
  conclude opts observed count head [] =
      let unanchored = is_strict_mode (get_or opts.mode strict) && nat_eq count 0 in
      record {
        ok = not unanchored;
        status = if unanchored then inconclusive else ok;
        violations = push_if unanchored no_state_anchor none;
        expected_policy_id = opts.policy_id;
        observed_policy_id = observed;
        audit_head_hash = head;
      }

  unfoldable pub verify_replay_events : List AuditEvent → VerifyOptions → VerifyResult
  unfolding pass_events defined_policy_ids
  verify_replay_events events opts =
      let p =
        pass_events 0 events
          (record { violations = []; checkpoint_count = 0; head = genesis; previous = none }) in
      let ids = defined_policy_ids events in
      conclude opts (observed ids) p.checkpoint_count p.head (
        p.violations
        ++ (push_if (is_mixed ids) mixed_policy_id none
            ++ push_if
                (is_truthy opts.policy_id
                  && (is_truthy (observed ids)
                      && not (get_or opts.policy_id "" == get_or (observed ids) "")))
                policy_id_mismatch none))
