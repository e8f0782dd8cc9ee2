-- ===== src/Modules/Replay.antt =====
-- packages/core/src/policy/modules/ReplayModule.ts. The configuration is numeric by its type. The
-- window's start `now - window` may be negative in the source; all times are at least 0, so the
-- test against 0 keeps the same entries.
use oxdeai_core.Prelude.{
  ℕ, ◌-◌, String, Bool, some, List, [], ◌∷◌, ◌++◌, ◌==◌, leb, filter, any, drop, length, get_or,
  show_ℤ, if◌then◌else◌,
}
use oxdeai_core.Dict.{get, put}
use oxdeai_core.Intent.{Intent}
use oxdeai_core.State.{State, NonceEntry}
use oxdeai_core.Policy.{PolicyResult, allow, deny, no_delta, replay_nonce}

unfoldable pub nonce_key : Intent → String
nonce_key intent = show_ℤ intent.nonce

-- Entries that are not older than the window.
abbrev pub prune_nonces : ℕ → List NonceEntry → List NonceEntry
prune_nonces window_start list = filter (λ x. leb window_start x.ts) list

abbrev pub holds_nonce : String → List NonceEntry → Bool
holds_nonce n list = any (λ x. x.nonce == n) list

-- The newest `max` entries.
abbrev pub cap_nonces : ℕ → List NonceEntry → List NonceEntry
cap_nonces max list = if leb (length list) max then list else drop (length list - max) list

unfoldable pub replay_module : Intent → State → PolicyResult
replay_module intent state =
    let cfg = state.replay in
    let now = intent.timestamp in
    let pruned =
      prune_nonces (now - cfg.window_seconds) (get_or (get intent.agent_id cfg.nonces) []) in
    let n = nonce_key intent in
    if holds_nonce n pruned
    then deny (replay_nonce ∷ [])
    else allow (
        some (record no_delta {
          replay = some (record cfg {
            nonces =
                put intent.agent_id
                  (cap_nonces cfg.max_nonces_per_agent
                    (pruned ++ record { nonce = n; ts = now } ∷ []))
                  cfg.nonces;
          });
        }))
