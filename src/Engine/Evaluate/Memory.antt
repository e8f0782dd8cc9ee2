-- ===== src/Engine/Evaluate/Memory.antt =====
-- What `evaluatePure` and ReplayModule keep of an agent's nonces.
use oxdeai_core.Prelude.{
  ℕ, zero, suc, ◌-◌, ◌≤◌, ◌≡◌, sym, ap, subst, ◌∙◌, Bool, Bool-cases, Option, some, List, [], ◌∷◌,
  ◌++◌, All, arith, inl, inr, length, length-drop, drop, get_or, eq_refl, leb, if◌then◌else◌,
}
use oxdeai_core.Dict.{get}
use oxdeai_core.Crypto.{Host}
use oxdeai_core.Authorization.{Authorization}
use oxdeai_core.Intent.{Intent, execute, intent_type}
use oxdeai_core.State.{State, NonceEntry}
use oxdeai_core.Modules.Replay.{cap_nonces, prune_nonces, nonce_key}
use oxdeai_core.Modules.Deltas.{kept_nonces}
use oxdeai_core.Engine.Options.{PolicyEngine, Mode}
use oxdeai_core.Engine.Evaluate.{allowing, evaluate_pure}
use oxdeai_core.Engine.Evaluate.NextState.{allow_execute_next_state}

cap_nonces-length : (max : ℕ) (xs : List NonceEntry) → length (cap_nonces max xs) ≤ max
cap_nonces-length max xs = ground (arith, length-drop (length xs - max) xs)

module _ (P : NonceEntry → Type 0) where
  All-append : (xs ys : List NonceEntry) → All P xs → All P ys → All P (xs ++ ys)
  All-append [] ys p q = q
  All-append (x ∷ xs) ys p q = (p.0, All-append xs ys p.1 q)

  All-drop : (n : ℕ) (xs : List NonceEntry) → All P xs → All P (drop n xs)
  All-drop zero xs p = p
  All-drop (suc n) [] p = p
  All-drop (suc n) (x ∷ xs) p = All-drop n xs p.1

  All-cap_nonces : (max : ℕ) (xs : List NonceEntry) → All P xs → All P (cap_nonces max xs)
  All-cap_nonces max xs p =
      let cap = λ (b : Bool). if b then xs else drop (length xs - max) xs in
      elim (Bool-cases (leb (length xs) max)) [
        | inl b ↦ subst (λ b. All P (cap b)) (sym b) p
        | inr b ↦ subst (λ b. All P (cap b)) (sym b) (All-drop (length xs - max) xs p)
      ]

-- The entry is not older than the window.
abbrev pub IsRecent : ℕ → NonceEntry → Type 0
IsRecent window_start e = window_start ≤ e.ts

prune_nonces-IsRecent : (s : ℕ) (xs : List NonceEntry) → All (IsRecent s) (prune_nonces s xs)
prune_nonces-IsRecent s [] = tt
prune_nonces-IsRecent s (x ∷ xs) =
    let rest = prune_nonces-IsRecent s xs in
    let pruned = λ (b : Bool). if b then x ∷ prune_nonces s xs else prune_nonces s xs in
    elim (Bool-cases (leb s x.ts)) [
      | inl b ↦ subst (λ b. All (IsRecent s) (pruned b)) (sym b) (ground arith, rest)
      | inr b ↦ subst (λ b. All (IsRecent s) (pruned b)) (sym b) rest
    ]

-- In the state that follows an allowed EXECUTE intent no more of the agent's nonces are kept than
-- the configured maximum, and none of them is older than the replay window.
pub allowed_nonces_bounded :
    (host : Host) (intent : Intent) (state : State) (mode : Option Mode) (engine : PolicyEngine)
    (auth : Authorization) (next : State)
    → intent_type intent ≡ execute
    → (evaluate_pure host intent state mode engine).output ≡ allowing auth next
    → (length (get_or (get intent.agent_id next.replay.nonces) [])
        ≤ state.replay.max_nonces_per_agent)
      × All
          (IsRecent (intent.timestamp - state.replay.window_seconds))
          (get_or (get intent.agent_id next.replay.nonces) [])
allowed_nonces_bounded host intent state mode engine auth next t h =
    let done = allow_execute_next_state host intent state mode engine auth next t h in
    let max = state.replay.max_nonces_per_agent in
    let start = intent.timestamp - state.replay.window_seconds in
    let entry : NonceEntry = record { nonce = nonce_key intent; ts = intent.timestamp } in
    let pruned = prune_nonces start (get_or (get intent.agent_id state.replay.nonces) []) in
    let stored : get intent.agent_id next.replay.nonces ≡ some (kept_nonces intent state) =
      done.nonces intent.agent_id ∙ (rw eq_refl) in
    let held : get_or (get intent.agent_id next.replay.nonces) [] ≡ kept_nonces intent state =
      ap (λ o. get_or o []) stored in
    let recent : All (IsRecent start) (pruned ++ entry ∷ []) =
      All-append (IsRecent start) pruned (entry ∷ []) (prune_nonces-IsRecent start _)
        (omega arith, tt) in
    subst (λ xs. (length xs ≤ max) × All (IsRecent start) xs) (sym held)
      (
        cap_nonces-length max (pruned ++ entry ∷ []),
        All-cap_nonces (IsRecent start) max (pruned ++ entry ∷ []) recent,
      )
