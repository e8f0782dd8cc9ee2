-- ===== src/Engine/Evaluate/NoReplay.antt =====
-- No intent is allowed twice within the replay window.
use oxdeai_core.Prelude.{
  ℕ, zero, suc, ◌+◌, ◌-◌, ◌≤◌, ◌≡◌, ◌≢◌, sym, ap, subst, ◌∙◌, Bool, Bool-cases, Option, some, List,
  [], ◌∷◌, ◌++◌, All, arith, inl, inr, length, length-append, drop, get_or, eq_refl, leb, show_ℤ,
  if◌then◌else◌,
}
use oxdeai_core.Dict.{get}
use oxdeai_core.Crypto.{Host}
use oxdeai_core.Authorization.{Authorization}
use oxdeai_core.Intent.{Intent, execute, intent_type}
use oxdeai_core.State.{State, NonceEntry}
use oxdeai_core.Modules.Replay.{cap_nonces, prune_nonces, nonce_key}
use oxdeai_core.Modules.Spec.{IsFresh, IsOther}
use oxdeai_core.Modules.Deltas.{kept_nonces}
use oxdeai_core.Engine.Options.{PolicyEngine, Mode}
use oxdeai_core.Engine.Evaluate.{allowing, evaluate_pure}
use oxdeai_core.Engine.Evaluate.Permits.{allow_implies-IsPermitted}
use oxdeai_core.Engine.Evaluate.NextState.{allow_execute_next_state}

module _ (P : NonceEntry → Type 0) (e : NonceEntry) where
  last_dropped :
      (n : ℕ) (xs : List NonceEntry) → n ≤ length xs → All P (drop n (xs ++ e ∷ [])) → P e
  last_dropped zero [] h p = p.0
  last_dropped zero (x ∷ xs) h p = last_dropped zero xs (omega arith) p.1
  last_dropped (suc n) [] h p = absurd (omega arith)
  last_dropped (suc n) (x ∷ xs) h p = last_dropped n xs (omega arith) p

  -- The newest entry is kept where any entry is.
  last_kept :
      (max : ℕ) (xs : List NonceEntry) → 1 ≤ max → All P (cap_nonces max (xs ++ e ∷ [])) → P e
  last_kept max xs h p =
      let new = xs ++ e ∷ [] in
      let cap = λ (b : Bool). if b then new else drop (length new - max) new in
      elim (Bool-cases (leb (length new) max)) [
        | inl b ↦ last_dropped 0 xs (omega arith) (subst (All P) (ap cap b) p)
        | inr b ↦
            last_dropped (length new - max) xs (omega (arith, h, length-append xs (e ∷ [])))
              (subst (All P) (ap cap b) p)
      ]

fresh_ne :
    (intent again : Intent) (state next : State)
    → again.agent_id ≡ intent.agent_id
    → again.nonce ≡ intent.nonce
    → 1 ≤ state.replay.max_nonces_per_agent
    → again.timestamp ≤ intent.timestamp + state.replay.window_seconds
    → get intent.agent_id next.replay.nonces ≡ some (kept_nonces intent state)
    → next.replay.window_seconds ≡ state.replay.window_seconds
    → IsFresh again next
    → ⊥
unfolding nonce_key
fresh_ne intent again state next agent nonce room soon held window fresh =
    let entry : NonceEntry = record { nonce = nonce_key intent; ts = intent.timestamp } in
    let kept : get_or (get again.agent_id next.replay.nonces) [] ≡ kept_nonces intent state =
      ap (λ k. get_or (get k next.replay.nonces) []) agent ∙ ap (λ o. get_or o []) held in
    let other =
      last_kept (IsOther again next.replay.window_seconds) entry state.replay.max_nonces_per_agent
        (prune_nonces (intent.timestamp - state.replay.window_seconds)
          (get_or (get intent.agent_id state.replay.nonces) []))
        room (subst (All (IsOther again next.replay.window_seconds)) kept fresh.fresh) in
    other (omega (arith, window, soon)) (ap show_ℤ (sym nonce))

-- No replay: after an allowed EXECUTE intent no EXECUTE intent of the same agent with the same nonce
-- is allowed in the next state while the replay window lasts, in any mode and by any engine, where
-- at least one nonce is kept for an agent.
pub allowed_once :
    (host : Host) (intent : Intent) (state : State) (mode : Option Mode) (engine : PolicyEngine)
    (auth : Authorization) (next : State)
    → intent_type intent ≡ execute
    → (evaluate_pure host intent state mode engine).output ≡ allowing auth next
    → 1 ≤ state.replay.max_nonces_per_agent
    → (again : Intent) (mode' : Option Mode) (engine' : PolicyEngine) (auth' : Authorization)
      (next' : State)
    → intent_type again ≡ execute
    → again.agent_id ≡ intent.agent_id
    → again.nonce ≡ intent.nonce
    → again.timestamp ≤ intent.timestamp + state.replay.window_seconds
    → (evaluate_pure host again next mode' engine').output ≢ allowing auth' next'
allowed_once host intent state mode engine auth next t h room again mode' engine' auth' next' t'
      agent nonce soon h' =
    let done = allow_execute_next_state host intent state mode engine auth next t h in
    let permitted = allow_implies-IsPermitted host again next mode' engine' auth' next' t' h' in
    let held : get intent.agent_id next.replay.nonces ≡ some (kept_nonces intent state) =
      done.nonces intent.agent_id ∙ (rw eq_refl) in
    fresh_ne intent again state next agent nonce room soon held done.window permitted.1.fresh
