-- ===== src/Engine/Evaluate/Release.antt =====
-- What an allowed RELEASE intent changes, and what it leaves.
use oxdeai_core.Prelude.{
  ℕ, ◌-◌, String, ◌≡◌, refl, ap, ◌∙◌, true, Option, some, [], get_or, arith, eq_refl, ◌==◌,
  is_truthy, Option-cases, inl, inr, Bool-cases, map, All,
}
use oxdeai_core.Dict.{Dict, get, remove, assign}
use oxdeai_core.Dict.Laws.{merged, get-remove}
use oxdeai_core.Crypto.{Host}
use oxdeai_core.Authorization.{Authorization}
use oxdeai_core.Intent.{Intent, IntentType, execute, release, intent_type}
use oxdeai_core.State.{State, ActiveAuth}
use oxdeai_core.Policy.{StateDelta, allow, no_delta}
use oxdeai_core.Merge.Laws.{get-merge_put, get-merge_self, get-merge_auths, merged_self}
use oxdeai_core.Modules.Concurrency.{concurrency_module}
use oxdeai_core.Modules.Deltas.{active_count, held_auths, release_change}
use oxdeai_core.Engine.Options.{PolicyEngine, Mode, fail_fast}
use oxdeai_core.Engine.Apply.{Applied, evaluate_modules, modules_for}
use oxdeai_core.Engine.Apply.Outcomes.{IsAllow, modules-IsAllow}
use oxdeai_core.Engine.Apply.Effects.{before, release_effects}
use oxdeai_core.Engine.Evaluate.{allowing, evaluate_pure, enter_auth}
use oxdeai_core.Engine.Evaluate.Granted.{applied, granted}

enter_auth-release :
    (t : IntentType) (intent : Intent) (id : String) (expires_at : ℕ) (a : Applied)
    → t ≡ release
    → (enter_auth t intent id expires_at a).working ≡ a.working
enter_auth-release release intent id expires_at a h = refl
enter_auth-release execute intent id expires_at a h = absurd (cc h)

released_module :
    (intent : Intent) (state : State) (t : IntentType)
    → t ≡ release
    → All IsAllow (map (λ m. m.evaluate intent state) (modules_for t))
    → IsAllow (concurrency_module intent state)
released_module intent state execute e h = absurd (cc e)
released_module intent state release e (_, (_, (c, _))) = c

-- A dictionary without a key says nothing of that key, and the same of all others.
merged-remove :
    (k j : String) (d : Dict ActiveAuth) → merged assign (get j d) (get j (remove k d)) ≡ get j d
merged-remove k j d = rw (get-remove k j d) (elim (Bool-cases (k == j)) [
  | inl e ↦ rw e refl
  | inr e ↦ rw e (merged_self assign (λ v. refl) (get j d))
])

-- What lets a RELEASE intent through the concurrency module: a limit for its agent, and the
-- authorization that it names among those that the agent holds.
record IsHeld (intent : Intent) (state : State) : Type 0 where
  max : ℕ
  has_max : get intent.agent_id state.concurrency.max_concurrent ≡ some max
  named : is_truthy intent.authorization_id ≡ true
  auth : ActiveAuth
  holds : get (get_or intent.authorization_id "") (held_auths intent state) ≡ some auth

concurrency-IsHeld :
    (intent : Intent) (state : State)
    → intent_type intent ≡ release
    → IsAllow (concurrency_module intent state)
    → IsHeld intent state
unfolding concurrency_module
concurrency-IsHeld intent state t (delta, h) =
    elim (Option-cases (get intent.agent_id state.concurrency.max_concurrent)) [
      | inl e ↦ absurd (ground arith)
      | inr (max, e) ↦
          elim (Option-cases (get (get_or intent.authorization_id "") (held_auths intent state))) [
            | inl f ↦ absurd (ground arith)
            | inr (auth, f) ↦ record {
              max = max;
              has_max = e;
              named = ground arith;
              auth = auth;
              holds = f;
            }
          ]
    ]

held_concurrency :
    (intent : Intent) (state : State)
    → intent_type intent ≡ release
    → (h : IsHeld intent state)
    → (delta : StateDelta) × (concurrency_module intent state ≡ allow (some delta))
unfolding concurrency_module
held_concurrency intent state t h =
    (record no_delta { concurrency = some (release_change intent state) }, ground arith)

module _ (host : Host) (intent : Intent) (state : State) (mode : Option Mode)
    (engine : PolicyEngine) (auth : Authorization) (next : State) where
  release_next :
      intent_type intent ≡ release
      → (evaluate_pure host intent state mode engine).output ≡ allowing auth next
      → next ≡ (applied intent state (get_or mode fail_fast)).working
  release_next t h =
      let g = granted host intent state engine auth next mode h in
      g.entered ∙ enter_auth-release (intent_type intent) intent _ _ _ t

  -- An allowed RELEASE intent frees one slot of its agent, and takes away none of the
  -- authorizations that the agent holds, the released one included.
  pub allow_release_keeps_auths :
      intent_type intent ≡ release
      → (evaluate_pure host intent state mode engine).output ≡ allowing auth next
      → (get intent.agent_id next.concurrency.active ≡ some (active_count intent state - 1))
        × ((id : String)
            → get id (get_or (get intent.agent_id next.concurrency.active_auths) [])
              ≡ get id (held_auths intent state))
  allow_release_keeps_auths t h =
      let g = granted host intent state engine auth next mode h in
      let work =
        release_next t h ∙ release_effects intent state (get_or mode fail_fast) t g.no_reason in
      (
        ap (λ (s : State). get intent.agent_id s.concurrency.active) work
            ∙ (get-merge_put intent.agent_id intent.agent_id _ state.concurrency.active
                ∙ (rw eq_refl)),
        λ id.
            ap (λ (s : State). get id (get_or (get intent.agent_id s.concurrency.active_auths) []))
              work
            ∙ (get-merge_auths intent.agent_id id _ state.concurrency.active_auths
                ∙ merged-remove (get_or intent.authorization_id "") id (held_auths intent state)),
      )

  -- The slot can be freed again: where a RELEASE intent was allowed, the concurrency module allows
  -- any RELEASE intent of the same agent that names the same authorization, in the next state.
  pub allow_release_repeats :
      (again : Intent)
      → intent_type intent ≡ release
      → intent_type again ≡ release
      → again.agent_id ≡ intent.agent_id
      → again.authorization_id ≡ intent.authorization_id
      → (evaluate_pure host intent state mode engine).output ≡ allowing auth next
      → (delta : StateDelta) × (concurrency_module again next ≡ allow (some delta))
  unfolding evaluate_modules
  allow_release_repeats again t t' same_agent same_id h =
      let g = granted host intent state engine auth next mode h in
      let held = concurrency-IsHeld intent state t (
        released_module intent state (intent_type intent) t
          (modules-IsAllow intent state _ (before state) g.no_reason)) in
      let work =
        release_next t h ∙ release_effects intent state (get_or mode fail_fast) t g.no_reason in
      held_concurrency again next t' (record {
        max = held.max;
        has_max = rw same_agent (
            ap (λ (s : State). get intent.agent_id s.concurrency.max_concurrent) work
            ∙ (get-merge_self intent.agent_id state.concurrency.max_concurrent ∙ held.has_max));
        named = rw same_id held.named;
        auth = held.auth;
        holds =
            rw (same_agent, same_id)
              ((allow_release_keeps_auths t h).1 (get_or intent.authorization_id "") ∙ held.holds);
      })
