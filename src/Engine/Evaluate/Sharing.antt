-- ===== src/Engine/Evaluate/Sharing.antt =====
-- What `evaluatePure` writes into the caller's state object.
use oxdeai_core.Prelude.{
  ℕ, String, ◌≡◌, ◌≢◌, refl, sym, ap, ◌∙◌, true, Option, some, List, [], ◌∷◌, get_or, arith,
  Option-cases, inl, inr,
}
use oxdeai_core.Crypto.{Host}
use oxdeai_core.Authorization.{Authorization}
use oxdeai_core.Intent.{Intent, IntentType, execute, release, intent_type}
use oxdeai_core.State.{State, ToolLimitsState}
use oxdeai_core.Policy.{ReasonCode}
use oxdeai_core.Merge.{aliased}
use oxdeai_core.Engine.Options.{PolicyEngine, Mode, fail_fast}
use oxdeai_core.Engine.Validate.{validate_state_for_intent}
use oxdeai_core.Engine.Apply.{Applied}
use oxdeai_core.Engine.Apply.Effects.{before}
use oxdeai_core.Engine.Apply.Shared.{aliased_self, IsShared, apply_results-IsShared}
use oxdeai_core.Engine.Evaluate.{
  allowing, record_auth, enter_auth, deny_decision, decide, evaluate_pure,
}
use oxdeai_core.Engine.Evaluate.Granted.{applied, granted}

limits_of_valid :
    (intent : Intent) (state : State)
    → validate_state_for_intent state intent ≡ true
    → (limits : ToolLimitsState) × (state.tool_limits ≡ some limits)
unfolding validate_state_for_intent
limits_of_valid intent state h = elim (Option-cases state.tool_limits) [
  | inl e ↦ absurd (ground arith)
  | inr found ↦ found
]

pub applied-IsShared :
    (intent : Intent) (state : State) (mode : Mode)
    → validate_state_for_intent state intent ≡ true
    → IsShared (applied intent state mode)
applied-IsShared intent state mode h =
    let (limits, e) = limits_of_valid intent state h in
    apply_results-IsShared mode _ (before state)
      (record { same = refl; limits = limits; limited = e })

pub enter_auth-shared :
    (t : IntentType) (intent : Intent) (id : String) (expires_at : ℕ) (a : Applied)
    → IsShared a
    → (enter_auth t intent id expires_at a).caller ≡ (enter_auth t intent id expires_at a).working
unfolding record_auth
enter_auth-shared release intent id expires_at a s = s.same
enter_auth-shared execute intent id expires_at a s =
    ap (λ (c : State). aliased c (record_auth intent id expires_at a).working) s.same
    ∙ (aliased_self a.working _ s.limits s.limited).0

-- An allowed intent is written into the state object that the caller passed: after the call that
-- object holds the next state.
pub evaluate_pure_writes_caller :
    (host : Host) (intent : Intent) (state : State) (mode : Option Mode) (engine : PolicyEngine)
    (auth : Authorization) (next : State)
    → (evaluate_pure host intent state mode engine).output ≡ allowing auth next
    → (evaluate_pure host intent state mode engine).caller ≡ next
evaluate_pure_writes_caller host intent state mode engine auth next h =
    let g = granted host intent state engine auth next mode h in
    g.written
    ∙ (enter_auth-shared (intent_type intent) intent _ _ _
          (applied-IsShared intent state (get_or mode fail_fast) g.formed)
        ∙ sym g.entered)

-- The branch that denies leaves the caller's object as the loop has left it.
pub caller-decide-deny :
    (host : Host) (intent : Intent) (hash policy_id : String) (a : Applied)
    (reasons : List ReasonCode) (engine : PolicyEngine)
    → reasons ≢ []
    → ((decide host intent hash policy_id a reasons engine).caller ≡ a.caller)
      × ((auth : Authorization) (next : State)
          → (decide host intent hash policy_id a reasons engine).output ≢ allowing auth next)
unfolding deny_decision
caller-decide-deny host intent hash policy_id a [] engine h = absurd (h refl)
caller-decide-deny host intent hash policy_id a (r ∷ rs) engine h =
    (ground arith, λ auth next e. ground arith)
