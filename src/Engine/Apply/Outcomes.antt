-- ===== src/Engine/Apply/Outcomes.antt =====
-- When the loop over the results collects no reason: every module has allowed.
use oxdeai_core.Prelude.{◌≡◌, ◌≢◌, refl, Option, List, [], ◌∷◌, ◌++◌, map, All, none, some}
use oxdeai_core.Intent.{Intent, IntentType, execute, release, intent_type}
use oxdeai_core.State.{State}
use oxdeai_core.Policy.{ReasonCode, StateDelta, PolicyResult, allow, deny}
use oxdeai_core.Modules.Reasons.{
  kill_switch-ne-deny, allowlist-ne-deny, budget-ne-deny, velocity-ne-deny, replay-ne-deny,
  concurrency-ne-deny, recursion_depth-ne-deny, tool_amplification-ne-deny,
}
use oxdeai_core.Engine.Options.{Mode, fail_fast, collect_all}
use oxdeai_core.Engine.Apply.{Applied, apply_results, evaluate_modules, modules_for, merge_delta}

abbrev pub IsAllow : PolicyResult → Type 0
IsAllow r = (delta : Option StateDelta) × (r ≡ allow delta)

abbrev HasReason : PolicyResult → Type 0
HasReason r = r ≢ deny []

append-nonempty : (xs : List ReasonCode) (r : ReasonCode) (rs : List ReasonCode) → xs ++ r ∷ rs ≢ []
append-nonempty [] r rs = cc
append-nonempty (x ∷ xs) r rs = cc

eq-nil-of-append : (xs ys : List ReasonCode) → xs ++ ys ≡ [] → xs ≡ []
eq-nil-of-append [] ys h = refl
eq-nil-of-append (x ∷ xs) ys h = cc

-- Reasons are never dropped.
reasons_kept :
    (mode : Mode) (rs : List PolicyResult) (a : Applied)
    → (apply_results mode rs a).deny_reasons ≡ []
    → a.deny_reasons ≡ []
unfolding apply_results
reasons_kept mode [] a h = h
reasons_kept mode (allow none ∷ rs) a h = reasons_kept mode rs a h
reasons_kept mode (allow (some d) ∷ rs) a h = reasons_kept mode rs (merge_delta (some d) a) h
reasons_kept fail_fast (deny reasons ∷ rs) a h = eq-nil-of-append a.deny_reasons reasons h
reasons_kept collect_all (deny reasons ∷ rs) a h =
    eq-nil-of-append a.deny_reasons reasons (reasons_kept collect_all rs _ h)

All-IsAllow :
    (mode : Mode) (rs : List PolicyResult) (a : Applied)
    → All HasReason rs
    → (apply_results mode rs a).deny_reasons ≡ []
    → All IsAllow rs
unfolding apply_results
All-IsAllow mode [] a p h = tt
All-IsAllow mode (allow d ∷ rs) a (_, p) h = ((d, refl), All-IsAllow mode rs _ p h)
All-IsAllow mode (deny [] ∷ rs) a (p, _) h = absurd (p refl)
All-IsAllow fail_fast (deny (r ∷ reasons) ∷ rs) a p h = absurd (append-nonempty _ r reasons h)
All-IsAllow collect_all (deny (r ∷ reasons) ∷ rs) a p h =
    absurd (append-nonempty _ r reasons (reasons_kept collect_all rs _ h))

have_reasons :
    (intent : Intent) (state : State) (t : IntentType)
    → All HasReason (map (λ m. m.evaluate intent state) (modules_for t))
have_reasons intent state release = (
  kill_switch-ne-deny intent state,
  (replay-ne-deny intent state, (concurrency-ne-deny intent state, tt)),
)
have_reasons intent state execute = (
  kill_switch-ne-deny intent state,
  (
    allowlist-ne-deny intent state,
    (
      replay-ne-deny intent state,
      (
        recursion_depth-ne-deny intent state,
        (
          concurrency-ne-deny intent state,
          (
            tool_amplification-ne-deny intent state,
            (budget-ne-deny intent state, (velocity-ne-deny intent state, tt)),
          ),
        ),
      ),
    ),
  ),
)

-- With no reason at the end of the loop, in either mode, all modules have allowed the intent.
pub modules-IsAllow :
    (intent : Intent) (state : State) (mode : Mode) (a : Applied)
    → (apply_results mode (evaluate_modules intent state) a).deny_reasons ≡ []
    → All IsAllow (evaluate_modules intent state)
unfolding evaluate_modules
modules-IsAllow intent state mode a h =
    All-IsAllow mode _ a (have_reasons intent state (intent_type intent)) h
