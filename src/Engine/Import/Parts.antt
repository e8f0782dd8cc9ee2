-- ===== src/Engine/Import/Parts.antt =====
-- What the loop of `importState` over the codecs has read, stated part by part without the loop.
use oxdeai_core.Prelude.{
  String, ◌≡◌, refl, sym, ap, subst, ◌∙◌, true, [], ◌∷◌, Option, some, inl, inr, arith,
  Option-cases,
}
use oxdeai_core.Dict.{Dict, get}
use oxdeai_core.Json.{Json}
use oxdeai_core.State.{State, ToolLimitsState}
use oxdeai_core.Schemas.{or_undefined}
use oxdeai_core.Codec.Restoring.{
  read_allowlists, read_budget, read_concurrency, read_kill_switch, read_recursion, read_replay,
  read_tool_limits, read_velocity, restore_with, restorers,
}
use oxdeai_core.Engine.Import.{Restored, restore_modules}

-- A module's payload, where a missing one is undefined.
abbrev pub payload : String → Dict Json → Json
payload id modules = or_undefined (get id modules)

-- Each of the eight modules' parts of the new state is what its codec reads of its payload; the
-- policy version and the period, which no module holds, are those of the old state.
pub record IsRestored (modules : Dict Json) (old new : State) : Type 0 where
  pub limits : ToolLimitsState
  pub allowlists : read_allowlists (payload "AllowlistModule" modules) ≡ some new.allowlists
  pub budget :
      read_budget (payload "BudgetModule" modules) ≡ some (new.budget, new.max_amount_per_action)
  pub concurrency : read_concurrency (payload "ConcurrencyModule" modules) ≡ some new.concurrency
  pub kill_switch : read_kill_switch (payload "KillSwitchModule" modules) ≡ some new.kill_switch
  pub recursion : read_recursion (payload "RecursionDepthModule" modules) ≡ some new.recursion
  pub replay : read_replay (payload "ReplayModule" modules) ≡ some new.replay
  pub tools : read_tool_limits (payload "ToolAmplificationModule" modules) ≡ some limits
  pub limited : new.tool_limits ≡ some limits
  pub velocity : read_velocity (payload "VelocityModule" modules) ≡ some new.velocity
  pub policy_version : new.policy_version ≡ old.policy_version
  pub period_id : new.period_id ≡ old.period_id

abbrev done : State → Restored
done state = record { state = state; complete = true }

-- One step of the loop, where it is complete.
restore_step {ℓ} :
    {P : Type ℓ} (read : Json → Option P) (put : P → State → State) (id : String)
    (codecs : Dict (Json → State → Option State)) (modules : Dict Json) (old new : State)
    → restore_modules ((id, restore_with read put) ∷ codecs) modules old ≡ done new
    → (p : P) × (read (payload id modules) ≡ some p)
      × (restore_modules codecs modules (put p old) ≡ done new)
unfolding restore_modules
restore_step read put id codecs modules old new h =
    elim (Option-cases (read (payload id modules))) [
      | inl e ↦ absurd (ground (arith, e, h))
      | inr (p, e) ↦ (p, e, ground (arith, e, h))
    ]

-- The same step from what it reads.
restore_next {ℓ} :
    {P : Type ℓ} (read : Json → Option P) (put : P → State → State) (id : String)
    (codecs : Dict (Json → State → Option State)) (modules : Dict Json) (old : State) (p : P)
    → read (payload id modules) ≡ some p
    → restore_modules ((id, restore_with read put) ∷ codecs) modules old
      ≡ restore_modules codecs modules (put p old)
unfolding restore_modules
restore_next read put id codecs modules old p e = ground (arith, e)

restored_end : (modules : Dict Json) (s : State) → restore_modules [] modules s ≡ done s
unfolding restore_modules
restored_end modules s = refl

restore_end :
    (modules : Dict Json) (old new : State) → restore_modules [] modules old ≡ done new → old ≡ new
unfolding restore_modules
restore_end modules old new h = ap (λ (r : Restored). r.state) h

module _ (modules : Dict Json) (old new : State) where
  pub restore_modules-IsRestored :
      restore_modules restorers modules old ≡ done new → IsRestored modules old new
  unfolding restorers
  restore_modules-IsRestored h =
      let (p1, e1, h1) = restore_step read_allowlists _ "AllowlistModule" _ modules _ new h in
      let (p2, e2, h2) = restore_step read_budget _ "BudgetModule" _ modules _ new h1 in
      let (p3, e3, h3) = restore_step read_concurrency _ "ConcurrencyModule" _ modules _ new h2 in
      let (p4, e4, h4) = restore_step read_kill_switch _ "KillSwitchModule" _ modules _ new h3 in
      let (p5, e5, h5) = restore_step read_recursion _ "RecursionDepthModule" _ modules _ new h4 in
      let (p6, e6, h6) = restore_step read_replay _ "ReplayModule" _ modules _ new h5 in
      let (p7, e7, h7) =
        restore_step read_tool_limits _ "ToolAmplificationModule" _ modules _ new h6 in
      let (p8, e8, h8) = restore_step read_velocity _ "VelocityModule" _ modules _ new h7 in
      subst (IsRestored modules old) (restore_end modules _ new h8) (record {
        limits = p7;
        allowlists = e1;
        budget = e2;
        concurrency = e3;
        kill_switch = e4;
        recursion = e5;
        replay = e6;
        tools = e7;
        limited = refl;
        velocity = e8;
        policy_version = refl;
        period_id = refl;
      })

  reached :
      (limits : ToolLimitsState)
      → new.tool_limits ≡ some limits
      → new.policy_version ≡ old.policy_version
      → new.period_id ≡ old.period_id
      → record new {
        policy_version = old.policy_version;
        period_id = old.period_id;
        tool_limits = some limits;
      }
        ≡ new
  reached limits e v p =
      ap
        (λ x. record new {
          policy_version = x;
          period_id = old.period_id;
          tool_limits = some limits;
        })
        (sym v)
      ∙ ap (λ x. record new { period_id = x; tool_limits = some limits }) (sym p)
      ∙ ap (λ x. record new { tool_limits = x }) (sym e)

  -- Where all parts can be read the loop is complete.
  pub all_restored : IsRestored modules old new → restore_modules restorers modules old ≡ done new
  unfolding restorers
  all_restored r =
      restore_next read_allowlists _ "AllowlistModule" _ modules old _ r.allowlists
      ∙ restore_next read_budget _ "BudgetModule" _ modules _ _ r.budget
      ∙ restore_next read_concurrency _ "ConcurrencyModule" _ modules _ _ r.concurrency
      ∙ restore_next read_kill_switch _ "KillSwitchModule" _ modules _ _ r.kill_switch
      ∙ restore_next read_recursion _ "RecursionDepthModule" _ modules _ _ r.recursion
      ∙ restore_next read_replay _ "ReplayModule" _ modules _ _ r.replay
      ∙ restore_next read_tool_limits _ "ToolAmplificationModule" _ modules _ _ r.tools
      ∙ restore_next read_velocity _ "VelocityModule" _ modules _ _ r.velocity
      ∙ restored_end modules _
      ∙ ap done (reached r.limits r.limited r.policy_version r.period_id)
