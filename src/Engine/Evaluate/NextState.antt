-- ===== src/Engine/Evaluate/NextState.antt =====
-- The next state of an allowed intent, at the keys that the policy reads.
use oxdeai_core.Prelude.{
  ℕ, ◌+◌, ◌+ℤ◌, String, ◌≡◌, refl, sym, ap, subst, ◌∙◌, Option, some, true, false, ◌⊎◌, inl, inr,
  [], ◌==◌, get_or, if◌then◌else◌,
}
use oxdeai_core.Dict.{get}
use oxdeai_core.Crypto.{Host}
use oxdeai_core.Authorization.{Authorization}
use oxdeai_core.Intent.{Intent, IntentType, execute, release, intent_type}
use oxdeai_core.State.{
  State, ToolLimitsState, BudgetState, VelocityState, ReplayState, ConcurrencyState,
}
use oxdeai_core.Merge.{merge_tool_limits}
use oxdeai_core.Merge.Laws.{
  get-merge_put, get-merge_self, get-merge_counter, get-merge_auths_self, get-merge_by_tool_self,
}
use oxdeai_core.Modules.KillSwitch.{is_true}
use oxdeai_core.Modules.Velocity.{next_counter}
use oxdeai_core.Modules.Deltas.{active_count, kept_nonces, calls_now, tool_change}
use oxdeai_core.Modules.Spec.{spent}
use oxdeai_core.Engine.Options.{PolicyEngine, Mode, fail_fast}
use oxdeai_core.Engine.Apply.{Applied}
use oxdeai_core.Engine.Apply.Effects.{ExecuteEffects, IsToolMerge, SameFixed, execute_effects}
use oxdeai_core.Engine.Evaluate.{allowing, evaluate_pure, record_auth, enter_auth}
use oxdeai_core.Engine.Evaluate.Entered.{
  record_auth-keeps, record_auth-held, record_auth-others, record_auth-tools,
}
use oxdeai_core.Engine.Evaluate.Granted.{granted}

-- What a tool call changes of the limits: it is entered among its agent's recent calls.
pub record IsCalled (intent : Intent) (state : State) (old new : ToolLimitsState) : Type 0 where
  pub window : new.window_seconds ≡ old.window_seconds
  pub limits : (j : String) → get j new.max_calls ≡ get j old.max_calls
  pub caps :
      (j : String)
      → get j (get_or new.max_calls_by_tool []) ≡ get j (get_or old.max_calls_by_tool [])
  pub calls :
      (j : String)
      → get j new.calls
        ≡ (if intent.agent_id == j then some (calls_now intent state old) else get j old.calls)

abbrev pub IsToolUse : Intent → State → State → Type 0
IsToolUse intent old new =
    ((is_true intent.tool_call ≡ false) × (new.tool_limits ≡ old.tool_limits))
    ⊎ ((is_true intent.tool_call ≡ true)
        × (limits : ToolLimitsState) × (limits' : ToolLimitsState) × (old.tool_limits ≡ some limits)
        × (new.tool_limits ≡ some limits')
        × IsCalled intent old limits limits')

-- What the allowed EXECUTE intent has changed, and that it has changed no other agent's entries.
pub record IsExecuted (intent : Intent) (old new : State) (id : String) (expires_at : ℕ)
    : Type 0 where
  pub fixed : SameFixed old new
  pub limits : (j : String) → get j new.budget.budget_limit ≡ get j old.budget.budget_limit
  pub slots :
      (j : String) → get j new.concurrency.max_concurrent ≡ get j old.concurrency.max_concurrent
  pub spending :
      (j : String)
      → get j new.budget.spent_in_period ≡ (
          if intent.agent_id == j
          then some (spent intent.agent_id old +ℤ intent.amount)
          else get j old.budget.spent_in_period)
  pub activity :
      (j : String)
      → get j new.concurrency.active ≡ (
          if intent.agent_id == j
          then some (active_count intent old + 1)
          else get j old.concurrency.active)
  pub pace :
      (j : String)
      → get j new.velocity.counters ≡ (
          if intent.agent_id == j
          then some (
              next_counter intent.timestamp old.velocity.config.window_seconds
                (get intent.agent_id old.velocity.counters))
          else get j old.velocity.counters)
  pub nonces :
      (j : String)
      → get j new.replay.nonces
        ≡ (if intent.agent_id == j then some (kept_nonces intent old) else get j old.replay.nonces)
  pub window : new.replay.window_seconds ≡ old.replay.window_seconds
  pub max_nonces : new.replay.max_nonces_per_agent ≡ old.replay.max_nonces_per_agent
  pub rate : new.velocity.config ≡ old.velocity.config
  pub tools : IsToolUse intent old new
  pub held :
      (k : String)
      → get k (get_or (get intent.agent_id new.concurrency.active_auths) []) ≡ (
          if id == k
          then some (record { expires_at = expires_at })
          else get k (get_or (get intent.agent_id old.concurrency.active_auths) []))
  pub held_by_others :
      (j : String)
      → (intent.agent_id == j) ≡ false
      → get j new.concurrency.active_auths ≡ get j old.concurrency.active_auths

-- The tool limits after the merge with a call's change.
merge-IsToolUse :
    (intent : Intent) (state work new : State)
    → new.tool_limits ≡ work.tool_limits
    → IsToolMerge intent state work
    → IsToolUse intent state new
merge-IsToolUse intent state work new same (inl (call, e)) = inl (call, same ∙ e)
merge-IsToolUse intent state work new same (inr (call, limits, e, f)) = inr (
  call,
  limits,
  merge_tool_limits limits (tool_change intent state limits),
  e,
  same ∙ f,
  record {
    window = refl;
    limits = λ j. get-merge_self j limits.max_calls;
    caps = λ j. get-merge_by_tool_self j limits.max_calls_by_tool;
    calls = λ j. get-merge_put intent.agent_id j (calls_now intent state limits) limits.calls;
  },
)

SameFixed-trans : {a b c : State} → SameFixed a b → SameFixed b c → SameFixed a c
SameFixed-trans p q = record {
  policy_version = q.policy_version ∙ p.policy_version;
  period_id = q.period_id ∙ p.period_id;
  kill_switch = q.kill_switch ∙ p.kill_switch;
  allowlists = q.allowlists ∙ p.allowlists;
  max_amount_per_action = q.max_amount_per_action ∙ p.max_amount_per_action;
  recursion = q.recursion ∙ p.recursion;
}

executed :
    (intent : Intent) (state : State) (id : String) (expires_at : ℕ) (a : Applied)
    → ExecuteEffects intent state a.working
    → IsExecuted intent state (record_auth intent id expires_at a).working id expires_at
executed intent state id expires_at a e =
    let agent = intent.agent_id in
    let keeps = record_auth-keeps intent id expires_at a in
    let work_auths : (j : String)
        → get j a.working.concurrency.active_auths ≡ get j state.concurrency.active_auths =
      λ j.
        ap (λ (c : ConcurrencyState). get j c.active_auths) e.concurrency
        ∙ get-merge_auths_self j state.concurrency.active_auths in
    record {
      fixed = SameFixed-trans e.fixed (keeps "").5;
      limits = λ j.
          ap (λ (b : BudgetState). get j b.budget_limit) ((keeps j).0 ∙ e.budget)
          ∙ get-merge_self j state.budget.budget_limit;
      slots = λ j.
          (keeps j).4
          ∙ (ap (λ (c : ConcurrencyState). get j c.max_concurrent) e.concurrency
              ∙ get-merge_self j state.concurrency.max_concurrent);
      spending = λ j.
          ap (λ (b : BudgetState). get j b.spent_in_period) ((keeps j).0 ∙ e.budget)
          ∙ get-merge_put agent j _ state.budget.spent_in_period;
      activity = λ j.
          (keeps j).3
          ∙ (ap (λ (c : ConcurrencyState). get j c.active) e.concurrency
              ∙ get-merge_put agent j _ state.concurrency.active);
      pace = λ j.
          ap (λ (v : VelocityState). get j v.counters) ((keeps j).1 ∙ e.velocity)
          ∙ get-merge_counter agent j _ state.velocity.counters;
      nonces = λ j.
          ap (λ (r : ReplayState). get j r.nonces) ((keeps j).2 ∙ e.replay)
          ∙ get-merge_put agent j (kept_nonces intent state) state.replay.nonces;
      window = ap (λ (r : ReplayState). r.window_seconds) ((keeps "").2 ∙ e.replay);
      max_nonces = ap (λ (r : ReplayState). r.max_nonces_per_agent) ((keeps "").2 ∙ e.replay);
      rate = ap (λ (v : VelocityState). v.config) ((keeps "").1 ∙ e.velocity);
      tools =
          merge-IsToolUse intent state a.working (record_auth intent id expires_at a).working
            (record_auth-tools intent id expires_at a) e.tools;
      held = λ k.
          record_auth-held intent id expires_at a k
          ∙ ap
              (λ o.
                if id == k then some (record { expires_at = expires_at }) else get k (get_or o []))
              (work_auths agent);
      held_by_others = λ j h. record_auth-others intent id expires_at a j h ∙ work_auths j;
    }

enter_auth-IsExecuted :
    (t : IntentType) (intent : Intent) (state : State) (id : String) (expires_at : ℕ) (a : Applied)
    → t ≡ execute
    → ExecuteEffects intent state a.working
    → IsExecuted intent state (enter_auth t intent id expires_at a).working id expires_at
enter_auth-IsExecuted release intent state id expires_at a e h = absurd (cc e)
enter_auth-IsExecuted execute intent state id expires_at a e h =
    executed intent state id expires_at a h

pub allow_execute_next_state :
    (host : Host) (intent : Intent) (state : State) (mode : Option Mode) (engine : PolicyEngine)
    (auth : Authorization) (next : State)
    → intent_type intent ≡ execute
    → (evaluate_pure host intent state mode engine).output ≡ allowing auth next
    → IsExecuted intent state next auth.authorization_id auth.expires_at
allow_execute_next_state host intent state mode engine auth next t h =
    let g = granted host intent state engine auth next mode h in
    subst (λ w. IsExecuted intent state w auth.authorization_id auth.expires_at) (sym g.entered)
      (enter_auth-IsExecuted (intent_type intent) intent state auth.authorization_id auth.expires_at
        _ t (execute_effects intent state (get_or mode fail_fast) t g.no_reason))
