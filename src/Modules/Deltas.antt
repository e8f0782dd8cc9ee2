-- ===== src/Modules/Deltas.antt =====
-- The change that each module proposes where it allows.
use oxdeai_core.Prelude.{
  ℕ, ◌+◌, ◌-◌, ◌+ℤ◌, String, ◌≡◌, ◌⊎◌, Option, none, some, List, [], ◌∷◌, ◌++◌, get_or, arith,
  Option-cases, Bool-cases, true, false, inl, inr,
}
use oxdeai_core.Dict.{get, put, remove}
use oxdeai_core.Intent.{Intent, intent_type, execute, release}
use oxdeai_core.State.{
  State, BudgetState, VelocityState, ReplayState, NonceEntry, ConcurrencyState, ToolLimitsState,
  ActiveAuth, ToolEvent,
}
use oxdeai_core.Policy.{StateDelta, no_delta, allow}
use oxdeai_core.Modules.KillSwitch.{kill_switch_module, is_true}
use oxdeai_core.Modules.Allowlist.{allowlist_module}
use oxdeai_core.Modules.Budget.{budget_module}
use oxdeai_core.Modules.Velocity.{velocity_module, next_counter}
use oxdeai_core.Modules.Replay.{replay_module, nonce_key, prune_nonces, cap_nonces}
use oxdeai_core.Modules.Concurrency.{concurrency_module}
use oxdeai_core.Modules.RecursionDepth.{recursion_depth_module}
use oxdeai_core.Modules.ToolAmplification.{tool_amplification_module, prune}
use oxdeai_core.Modules.Spec.{spent}

abbrev no_limits : ToolLimitsState
no_limits = record { window_seconds = 0; max_calls = []; max_calls_by_tool = none; calls = [] }

module _ (intent : Intent) (state : State) where
  abbrev pub budget_change : BudgetState
  budget_change = record state.budget {
    spent_in_period =
        put intent.agent_id (spent intent.agent_id state +ℤ intent.amount)
          state.budget.spent_in_period;
  }

  abbrev pub velocity_change : VelocityState
  velocity_change = record state.velocity {
    counters =
        put intent.agent_id
          (next_counter intent.timestamp state.velocity.config.window_seconds
            (get intent.agent_id state.velocity.counters))
          state.velocity.counters;
  }

  -- The nonces of the agent with this one, as far as they are kept.
  abbrev pub kept_nonces : List NonceEntry
  kept_nonces = cap_nonces state.replay.max_nonces_per_agent (
      prune_nonces (intent.timestamp - state.replay.window_seconds)
        (get_or (get intent.agent_id state.replay.nonces) [])
      ++ record { nonce = nonce_key intent; ts = intent.timestamp } ∷ [])

  abbrev pub replay_change : ReplayState
  replay_change = record state.replay {
    nonces = put intent.agent_id kept_nonces state.replay.nonces;
  }

  abbrev pub active_count : ℕ
  active_count = get_or (get intent.agent_id state.concurrency.active) 0

  abbrev pub slot_change : ConcurrencyState
  slot_change = record state.concurrency {
    active = put intent.agent_id (active_count + 1) state.concurrency.active;
  }

  abbrev pub held_auths : List (String × ActiveAuth)
  held_auths = get_or (get intent.agent_id state.concurrency.active_auths) []

  abbrev pub release_change : ConcurrencyState
  release_change = record state.concurrency {
    active = put intent.agent_id (active_count - 1) state.concurrency.active;
    active_auths =
        put intent.agent_id (remove (get_or intent.authorization_id "") held_auths)
          state.concurrency.active_auths;
  }

  -- The recent calls of the agent, with this one.
  abbrev pub calls_now : ToolLimitsState → List ToolEvent
  calls_now limits =
      prune (get_or (get intent.agent_id limits.calls) [])
        (intent.timestamp - limits.window_seconds)
      ++ record { ts = intent.timestamp; tool = intent.tool } ∷ []

  abbrev pub tool_change : ToolLimitsState → ToolLimitsState
  tool_change limits = record limits { calls = put intent.agent_id (calls_now limits) limits.calls }

  -- A tool call changes the limits, any other action nothing.
  abbrev pub IsToolChange : Option StateDelta → Type 0
  IsToolChange delta =
      ((is_true intent.tool_call ≡ false) × (delta ≡ none))
      ⊎ ((is_true intent.tool_call ≡ true)
          × (limits : ToolLimitsState) × (state.tool_limits ≡ some limits)
          × (delta ≡ some (record no_delta { tool_limits = some (tool_change limits) })))

  module _ {delta : Option StateDelta} where
    pub kill_switch_delta : kill_switch_module intent state ≡ allow delta → delta ≡ none
    unfolding kill_switch_module
    kill_switch_delta h = ground arith

    pub allowlist_delta : allowlist_module intent state ≡ allow delta → delta ≡ none
    unfolding allowlist_module
    allowlist_delta h = ground arith

    pub recursion_depth_delta : recursion_depth_module intent state ≡ allow delta → delta ≡ none
    unfolding recursion_depth_module
    recursion_depth_delta h = ground arith

    pub budget_delta :
        budget_module intent state ≡ allow delta
        → delta ≡ some (record no_delta { budget = some budget_change })
    unfolding budget_module
    budget_delta h = ground arith

    pub velocity_delta :
        velocity_module intent state ≡ allow delta
        → delta ≡ some (record no_delta { velocity = some velocity_change })
    unfolding velocity_module
    velocity_delta h = ground arith

    pub replay_delta :
        replay_module intent state ≡ allow delta
        → delta ≡ some (record no_delta { replay = some replay_change })
    unfolding replay_module
    replay_delta h = ground arith

    pub concurrency_delta :
        concurrency_module intent state ≡ allow delta
        → intent_type intent ≡ execute
        → delta ≡ some (record no_delta { concurrency = some slot_change })
    unfolding concurrency_module
    concurrency_delta h t = ground arith

    pub release_delta :
        concurrency_module intent state ≡ allow delta
        → intent_type intent ≡ release
        → delta ≡ some (record no_delta { concurrency = some release_change })
    unfolding concurrency_module
    release_delta h t = ground arith

    -- The tool module changes the tool limits alone.
    pub tool_amplification_delta :
        tool_amplification_module intent state ≡ allow delta
        → (delta ≡ none)
          ⊎ ((limits : ToolLimitsState) × (delta
                ≡ some (record no_delta { tool_limits = some limits })))
    unfolding tool_amplification_module
    tool_amplification_delta h = elim (Option-cases delta) [
      | inl e ↦ inl e
      | inr (d, e) ↦ inr (get_or d.tool_limits no_limits, ground arith)
    ]

    pub tool_amplification_change :
        tool_amplification_module intent state ≡ allow delta
        → intent_type intent ≡ execute
        → IsToolChange delta
    unfolding tool_amplification_module
    tool_amplification_change h t = elim (Bool-cases (is_true intent.tool_call)) [
      | inr e ↦ inl (e, ground arith)
      | inl e ↦ elim (Option-cases state.tool_limits) [
        | inl f ↦ absurd (ground arith)
        | inr (limits, f) ↦ inr (e, limits, f, ground arith)
      ]
    ]
