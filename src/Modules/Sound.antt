-- ===== src/Modules/Sound.antt =====
-- A module that does not deny guarantees what it is there for.
use oxdeai_core.Prelude.{
  ℕ, ◌-◌, String, ◌≡◌, refl, sym, ap, ◌∙◌, true, false, Option, none, some, List, [], ◌∷◌, ◌==◌,
  eq_iff, arith, any, length, Bool-cases, Option-cases, inl, inr, get_or, show_ℤ, All,
  if◌then◌else◌,
}
use oxdeai_core.Dict.{get}
use oxdeai_core.Intent.{
  Intent, ActionType, action_name, intent_type, execute, payment, purchase, provision, onchain_tx,
}
use oxdeai_core.State.{State, NonceEntry, ToolEvent, ToolLimitsState}
use oxdeai_core.Policy.{StateDelta, allow}
use oxdeai_core.Modules.KillSwitch.{kill_switch_module}
use oxdeai_core.Modules.Allowlist.{allowlist_module, excludes, excludes_action}
use oxdeai_core.Modules.Budget.{budget_module}
use oxdeai_core.Modules.Velocity.{velocity_module}
use oxdeai_core.Modules.Replay.{replay_module, nonce_key, prune_nonces, holds_nonce}
use oxdeai_core.Modules.Concurrency.{concurrency_module}
use oxdeai_core.Modules.RecursionDepth.{recursion_depth_module}
use oxdeai_core.Modules.ToolAmplification.{
  tool_amplification_module, prune, tool_count, check_calls,
}
use oxdeai_core.Modules.Spec.{
  IsAlive, IsIn, IsAdmitted, IsListed, IsAffordable, IsPaced, IsOther, IsFresh, HasSlot, IsShallow,
  recent, recent_of, IsWithin, HasCallRoom,
}

IsIn-of-any : (a : String) (bs : List String) → any (λ z. z == a) bs ≡ true → IsIn a bs
IsIn-of-any a [] h = cc
IsIn-of-any a (b ∷ bs) h = elim (Bool-cases (b == a)) [
  | inl e ↦ inl ((eq_iff b a).0 e)
  | inr e ↦ inr (IsIn-of-any a bs (ground arith))
]

excludes_sound : (l : Option (List String)) (a : String) → excludes l a ≡ false → IsAdmitted l a
excludes_sound none a h = tt
excludes_sound (some []) a h = tt
excludes_sound (some (b ∷ bs)) a h = IsIn-of-any a (b ∷ bs) (ground arith)

abbrev action_of : String → ActionType
action_of s =
    if s == "PAYMENT"
    then payment
    else if s == "PURCHASE"
    then purchase
    else if s == "PROVISION"
    then provision
    else onchain_tx

action_of-action_name : (a : ActionType) → action_of (action_name a) ≡ a
action_of-action_name payment = refl
action_of-action_name _ = refl

action_name-injective : (a b : ActionType) → action_name a ≡ action_name b → a ≡ b
action_name-injective a b h =
    sym (action_of-action_name a) ∙ (ap action_of h ∙ action_of-action_name b)

IsIn-of-any_action :
    (a : ActionType) (bs : List ActionType)
    → any (λ c. action_name c == action_name a) bs ≡ true
    → IsIn a bs
IsIn-of-any_action a [] h = cc
IsIn-of-any_action a (b ∷ bs) h = elim (Bool-cases (action_name b == action_name a)) [
  | inl e ↦ inl (action_name-injective b a ((eq_iff _ _).0 e))
  | inr e ↦ inr (IsIn-of-any_action a bs (ground arith))
]

excludes_action_sound :
    (l : Option (List ActionType)) (a : ActionType) → excludes_action l a ≡ false → IsAdmitted l a
excludes_action_sound none a h = tt
excludes_action_sound (some []) a h = tt
excludes_action_sound (some (b ∷ bs)) a h = IsIn-of-any_action a (b ∷ bs) (ground arith)

-- A nonce that is not among the pruned entries differs from each entry in the window.
fresh_of_prune :
    (intent : Intent) (window : ℕ) (list : List NonceEntry)
    → holds_nonce (nonce_key intent) (prune_nonces (intent.timestamp - window) list) ≡ false
    → All (IsOther intent window) list
unfolding nonce_key
fresh_of_prune intent window [] h = tt
fresh_of_prune intent window (e ∷ list) h = (
  λ recent same. ground (arith, eq_iff e.nonce (show_ℤ intent.nonce)),
  fresh_of_prune intent window list (ground arith),
)

recent-eq-length :
    (now window : ℕ) (es : List ToolEvent) → recent now window es ≡ length (prune es (now - window))
recent-eq-length now window [] = refl
recent-eq-length now window (e ∷ es) = ground (arith, recent-eq-length now window es)

recent_of-eq-tool_count :
    (tool : String) (now window : ℕ) (es : List ToolEvent)
    → recent_of tool now window es ≡ tool_count (some tool) (prune es (now - window))
recent_of-eq-tool_count tool now window [] = refl
recent_of-eq-tool_count tool now window (e ∷ es) =
    ground (arith, recent_of-eq-tool_count tool now window es)

module _ (intent : Intent) (state : State) {delta : Option StateDelta} where
  pub kill_switch_sound : kill_switch_module intent state ≡ allow delta → IsAlive intent state
  unfolding kill_switch_module
  kill_switch_sound h = record { global = ground arith; agent = λ e. ground arith }

  pub budget_sound : budget_module intent state ≡ allow delta → IsAffordable intent state
  unfolding budget_module
  budget_sound h = elim (Option-cases (get intent.agent_id state.budget.budget_limit)) [
    | inl e ↦ absurd (ground arith)
    | inr (limit, e) ↦ elim (Option-cases (get intent.agent_id state.max_amount_per_action)) [
      | inl f ↦ absurd (ground arith)
      | inr (cap, f) ↦ record {
        limit = limit;
        cap = cap;
        has_limit = e;
        has_cap = f;
        within_cap = ground arith;
        within_limit = ground arith;
      }
    ]
  ]

  pub velocity_sound : velocity_module intent state ≡ allow delta → IsPaced intent state
  unfolding velocity_module
  velocity_sound h = record { paced = ground arith }

  pub recursion_depth_sound :
      recursion_depth_module intent state ≡ allow delta → IsShallow intent state
  unfolding recursion_depth_module
  recursion_depth_sound h = elim (Option-cases (get intent.agent_id state.recursion.max_depth)) [
    | inl e ↦ absurd (ground arith)
    | inr (max, e) ↦ record { max = max; has_max = e; shallow = ground arith }
  ]

  pub concurrency_sound :
      concurrency_module intent state ≡ allow delta
      → intent_type intent ≡ execute
      → HasSlot intent state
  unfolding concurrency_module
  concurrency_sound h t =
      elim (Option-cases (get intent.agent_id state.concurrency.max_concurrent)) [
        | inl e ↦ absurd (ground arith)
        | inr (max, e) ↦ record { max = max; has_max = e; free = ground arith }
      ]

  pub replay_sound : replay_module intent state ≡ allow delta → IsFresh intent state
  unfolding replay_module
  replay_sound h = record {
    fresh =
        fresh_of_prune intent state.replay.window_seconds
          (get_or (get intent.agent_id state.replay.nonces) []) (ground arith);
  }

  pub allowlist_sound : allowlist_module intent state ≡ allow delta → IsListed intent state
  unfolding allowlist_module
  allowlist_sound h = record {
    action = excludes_action_sound _ _ (ground arith);
    asset = λ name e t. excludes_sound _ _ (ground arith);
    target = excludes_sound _ _ (ground arith);
  }

  check_calls-IsWithin :
      (limits : ToolLimitsState) (max : ℕ)
      → get intent.agent_id limits.max_calls ≡ some max
      → check_calls intent limits max (
          prune
            (get_or (get intent.agent_id limits.calls) [])
            (intent.timestamp - limits.window_seconds))
        ≡ allow delta
      → IsWithin intent limits
  check_calls-IsWithin limits max e h =
      let calls = get_or (get intent.agent_id limits.calls) [] in
      let now = intent.timestamp in
      let window = limits.window_seconds in
      record {
        calls = calls;
        max = max;
        calls_are = refl;
        has_max = e;
        room = ground (arith, h, recent-eq-length now window calls);
        tool_room = λ tool caps cap named full capped held.
            ground
              (arith, h, named, full, capped, held, recent_of-eq-tool_count tool now window calls);
      }

  pub tool_amplification_sound :
      tool_amplification_module intent state ≡ allow delta
      → intent_type intent ≡ execute
      → HasCallRoom intent state
  unfolding tool_amplification_module
  tool_amplification_sound h t = record {
    room = λ call. elim (Option-cases state.tool_limits) [
      | inl e ↦ absurd (ground arith)
      | inr (limits, e) ↦ elim (Option-cases (get intent.agent_id limits.max_calls)) [
        | inl f ↦ absurd (ground arith)
        | inr (max, f) ↦ (limits, e, check_calls-IsWithin limits max f (ground arith))
      ]
    ];
  }
