-- ===== src/Modules/Spec.antt =====
-- What each policy module is there to guarantee, stated without the module's tests.
use oxdeai_core.Prelude.{
  ℕ, ◌+◌, ◌≤◌, ◌<◌, ℤ, pos, ◌+ℤ◌, ◌≤ℤ◌, String, Bool, ◌≡◌, ◌≢◌, ◌⊎◌, true, false, Option, none,
  some, List, [], ◌∷◌, get_or, show_ℤ, All, has_text, ltb, leb, ◌&&◌, ◌==◌, if◌then◌else◌,
}
use oxdeai_core.Dict.{Dict, get}
use oxdeai_core.Intent.{Intent}
use oxdeai_core.State.{State, VelocityCounter, NonceEntry, ToolEvent, ToolLimitsState}

-- No kill switch stands against the agent.
pub record IsAlive (intent : Intent) (state : State) : Type 0 where
  pub global : state.kill_switch.global ≡ false
  pub agent : get intent.agent_id state.kill_switch.agents ≢ some true

-- `a` is one of the entries.
abbrev pub IsIn : {A : Type 0} → A → List A → Type 0
IsIn a [] = ⊥
IsIn a (b ∷ bs) = (b ≡ a) ⊎ IsIn a bs

-- A list that is missing or empty admits all.
abbrev pub IsAdmitted : {A : Type 0} → Option (List A) → A → Type 0
IsAdmitted none a = Unit
IsAdmitted (some []) a = Unit
IsAdmitted (some (b ∷ bs)) a = IsIn a (b ∷ bs)

-- The action, the asset, where one is named, and the target are admitted.
pub record IsListed (intent : Intent) (state : State) : Type 0 where
  pub action : IsAdmitted state.allowlists.action_types intent.action_type
  pub asset :
      (name : String)
      → intent.asset ≡ some name
      → has_text name ≡ true
      → IsAdmitted state.allowlists.assets name
  pub target : IsAdmitted state.allowlists.targets intent.target

-- What the agent has spent in the period.
abbrev pub spent : String → State → ℤ
spent agent state = get_or (get agent state.budget.spent_in_period) (pos 0)

-- The amount is within the cap of one action, and the budget holds it.
pub record IsAffordable (intent : Intent) (state : State) : Type 0 where
  pub limit : ℤ
  pub cap : ℤ
  pub has_limit : get intent.agent_id state.budget.budget_limit ≡ some limit
  pub has_cap : get intent.agent_id state.max_amount_per_action ≡ some cap
  pub within_cap : intent.amount ≤ℤ cap
  pub within_limit : spent intent.agent_id state +ℤ intent.amount ≤ℤ limit

-- The actions of the agent in the current window, this one included.
abbrev pub window_count : ℕ → ℕ → Option VelocityCounter → ℕ
window_count now window none = 1
window_count now window (some c) = if ltb now (c.window_start + window) then c.count + 1 else 1

pub record IsPaced (intent : Intent) (state : State) : Type 0 where
  pub paced :
      window_count intent.timestamp state.velocity.config.window_seconds
        (get intent.agent_id state.velocity.counters)
      ≤ state.velocity.config.max_actions

-- The agent's entry, if it is not older than the window, has another nonce.
abbrev pub IsOther : Intent → ℕ → NonceEntry → Type 0
IsOther intent window e = intent.timestamp ≤ e.ts + window → e.nonce ≢ show_ℤ intent.nonce

pub record IsFresh (intent : Intent) (state : State) : Type 0 where
  pub fresh :
      All
        (IsOther intent state.replay.window_seconds)
        (get_or (get intent.agent_id state.replay.nonces) [])

-- The agent has a free slot.
pub record HasSlot (intent : Intent) (state : State) : Type 0 where
  pub max : ℕ
  pub has_max : get intent.agent_id state.concurrency.max_concurrent ≡ some max
  pub free : get_or (get intent.agent_id state.concurrency.active) 0 < max

pub record IsShallow (intent : Intent) (state : State) : Type 0 where
  pub max : ℕ
  pub has_max : get intent.agent_id state.recursion.max_depth ≡ some max
  pub shallow : get_or intent.depth 0 ≤ max

-- The calls of the agent that are not older than the window.
abbrev pub recent : ℕ → ℕ → List ToolEvent → ℕ
recent now window [] = 0
recent now window (e ∷ es) =
    let n = recent now window es in if leb now (e.ts + window) then n + 1 else n

abbrev is_tool : String → Option String → Bool
is_tool tool none = false
is_tool tool (some t) = t == tool

-- The calls among them of one tool.
abbrev pub recent_of : String → ℕ → ℕ → List ToolEvent → ℕ
recent_of tool now window [] = 0
recent_of tool now window (e ∷ es) =
    let n = recent_of tool now window es in
    if leb now (e.ts + window) && is_tool tool e.tool then n + 1 else n

-- The agent's limits leave room for a call of the tool: among its recent calls, and, where the tool
-- has a cap of its own, among its recent calls of that tool.
pub record IsWithin (intent : Intent) (limits : ToolLimitsState) : Type 0 where
  pub calls : List ToolEvent
  pub max : ℕ
  pub calls_are : calls ≡ get_or (get intent.agent_id limits.calls) []
  pub has_max : get intent.agent_id limits.max_calls ≡ some max
  pub room : recent intent.timestamp limits.window_seconds calls < max
  pub tool_room :
      (tool : String) (caps : Dict (Dict ℕ)) (cap : ℕ)
      → intent.tool ≡ some tool
      → has_text tool ≡ true
      → limits.max_calls_by_tool ≡ some caps
      → get tool (get_or (get intent.agent_id caps) []) ≡ some cap
      → recent_of tool intent.timestamp limits.window_seconds calls < cap

-- A tool call finds room within the limits, which are there.
pub record HasCallRoom (intent : Intent) (state : State) : Type 0 where
  pub room :
      intent.tool_call ≡ some true
      → (limits : ToolLimitsState) × (state.tool_limits ≡ some limits) × IsWithin intent limits
