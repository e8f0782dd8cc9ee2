-- ===== src/Sdk/Guard/Once.antt =====
-- Calls of the guard with an intent that it has executed before.
use oxdeai_core.Prelude.{
  ◌+◌, ◌≤◌, ◌≡◌, sym, ap, ◌∙◌, none, some, get_or, inl, inr, Option-cases, some_injective,
}
use oxdeai_core.Crypto.{Host}
use oxdeai_core.Authorization.{Authorization}
use oxdeai_core.Intent.{Intent, execute, intent_type}
use oxdeai_core.State.{State}
use oxdeai_core.Engine.Options.{fail_fast}
use oxdeai_core.Engine.Evaluate.{Outcome, allowing, evaluate_pure}
use oxdeai_core.Engine.Evaluate.NoReplay.{allowed_once}
use oxdeai_core.Sdk.Adapters.{Async, fulfilled}
use oxdeai_core.Sdk.Guard.{
  GuardOptions, GuardState, GuardInput, GuardResult, allow_with, resolve, guard,
}
use oxdeai_core.Sdk.Guard.Enforces.{guard_enforces}
use oxdeai_core.Sdk.Guard.Stores.{IsStore}

module _ (host : Host) {W : Type 0} {T : Type 0} (opts : GuardOptions W) (view : W → State)
    (store : IsStore opts.state_adapter view) where
  -- What an executed call has loaded and saved.
  pub executed-view :
      (input : GuardInput) (intent : Intent) (action : Intent → Authorization → State → Async W T)
      (g : GuardState W) (result : GuardResult T) (value : T) (g' : GuardState W)
      → resolve opts.clock input ≡ some intent
      → guard host opts input action g ≡ fulfilled result g'
      → result.execution_result ≡ some value
      → (auth : Authorization) × ((evaluate_pure host intent
            (view g.world)
            (some (get_or opts.mode fail_fast))
            g.engine).output
          ≡ allowing auth (view g'.world))
        × (result.output ≡ allow_with auth)
  executed-view input intent action g result value g' resolved h ran =
      let done = guard_enforces host opts input action g result value g' h ran in
      let loaded : done.state ≡ view g.world = store.load_gives g.world _ _ done.loaded in
      let saved : view g'.world ≡ done.next = store.save_sets _ _ _ done.saved in
      let same : intent ≡ done.intent = some_injective (sym resolved ∙ done.resolved) in
      let mode = some (get_or opts.mode fail_fast) in
      (
        done.auth,
        ap (λ i. (evaluate_pure host i (view g.world) mode g.engine).output) same
            ∙ ap (λ s. (evaluate_pure host done.intent s mode g.engine).output) (sym loaded)
            ∙ ap (λ (o : Outcome). o.output) done.evaluated_to
            ∙ done.allows
            ∙ ap (allowing done.auth) (sym saved),
        ap (λ (r : GuardResult T). r.output) done.result_is,
      )

  -- Where a call of the guard has executed an EXECUTE intent, the next call executes no EXECUTE intent
  -- of the same agent with the same nonce, whatever its action, until the replay window has passed,
  -- if the stored state has room for at least one nonce of an agent.
  pub executed_once :
      (input : GuardInput) (intent : Intent) (action : Intent → Authorization → State → Async W T)
      (g : GuardState W) (result : GuardResult T) (value : T) (g' : GuardState W)
      → resolve opts.clock input ≡ some intent
      → guard host opts input action g ≡ fulfilled result g'
      → result.execution_result ≡ some value
      → intent_type intent ≡ execute
      → 1 ≤ (view g.world).replay.max_nonces_per_agent
      → (input' : GuardInput) (again : Intent)
        (action' : Intent → Authorization → State → Async W T) (result' : GuardResult T)
        (g'' : GuardState W)
      → resolve opts.clock input' ≡ some again
      → guard host opts input' action' g' ≡ fulfilled result' g''
      → intent_type again ≡ execute
      → again.agent_id ≡ intent.agent_id
      → again.nonce ≡ intent.nonce
      → again.timestamp ≤ intent.timestamp + (view g.world).replay.window_seconds
      → result'.execution_result ≡ none
  executed_once input intent action g result value g' resolved h ran t room input' again action'
        result' g'' resolved' h' t' agent nonce soon =
      elim (Option-cases result'.execution_result) [
        | inl e ↦ e
        | inr (value', e) ↦
            let (auth, allows, shown) =
              executed-view input intent action g result value g' resolved h ran in
            let (auth', allows', shown') =
              executed-view input' again action' g' result' value' g'' resolved' h' e in
            absurd (
              allowed_once host intent (view g.world) _ g.engine auth (view g'.world) t allows room
                again _ g'.engine auth' (view g''.world) t' agent nonce soon allows')
      ]
