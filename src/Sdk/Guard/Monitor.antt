-- ===== src/Sdk/Guard/Monitor.antt =====
-- The guard as a reference monitor: what its fulfilled calls do to the stored state.
use oxdeai_core.Prelude.{
  ◌≡◌, refl, sym, ap, ◌∙◌, Option, none, some, List, map, arith, get_or, inl, inr, Option-cases,
  some_injective, ◌≢◌,
}
use oxdeai_core.Crypto.{Host}
use oxdeai_core.Authorization.{Authorization}
use oxdeai_core.Intent.{Intent}
use oxdeai_core.State.{State}
use oxdeai_core.Policy.{ReasonCode, reason_name}
use oxdeai_core.Audit.{AuditEvent}
use oxdeai_core.Engine.Options.{PolicyEngine, Mode, fail_fast}
use oxdeai_core.Engine.Evaluate.{Outcome, EvaluatePureOutput, allowing, denying, evaluate_pure}
use oxdeai_core.Engine.Verify.{Validity, valid, invalid}
use oxdeai_core.Sdk.Adapters.{Async, fulfilled}
use oxdeai_core.Sdk.Guard.{
  GuardOptions, GuardState, GuardInput, GuardResult, GuardDecision, allow_with, deny_with, resolve,
  check_auth, run_action, checked_action, enforce, decide_on, guard, append_events,
  collect_new_events,
}
use oxdeai_core.Sdk.Guard.Enforces.{bind-fulfilled}
use oxdeai_core.Sdk.Guard.Executes.{check_auth-issued}
use oxdeai_core.Sdk.Guard.Stores.{IsStore, Keeps, left}
use oxdeai_core.Sdk.Guard.Once.{executed-view}

-- One step of the monitor on a stored state: an intent is refused, and the state stays, or it is
-- allowed, and the state becomes the next state.
pub data IsStep (host : Host) (mode : Option Mode) (engine : PolicyEngine) (intent : Intent)
    : State → GuardDecision → State → Type 0 where
  refuses :
      (s : State) (reasons : List ReasonCode)
      → (evaluate_pure host intent s mode engine).output ≡ denying reasons
      → IsStep host mode engine intent s (deny_with (map reason_name reasons)) s
  allows :
      (s next : State) (auth : Authorization)
      → (evaluate_pure host intent s mode engine).output ≡ allowing auth next
      → IsStep host mode engine intent s (allow_with auth) next

IsStep-by :
    {host : Host} {mode : Option Mode} {engine : PolicyEngine} {intent : Intent} {s : State}
    (d d' : GuardDecision) (s1 s2 : State)
    → d ≡ d'
    → s1 ≡ s2
    → IsStep host mode engine intent s d' s2
    → IsStep host mode engine intent s d s1
IsStep-by d d' s1 s2 e k step = rw (e, k) step

module _ (host : Host) {W : Type 0} {T : Type 0} (opts : GuardOptions W) (input : GuardInput)
    (action : Intent → Authorization → State → Async W T) (g : GuardState W) where
  run_action-some :
      (intent : Intent) (auth : Authorization) (next : State) (events : List AuditEvent)
      (g1 : GuardState W) (result : GuardResult T) (g' : GuardState W)
      → run_action host opts action intent auth next events g1 ≡ fulfilled result g'
      → result.execution_result ≢ none
  unfolding run_action
  run_action-some intent auth next events g1 result g' h none_left =
      let (value, w, acted, h2) = bind-fulfilled (action intent auth next) _ g1 result g' h in
      let (u, w', kept, h3) = bind-fulfilled (opts.state_adapter.save next) _ _ result g' h2 in
      absurd (ground arith)

  checked-some :
      (intent : Intent) (state : State) (auth : Authorization) (next : State)
      (events : List AuditEvent) (v : Validity) (g1 : GuardState W) (result : GuardResult T)
      (g' : GuardState W)
      → v ≡ valid
      → checked_action host opts action intent state auth next events v g1 ≡ fulfilled result g'
      → result.execution_result ≢ none
  checked-some intent state auth next events valid g1 result g' e h =
      run_action-some intent auth next events g1 result g' h
  checked-some intent state auth next events (invalid r) g1 result g' e h = absurd (ground arith)

  enforce-none :
      (intent : Intent) (state : State) (events : List AuditEvent) (o : EvaluatePureOutput)
      (g1 : GuardState W) (result : GuardResult T) (g' : GuardState W)
      → ((auth : Authorization) (next : State)
          → o ≡ allowing auth next
          → check_auth host opts g1.engine intent auth next ≡ valid)
      → enforce host opts action intent state events o g1 ≡ fulfilled result g'
      → result.execution_result ≡ none
      → (reasons : List ReasonCode) × (o ≡ denying reasons)
        × (result.output ≡ deny_with (map reason_name reasons))
        × (result.intent ≡ intent)
        × (g' ≡ g1)
  unfolding enforce
  enforce-none intent state events (denying reasons) g1 result g' checks h n =
      (reasons, refl, ground arith, ground arith, ground arith)
  enforce-none intent state events (allowing auth next) g1 result g' checks h n =
      absurd (checked-some intent state auth next events _ g1 result g' (checks auth next refl) h n)

  -- The course of a call that does not execute.
  pub record IsRefused (result : GuardResult T) (g' : GuardState W) : Type 0 where
    pub intent : Intent
    pub state : State
    pub loaded_world : W
    pub out : Outcome
    pub reasons : List ReasonCode
    pub loaded : opts.state_adapter.load g.world ≡ fulfilled state loaded_world
    pub resolved : resolve opts.clock input ≡ some intent
    pub evaluated_to :
        evaluate_pure host intent state (some (get_or opts.mode fail_fast)) g.engine ≡ out
    pub denies : out.output ≡ denying reasons
    pub shown : result.intent ≡ intent
    pub refused : result.output ≡ deny_with (map reason_name reasons)
    pub appended :
        append_events opts.audit_adapter (collect_new_events out.engine g.audit_cursor) loaded_world
        ≡ fulfilled tt g'.world

  decided-IsRefused :
      (state : State) (w : W) (intent : Intent) (result : GuardResult T) (g' : GuardState W)
      → opts.state_adapter.load g.world ≡ fulfilled state w
      → resolve opts.clock input ≡ some intent
      → decide_on host opts action intent state (record g { world = w }) ≡ fulfilled result g'
      → result.execution_result ≡ none
      → IsRefused result g'
  unfolding decide_on
  decided-IsRefused state w intent result g' loaded resolved h n =
      let out = evaluate_pure host intent state (some (get_or opts.mode fail_fast)) g.engine in
      let events = collect_new_events out.engine g.audit_cursor in
      let (u, w1, appended, h1) =
        bind-fulfilled (append_events opts.audit_adapter events) _ _ result g' h in
      let (reasons, denies, refused, same, stays) =
        enforce-none intent out.caller events out.output _ result g'
          (check_auth-issued host opts input action g intent state) h1 n in
      record {
        intent = intent;
        state = state;
        loaded_world = w;
        out = out;
        reasons = reasons;
        loaded = loaded;
        resolved = resolved;
        evaluated_to = refl;
        shown = same;
        denies = denies;
        refused = refused;
        appended = appended ∙ ap (λ (x : GuardState W). fulfilled tt x.world) (sym stays);
      }

  -- A call of the guard that ends without an execution result has loaded a state in which the engine
  -- denies the intent, shows the engine's reasons, and has done nothing else than to record the new
  -- events: neither the action nor the adapter's `save` has been called.
  pub guard_denies :
      (result : GuardResult T) (g' : GuardState W)
      → guard host opts input action g ≡ fulfilled result g'
      → result.execution_result ≡ none
      → IsRefused result g'
  unfolding guard
  guard_denies result g' h n =
      let (state, w, loaded, h1) = bind-fulfilled opts.state_adapter.load _ g result g' h in
      elim (Option-cases (resolve opts.clock input)) [
        | inl e ↦ absurd (ground arith)
        | inr (intent, e) ↦ decided-IsRefused state w intent result g' loaded e (ground arith) n
      ]

  -- The guard refines the monitor: a call that is fulfilled does to the stored state what one step of
  -- the monitor does, with the same decision, on any store that keeps what is saved in it and that
  -- recording events leaves alone.
  pub guard_refines :
      (view : W → State)
      → IsStore opts.state_adapter view
      → ((events : List AuditEvent) → Keeps view (append_events opts.audit_adapter events))
      → (intent : Intent) (result : GuardResult T) (g' : GuardState W)
      → resolve opts.clock input ≡ some intent
      → guard host opts input action g ≡ fulfilled result g'
      → IsStep host
          (some (get_or opts.mode fail_fast))
          g.engine
          intent
          (view g.world)
          result.output
          (view g'.world)
  guard_refines view store records intent result g' resolved h =
      elim (Option-cases result.execution_result) [
        | inl n ↦
            let r = guard_denies result g' h n in
            let loaded : r.state ≡ view g.world = store.load_gives g.world _ _ r.loaded in
            let kept : view g'.world ≡ view g.world =
              ap (λ s. view (left s)) (sym r.appended)
              ∙ records _ r.loaded_world
              ∙ ap (λ s. view (left s)) (sym r.loaded)
              ∙ store.load_keeps g.world in
            let same : intent ≡ r.intent = some_injective (sym resolved ∙ r.resolved) in
            let denies =
              ap
                (λ i.
                  (evaluate_pure host i (view g.world) (some (get_or opts.mode fail_fast))
                    g.engine).output)
                same
              ∙ ap
                  (λ s.
                    (evaluate_pure host r.intent s (some (get_or opts.mode fail_fast))
                      g.engine).output)
                  (sym loaded)
              ∙ ap (λ (o : Outcome). o.output) r.evaluated_to
              ∙ r.denies in
            IsStep-by _ _ _ _ r.refused kept (refuses (view g.world) r.reasons denies)
        | inr (value, ran) ↦
            let (auth, allowed, shown) =
              executed-view host opts view store input intent action g result value g' resolved h
                ran in
            IsStep-by _ _ _ _ shown refl (allows (view g.world) (view g'.world) auth allowed)
      ]
