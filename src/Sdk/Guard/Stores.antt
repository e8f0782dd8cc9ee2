-- ===== src/Sdk/Guard/Stores.antt =====
-- What the guard's calls make of the state that the adapter stores, whatever else is in the world.
use oxdeai_core.Prelude.{
  ◌≡◌, refl, sym, subst, ap, ◌∙◌, All, Option, none, some, List, [], ◌∷◌, arith, get_or, inl, inr,
  ◌⊎◌,
}
use oxdeai_core.Crypto.{Host}
use oxdeai_core.Authorization.{Authorization}
use oxdeai_core.Intent.{Intent}
use oxdeai_core.State.{State}
use oxdeai_core.Audit.{AuditEvent}
use oxdeai_core.Engine.Options.{fail_fast}
use oxdeai_core.Engine.Evaluate.{EvaluatePureOutput, allowing, denying, evaluate_pure}
use oxdeai_core.Engine.Evaluate.Sharing.{evaluate_pure_writes_caller}
use oxdeai_core.Engine.Run.Limits.{IsSolvent, evaluate_pure_keeps_limits}
use oxdeai_core.Engine.Verify.{Validity, valid, invalid}
use oxdeai_core.Sdk.Adapters.{Settled, Async, ◌>>=◌, fulfilled, rejected, StateAdapter}
use oxdeai_core.Sdk.Guard.{
  GuardOptions, GuardState, GuardInput, GuardResult, resolve, run_action, checked_action, enforce,
  decide_on, guard, lift, or_reject, append_events, collect_new_events,
}
use oxdeai_core.Sdk.Guard.Enforces.{Settled-cases}

-- The world that a call leaves.
abbrev pub left {ℓ} : {W : Type 0} {A : Type ℓ} → Settled W A → W
left (fulfilled a w) = w
left (rejected w) = w

-- What the guard relies on in a store whose content is `view`.
pub record IsStore {W : Type 0} (adapter : StateAdapter W) (view : W → State) : Type 0 where
  pub load_keeps : (w : W) → view (left (adapter.load w)) ≡ view w
  pub load_gives : (w : W) (s : State) (w' : W) → adapter.load w ≡ fulfilled s w' → s ≡ view w
  pub save_sets : (s : State) (w w' : W) → adapter.save s w ≡ fulfilled tt w' → view w' ≡ s
  pub save_whole :
      (s : State) (w w' : W) → adapter.save s w ≡ rejected w' → (view w' ≡ view w) ⊎ (view w' ≡ s)

-- The call leaves the store's content alone, whether it is fulfilled or rejected.
abbrev pub Keeps {ℓ} : {W : Type 0} {A : Type ℓ} → (W → State) → Async W A → Type 0
Keeps {W = W} view m = (w : W) → view (left (m w)) ≡ view w

-- A property of the world after a chain, from its steps.
pub left-bind {ℓ κ ι} :
    {W : Type 0} {A : Type ℓ} {B : Type κ} (P : W → Type ι) (m : Async W A)
    (f : A → Async (GuardState W) B) (g : GuardState W)
    → ((a : A) (w : W) → m g.world ≡ fulfilled a w → P (left (f a (record g { world = w }))).world)
    → ((w : W) → m g.world ≡ rejected w → P w)
    → P (left ((lift m >>= f) g)).world
left-bind P m f g fulfils rejects = elim (Settled-cases (m g.world)) [
  | inl (a, w, e) ↦ subst P (ground arith) (fulfils a w e)
  | inr (w, e) ↦ subst P (ground arith) (rejects w e)
]

module _ (host : Host) {W : Type 0} {T : Type 0} (opts : GuardOptions W) (view : W → State)
    (store : IsStore opts.state_adapter view)
    (records : (events : List AuditEvent) → Keeps view (append_events opts.audit_adapter events))
    (action : Intent → Authorization → State → Async W T)
    (leaves : (intent : Intent) (auth : Authorization) (next : State)
      → Keeps view (action intent auth next))
    (Q : State → Type 0) where
  run_action-view :
      (intent : Intent) (auth : Authorization) (next : State) (events : List AuditEvent)
      (g : GuardState W)
      → Q (view g.world)
      → Q next
      → Q (view (left (run_action host opts action intent auth next events g)).world)
  unfolding run_action
  run_action-view intent auth next events g held new =
      left-bind (λ w. Q (view w)) (action intent auth next) _ g
        (λ value w e.
          let same : view w ≡ view g.world =
            ap (λ s. view (left s)) (sym e) ∙ leaves intent auth next g.world in
          left-bind (λ w. Q (view w)) (opts.state_adapter.save next) _ _
            (λ u w' saved. subst Q (sym (store.save_sets next w w' (saved))) new)
            (λ w' failed. elim (store.save_whole next w w' failed) [
              | inl old ↦ subst Q (sym (old ∙ same)) held
              | inr whole ↦ subst Q (sym whole) new
            ]))
        (λ w e.
          subst Q (sym (ap (λ s. view (left s)) (sym e) ∙ leaves intent auth next g.world)) held)

  checked-view :
      (intent : Intent) (state : State) (auth : Authorization) (next : State)
      (events : List AuditEvent) (v : Validity) (g : GuardState W)
      → Q (view g.world)
      → Q next
      → Q (view (left (checked_action host opts action intent state auth next events v g)).world)
  checked-view intent state auth next events valid g held new =
      run_action-view intent auth next events g held new
  checked-view intent state auth next events (invalid r) g held new = held

  enforce-view :
      (intent : Intent) (state : State) (events : List AuditEvent) (o : EvaluatePureOutput)
      (g : GuardState W)
      → Q (view g.world)
      → ((auth : Authorization) (next : State) → o ≡ allowing auth next → Q next)
      → Q (view (left (enforce host opts action intent state events o g)).world)
  unfolding enforce
  enforce-view intent state events (denying reasons) g held new = held
  enforce-view intent state events (allowing auth next) g held new =
      checked-view intent state auth next events _ g held (new auth next refl)

  decide_on-view :
      (intent : Intent) (state : State) (g : GuardState W)
      → Q (view g.world)
      → ((auth : Authorization) (next : State)
          → (evaluate_pure host intent state (some (get_or opts.mode fail_fast)) g.engine).output
            ≡ allowing auth next
          → Q next)
      → Q (view (left (decide_on host opts action intent state g)).world)
  unfolding decide_on
  decide_on-view intent state g held new =
      let events =
        collect_new_events
          (evaluate_pure host intent state (some (get_or opts.mode fail_fast)) g.engine).engine
          g.audit_cursor in
      let kept =
        λ (s : Settled W (Unit {0})) (e : append_events opts.audit_adapter events g.world ≡ s).
          subst Q (sym (records events g.world) ∙ ap (λ s. view (left s)) e) held in
      left-bind (λ w. Q (view w)) (append_events opts.audit_adapter events) _ _
        (λ u w e. enforce-view intent _ events _ _ (kept _ e) new) (λ w e. kept _ e)

  resolved-view :
      (r : Option Intent) (f : Intent → Async (GuardState W) (GuardResult T)) (g : GuardState W)
      → Q (view g.world)
      → ((intent : Intent) → r ≡ some intent → Q (view (left (f intent g)).world))
      → Q (view (left ((or_reject r >>= f) g)).world)
  resolved-view none f g held kept = held
  resolved-view (some intent) f g held kept = kept intent refl

  -- A predicate of states that evaluation keeps is kept, in the store, by each call of the guard.
  pub guard-view :
      (input : GuardInput) (g : GuardState W)
      → Q (view g.world)
      → ((intent : Intent) (auth : Authorization) (next : State)
          → (evaluate_pure host intent
              (view g.world)
              (some (get_or opts.mode fail_fast))
              g.engine).output
            ≡ allowing auth next
          → Q next)
      → Q (view (left (guard host opts input action g)).world)
  unfolding guard
  guard-view input g held new =
      let kept = λ (s : Settled W State) (e : opts.state_adapter.load g.world ≡ s).
        subst Q (sym (store.load_keeps g.world) ∙ ap (λ s. view (left s)) e) held in
      left-bind (λ w. Q (view w)) opts.state_adapter.load _ g
        (λ state w e.
          let given : state ≡ view g.world = store.load_gives g.world state w e in
          resolved-view (resolve opts.clock input) (λ i. decide_on host opts action i state) _
            (kept _ e)
            (λ intent resolved.
              decide_on-view intent state (record g { world = w }) (kept _ e)
                (λ auth next h. new intent auth next (rw (sym given) h))))
        (λ w e. kept _ e)

-- One call: the guard's input and the action.
pub record Call (W T : Type 0) : Type 0 where
  pub input : GuardInput
  pub action : Intent → Authorization → State → Async W T

-- The calls of a session, each with its own action, on a store that nothing else writes.
module _ (host : Host) {W : Type 0} {T : Type 0} (opts : GuardOptions W) where
  -- The guard's state after calls that settle one after the other.
  unfoldable pub session : List (Call W T) → GuardState W → GuardState W
  session [] g = g
  session (c ∷ calls) g = session calls (left (guard host opts c.input c.action g))

  -- Where every agent is within its limits in the stored state, that is so after any sequence of
  -- calls of the guard, each fulfilled or rejected, denied or executed, on a store that keeps what is
  -- saved in it, if neither recording events nor the actions change the stored state.
  pub guard-Keeps_limits :
      (view : W → State)
      → IsStore opts.state_adapter view
      → ((events : List AuditEvent) → Keeps view (append_events opts.audit_adapter events))
      → (calls : List (Call W T))
      → All
          (λ (c : Call W T).
            (intent : Intent) (auth : Authorization) (next : State)
            → Keeps view (c.action intent auth next))
          calls
      → (g : GuardState W) → IsSolvent (view g.world)
      → IsSolvent (view (session calls g).world)
  unfolding session
  guard-Keeps_limits view store records [] all g start = start
  guard-Keeps_limits view store records (c ∷ calls) (leaves, all) g start =
      guard-Keeps_limits view store records calls all _ (
        guard-view host opts view store records c.action leaves IsSolvent c.input g start
          (λ intent auth next h.
            subst IsSolvent
              (evaluate_pure_writes_caller host intent (view g.world) _ g.engine auth next h)
              (evaluate_pure_keeps_limits host intent (view g.world) _ g.engine start)))
