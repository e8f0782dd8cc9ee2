-- ===== src/Sdk/Adapters.antt =====
-- The interfaces StateAdapter and AuditAdapter of packages/sdk/src/types.ts over a world `W`, calls
-- that may be rejected, and the adapters in memory of packages/sdk/src/adapters.ts.
use oxdeai_core.Prelude.{List, ◌++◌}
use oxdeai_core.State.{State}
use oxdeai_core.Audit.{AuditEvent}

-- A promise that is fulfilled or rejected, with the world that it leaves.
pub data Settled {ℓ} (W : Type 0) (A : Type ℓ) : Type ℓ where
  fulfilled : A → W → Settled W A
  rejected : W → Settled W A

abbrev pub Async {ℓ} : Type 0 → Type ℓ → Type ℓ
Async W A = W → Settled W A

-- `await`
infixl 5 ◌>>=◌ ◌>>◌
abbrev pub ◌>>=◌ {ℓ κ} :
    {W : Type 0} {A : Type ℓ} {B : Type κ} → Async W A → (A → Async W B) → Async W B
◌>>=◌ m f w = elim (m w) [ fulfilled a w' ↦ f a w' | rejected w' ↦ rejected w' ]

abbrev pub ◌>>◌ {κ} : {W : Type 0} {B : Type κ} → Async W (Unit {0}) → Async W B → Async W B
m >> k = m >>= λ _. k

abbrev pub pure {ℓ} : {W : Type 0} {A : Type ℓ} → A → Async W A
pure a w = fulfilled a w

abbrev pub reject {ℓ} : {W : Type 0} {A : Type ℓ} → Async W A
reject w = rejected w

-- The loaded state shares nothing with what is stored.
pub record StateAdapter (W : Type 0) : Type 0 where
  pub load : Async W State
  pub save : State → Async W (Unit {0})

pub record AuditAdapter (W : Type 0) : Type 0 where
  pub append : List AuditEvent → Async W (Unit {0})

-- The fields of the adapters in memory. `structuredClone` makes a copy that shares nothing, so what
-- is loaded can be written into without a change of what is stored.
pub record Memory : Type 0 where
  pub state : State
  pub events : List AuditEvent

abbrev pub in_memory_state_adapter : StateAdapter Memory
in_memory_state_adapter = record {
  load = λ m. fulfilled m.state m;
  save = λ s m. fulfilled tt (record m { state = s });
}

abbrev pub in_memory_audit_adapter : AuditAdapter Memory
in_memory_audit_adapter = record {
  append = λ es m. fulfilled tt (record m { events = m.events ++ es });
}
