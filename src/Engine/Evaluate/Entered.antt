-- ===== src/Engine/Evaluate/Entered.antt =====
-- What entering the new authorization changes of the working state.
use oxdeai_core.Prelude.{
  ℕ, String, ◌≡◌, refl, ap, ◌∙◌, Option, none, some, Bool, true, false, [], ◌==◌, get_or,
  if◌then◌else◌,
}
use oxdeai_core.Dict.{get, put, assign}
use oxdeai_core.Dict.Laws.{get-put, merged}
use oxdeai_core.Intent.{Intent}
use oxdeai_core.State.{ActiveAuth}
use oxdeai_core.Merge.{deep_merge}
use oxdeai_core.Merge.Laws.{get-merge_self, get-merge_auths, get-merge_auths_other}
use oxdeai_core.Engine.Apply.{Applied}
use oxdeai_core.Engine.Apply.Effects.{SameFixed}
use oxdeai_core.Engine.Evaluate.{record_auth}

-- Entering the authorization changes the held authorizations alone.
pub record_auth-keeps :
    (intent : Intent) (id : String) (expires_at : ℕ) (a : Applied) (j : String)
    → ((record_auth intent id expires_at a).working.budget ≡ a.working.budget)
      × ((record_auth intent id expires_at a).working.velocity ≡ a.working.velocity)
      × ((record_auth intent id expires_at a).working.replay ≡ a.working.replay)
      × (get j (record_auth intent id expires_at a).working.concurrency.active
          ≡ get j a.working.concurrency.active)
      × (get j (record_auth intent id expires_at a).working.concurrency.max_concurrent
          ≡ get j a.working.concurrency.max_concurrent)
      × SameFixed a.working (record_auth intent id expires_at a).working
unfolding record_auth deep_merge
record_auth-keeps intent id expires_at a j = (
  refl,
  refl,
  refl,
  get-merge_self j a.working.concurrency.active,
  get-merge_self j a.working.concurrency.max_concurrent,
  record {
    policy_version = refl;
    period_id = refl;
    kill_switch = refl;
    allowlists = refl;
    max_amount_per_action = refl;
    recursion = refl;
  },
)

merged_if :
    (same : Bool) (old : Option ActiveAuth) (auth : ActiveAuth)
    → merged assign old (if same then some auth else old) ≡ (if same then some auth else old)
merged_if true none auth = refl
merged_if true (some a) auth = refl
merged_if false none auth = refl
merged_if false (some a) auth = refl

module _ (intent : Intent) (id : String) (expires_at : ℕ) (a : Applied) where
  pub record_auth-held :
      (k : String)
      → get k (
          get_or
            (get intent.agent_id
              (record_auth intent id expires_at a).working.concurrency.active_auths)
            [])
        ≡ (if id == k
            then some (record { expires_at = expires_at })
            else get k (get_or (get intent.agent_id a.working.concurrency.active_auths) []))
  unfolding record_auth deep_merge
  record_auth-held k =
      let auth : ActiveAuth = record { expires_at = expires_at } in
      let auths = a.working.concurrency.active_auths in
      let own = get_or (get intent.agent_id auths) [] in
      get-merge_auths intent.agent_id k (put id auth own) auths
      ∙ ap (merged assign (get k own)) (get-put id k auth own)
      ∙ merged_if (id == k) (get k own) auth

  pub record_auth-others :
      (j : String)
      → (intent.agent_id == j) ≡ false
      → get j (record_auth intent id expires_at a).working.concurrency.active_auths
        ≡ get j a.working.concurrency.active_auths
  unfolding record_auth deep_merge
  record_auth-others j h =
      get-merge_auths_other intent.agent_id j _ a.working.concurrency.active_auths h

  pub record_auth-tools :
      (record_auth intent id expires_at a).working.tool_limits ≡ a.working.tool_limits
  unfolding record_auth deep_merge
  record_auth-tools = refl
