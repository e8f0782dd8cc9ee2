-- ===== src/Modules/Concurrency.antt =====
-- packages/core/src/policy/modules/ConcurrencyModule.ts
use oxdeai_core.Prelude.{
  ℕ, ◌+◌, ◌-◌, String, Option, none, some, [], ◌∷◌, leb, get_or, is_truthy, if◌then◌else◌,
}
use oxdeai_core.Dict.{Dict, get, put, remove}
use oxdeai_core.Intent.{Intent, IntentType, execute, release, intent_type}
use oxdeai_core.State.{State, ActiveAuth}
use oxdeai_core.Policy.{
  PolicyResult, allow, deny, no_delta, state_invalid, concurrency_limit_exceeded,
  concurrency_release_invalid,
}

-- The RELEASE path, once the authorization is looked up. `active > 0 ? active - 1 : 0` is the
-- subtraction that stops at 0.
abbrev pub release_auth :
    Intent → State → ℕ → Dict ActiveAuth → Option ActiveAuth → String → PolicyResult
release_auth intent state active auths none auth_id = deny (concurrency_release_invalid ∷ [])
release_auth intent state active auths (some _) auth_id = allow (
    some (record no_delta {
      concurrency = some (record state.concurrency {
        active = put intent.agent_id (active - 1) state.concurrency.active;
        active_auths = put intent.agent_id (remove auth_id auths) state.concurrency.active_auths;
      });
    }))

abbrev pub check_release : Intent → State → ℕ → PolicyResult
check_release intent state active =
    let auth_id = get_or intent.authorization_id "" in
    let auths = get_or (get intent.agent_id state.concurrency.active_auths) [] in
    if is_truthy intent.authorization_id
    then release_auth intent state active auths (get auth_id auths) auth_id
    else deny (concurrency_release_invalid ∷ [])

abbrev pub check_execute : Intent → State → ℕ → ℕ → PolicyResult
check_execute intent state max active =
    if leb max active
    then deny (concurrency_limit_exceeded ∷ [])
    else allow (
        some (record no_delta {
          concurrency = some (record state.concurrency {
            active = put intent.agent_id (active + 1) state.concurrency.active;
          });
        }))

abbrev pub check_concurrency : Intent → State → Option ℕ → IntentType → ℕ → PolicyResult
check_concurrency intent state none t active = deny (state_invalid ∷ [])
check_concurrency intent state (some max) release active = check_release intent state active
check_concurrency intent state (some max) execute active = check_execute intent state max active

unfoldable pub concurrency_module : Intent → State → PolicyResult
concurrency_module intent state =
    check_concurrency intent state (get intent.agent_id state.concurrency.max_concurrent)
      (intent_type intent) (get_or (get intent.agent_id state.concurrency.active) 0)
