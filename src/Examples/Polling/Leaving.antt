-- ===== src/Examples/Polling/Leaving.antt =====
-- APIPollingService together with the watcher that is to tell it when the API leaves its Run state.
use rxdaemon.Prelude.{
  String, ◌≡◌, ◌≢◌, refl, ap, ◌∙◌, List, [], ◌∷◌, Option, none, some, lookup, if◌then◌else◌, ◌==◌,
  length, insert, Bool-cases, Option-cases, inl, inr,
}
use rxdaemon.States.{run, state_eq, state_eq_iff, ServiceStates, exited}
use rxdaemon.States.Watch.{all_services, interested, wanted_in, record_state}
use rxdaemon.Manager.{ok}
use rxdaemon.Examples.Polling.{Event, states_come, poll_run}

abbrev service_hello_world_api : String
service_hello_world_api = "HelloWorldAPI"

-- What the watcher that Run starts, WatchAllServices(Exited, StateRun, ServiceHelloWorldAPI), sends for
-- a message of the states topic.
unfoldable pub told : ServiceStates → Option ServiceStates
unfolding all_services
told states = all_services exited run (service_hello_world_api ∷ []) states

told_lem :
    (states : ServiceStates)
    → told states ≡ (
        let found =
          record_state
            (wanted_in exited run (lookup service_hello_world_api states))
            service_hello_world_api
            (lookup service_hello_world_api states)
            [] in
        if length found == 1 then some found else none)
unfolding told interested
told_lem states = refl

told-run :
    (states : ServiceStates)
    → lookup service_hello_world_api states ≡ some run
    → told states ≡ some (insert service_hello_world_api run [])
unfolding wanted_in insert
told-run states e = told_lem states ∙ rw e refl

told-other :
    (states : ServiceStates) → lookup service_hello_world_api states ≢ some run → told states ≡ none
unfolding wanted_in
told-other states n = elim (Option-cases (lookup service_hello_world_api states)) [
  | inl e ↦ told_lem states ∙ rw e refl
  | inr (v, e) ↦ elim (Bool-cases (state_eq v run)) [
    | inl y ↦ absurd (n (e ∙ ap (λ v. some v) ((state_eq_iff v run).0 y)))
    | inr m ↦ told_lem states ∙ rw e (rw m refl)
  ]
]

-- Run is told to leave by the first message that shows the API in its Run state, and then makes no
-- request; a message that shows it in another state, or not at all, tells it nothing.
poll_leaves :
    (states : ServiceStates) (events : List Event)
    → (lookup service_hello_world_api states ≡ some run
        → (told states ≢ none)
          × ((poll_run (states_come ∷ events)).requests ≡ 0)
          × ((poll_run (states_come ∷ events)).ending ≡ some ok))
      × (lookup service_hello_world_api states ≢ some run → told states ≡ none)
unfolding poll_run
poll_leaves states events = (λ e. (λ n. cc (told-run states e), refl, refl), told-other states)
