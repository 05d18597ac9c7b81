-- ===== src/Tests/Watching.antt =====
-- Uses of the theorems on service_context.go and the states watcher.
use rxdaemon.Prelude.{◌≡◌, ◌↔◌, refl, [], ◌∷◌, some, lookup, All, Distinct}
use rxdaemon.States.{idle, run, ServiceStates, entered, include, new_service_filter}
use rxdaemon.States.Watch.{all_services, all_states}
use rxdaemon.States.Watching.Sending.{Satisfies, all_services_iff}
use rxdaemon.States.Filtering.{lookup-all_states}

abbrev two_states : ServiceStates
two_states = ("a", run) ∷ ("b", idle) ∷ []

all_services_iff_example :
    ((out : ServiceStates) × (all_services entered run ("a" ∷ []) two_states ≡ some out)) ↔ (
      Distinct ("a" ∷ []) × All (λ name. Satisfies entered run (lookup name two_states)) ("a" ∷ []))
all_services_iff_example = all_services_iff entered run ("a" ∷ []) two_states

lookup-all_states_example :
    lookup "a" (all_states (new_service_filter include ("a" ∷ [])) two_states) ≡ some run
unfolding lookup
lookup-all_states_example = lookup-all_states include ("a" ∷ []) two_states "a" (refl, (refl, tt))
