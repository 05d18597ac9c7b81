-- ===== src/States/Watch.antt =====
-- The watcher routines of service_context.go: what WatchAllServices, WatchAnyServices and
-- WatchAllStates send out for each message of the states topic.
use rxdaemon.Prelude.{
  String, Bool, true, false, not, ◌||◌, List, [], ◌∷◌, Option, none, some, ◌==◌, ltb, if◌then◌else◌,
  length, Dict, lookup, insert,
}
use rxdaemon.States.{
  State, state_eq, ServiceStates, ServiceAction, entered, exited, changed, entering, exiting,
  changing, not_in, unnamed, FilterMode, none_mode, include, exclude, other_mode, ServiceFilter,
}

-- The inner `switch action`: whether a service in state `val` is recorded.
unfoldable wanted : ServiceAction → State → State → Bool
wanted entered target val = state_eq val target
wanted entering target val = state_eq val target
wanted exited target val = state_eq val target
wanted exiting target val = state_eq val target
wanted not_in target val = not (state_eq val target)
wanted changed target val = false
wanted changing target val = false
wanted (unnamed n) target val = false

-- `if val, ok := states[name]; ok && …`
unfoldable pub wanted_in : ServiceAction → State → Option State → Bool
unfolding wanted
wanted_in action target none = false
wanted_in action target (some val) = wanted action target val

abbrev pub record_state : Bool → String → Option State → ServiceStates → ServiceStates
record_state true name (some val) acc = insert name val acc
record_state _ name _ acc = acc

-- `for _, name := range services`, over the map built so far.
unfoldable pub interested :
    ServiceAction → State → ServiceStates → List String → ServiceStates → ServiceStates
unfolding wanted_in
interested action target states [] acc = acc
interested action target states (name ∷ names) acc =
    interested action target states names
      (record_state (wanted_in action target (lookup name states)) name (lookup name states) acc)

-- What one message makes WatchAllServices send.
unfoldable pub all_services :
    ServiceAction → State → List String → ServiceStates → Option ServiceStates
unfolding interested
all_services action target services states =
    let found = interested action target states services [] in
    if length found == length services then some found else none

-- What one message makes WatchAnyServices send.
unfoldable pub any_services :
    ServiceAction → State → List String → ServiceStates → Option ServiceStates
unfolding interested
any_services action target services states =
    let found = interested action target states services [] in
    if ltb 0 (length found) then some found else none

unfoldable pub named : Dict (Unit {0}) → String → Bool
named names name = elim (lookup name names) [ none ↦ false | some _ ↦ true ]

-- The inner `switch filter.Mode`.
unfoldable pub kept : FilterMode → Dict (Unit {0}) → String → Bool
unfolding named
kept none_mode names name = false
kept include names name = named names name
kept exclude names name = not (named names name)
kept (other_mode n) names name = false

-- `for name, state := range states`
unfoldable pub filtered :
    FilterMode → Dict (Unit {0}) → ServiceStates → ServiceStates → ServiceStates
unfolding kept
filtered mode names [] acc = acc
filtered mode names ((name, state) ∷ states) acc =
    filtered mode names states (if kept mode names name then insert name state acc else acc)

abbrev pub mode_is_none : FilterMode → Bool
mode_is_none none_mode = true
mode_is_none _ = false

-- What one message makes WatchAllStates send.
unfoldable pub all_states : ServiceFilter → ServiceStates → ServiceStates
unfolding filtered
all_states filter states =
    if length filter.names == 0 || mode_is_none filter.mode
    then states
    else filtered filter.mode filter.names states []

-- What a watcher's `select` receives: its context is done, the subscription is closed, or a message
-- comes, with whether the context is done when the watcher wants to send.
pub data Received : Type 0 where
  done : Received
  closed : Received
  message : ServiceStates → Bool → Received

pub record Watched : Type 0 where
  pub sent : List ServiceStates
  pub ended : Bool

abbrev also_sent : ServiceStates → Watched → Watched
also_sent out w = record w { sent = out ∷ w.sent }

-- The routine of a watcher whose answer to one message is `answer`.
unfoldable pub watch : (ServiceStates → Option ServiceStates) → List Received → Watched
watch answer [] = record { sent = []; ended = false }
watch answer (done ∷ rest) = record { sent = []; ended = true }
watch answer (closed ∷ rest) = record { sent = []; ended = true }
watch answer (message states cancelled ∷ rest) =
    let further = watch answer rest in
    elim (answer states) [
      | none ↦ further
      | some out ↦ if cancelled then record { sent = []; ended = true } else also_sent out further
    ]

unfoldable pub watch_all_services : ServiceAction → State → List String → List Received → Watched
unfolding watch all_services
watch_all_services action target services = watch (all_services action target services)

unfoldable pub watch_any_services : ServiceAction → State → List String → List Received → Watched
unfolding watch any_services
watch_any_services action target services = watch (any_services action target services)

unfoldable pub watch_all_states : ServiceFilter → List Received → Watched
unfolding watch all_states
watch_all_states filter = watch (λ states. some (all_states filter states))
