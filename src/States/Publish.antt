-- ===== src/States/Publish.antt =====
-- The states watcher of daemon.go: it folds the state updates of the services into one map, and
-- publishes a copy of the map on the states topic after each update.
use rxdaemon.Prelude.{
  String, ◌≡◌, refl, sym, ap, ◌∙◌, List, [], ◌∷◌, ◌++◌, Option, none, some, arith, str_eq, eq_iff,
  if◌then◌else◌, lookup, insert, contains, Distinct, keys, or_else, lookup-insert,
  lookup-not-contains, insert-Distinct,
}
use rxdaemon.States.{State, exit, ServiceStates, copy_into, copy, StateUpdate}

-- `for name := range d.services { states[name] = StateExit }`
unfoldable all_exit : List String → ServiceStates → ServiceStates
all_exit [] states = states
all_exit (name ∷ names) states = all_exit names (insert name exit states)

-- `for state := range stateUpdatesC`: what is published, and the map at the end.
unfoldable publish_updates : ServiceStates → List StateUpdate → List ServiceStates × ServiceStates
publish_updates states [] = ([], states)
publish_updates states (u ∷ us) =
    let states' = insert u.name u.state states in
    let (later, final) = publish_updates states' us in (copy states' ∷ later, final)

-- The routine of statesWatcher, from the names of the daemon's services and the updates that arrive
-- before the channel is closed.
unfoldable pub states_watcher : List String → List StateUpdate → List ServiceStates
unfolding all_exit publish_updates copy
states_watcher services us = (publish_updates (all_exit services []) us).0

lookup-copy_into :
    (s c : ServiceStates) (j : String)
    → Distinct (keys s)
    → lookup j (copy_into s c) ≡ or_else (lookup j s) (lookup j c)
unfolding copy_into lookup
lookup-copy_into [] c j d = refl
lookup-copy_into ((k, v) ∷ s) c j d = ground (
  arith,
  eq_iff k j,
  lookup-insert k j v c,
  lookup-not-contains k s d.0,
  lookup-copy_into s (insert k v c) j d.1,
)

lookup-copy : (s : ServiceStates) (j : String) → Distinct (keys s) → lookup j (copy s) ≡ lookup j s
unfolding copy lookup
lookup-copy s j d = ground (arith, lookup-copy_into s [] j d)

all_exit-Distinct :
    (names : List String) (s : ServiceStates)
    → Distinct (keys s)
    → Distinct (keys (all_exit names s))
unfolding all_exit
all_exit-Distinct [] s d = d
all_exit-Distinct (n ∷ ns) s d = all_exit-Distinct ns (insert n exit s) (insert-Distinct n exit s d)

lookup-all_exit :
    (names : List String) (s : ServiceStates) (j : String)
    → lookup j (all_exit names s) ≡ (if contains j names then some exit else lookup j s)
unfolding all_exit
lookup-all_exit [] s j = refl
lookup-all_exit (n ∷ ns) s j =
    ground (arith, lookup-all_exit ns (insert n exit s) j, lookup-insert n j exit s)

publish_updates-Distinct :
    (s : ServiceStates) (us : List StateUpdate)
    → Distinct (keys s)
    → Distinct (keys (publish_updates s us).1)
unfolding publish_updates
publish_updates-Distinct s [] d = d
publish_updates-Distinct s (u ∷ us) d =
    publish_updates-Distinct (insert u.name u.state s) us (insert-Distinct u.name u.state s d)

-- The state of a service after some updates: that of its last update.
abbrev pub last_state : String → Option State → List StateUpdate → Option State
last_state j o [] = o
last_state j o (u ∷ us) = last_state j (if str_eq u.name j then some u.state else o) us

lookup-publish_updates :
    (s : ServiceStates) (us : List StateUpdate) (j : String)
    → lookup j (publish_updates s us).1 ≡ last_state j (lookup j s) us
unfolding publish_updates
lookup-publish_updates s [] j = refl
lookup-publish_updates s (u ∷ us) j =
    lookup-publish_updates (insert u.name u.state s) us j
    ∙ ap (λ o. last_state j o us) (lookup-insert u.name j u.state s)

publish_updates-append :
    (s : ServiceStates) (us : List StateUpdate) (u : StateUpdate)
    → publish_updates s (us ++ u ∷ []) ≡ (
      (publish_updates s us).0 ++ copy (insert u.name u.state (publish_updates s us).1) ∷ [],
      insert u.name u.state (publish_updates s us).1,
    )
unfolding publish_updates
publish_updates-append s [] u = refl
publish_updates-append s (v ∷ us) u = rw (publish_updates-append (insert v.name v.state s) us u)

-- What a subscriber is to see of service `j`: its last update, at first that it has exited, and
-- nothing for a name that is no service and was never updated.
abbrev pub current : List String → List StateUpdate → String → Option State
current services us j = last_state j (if contains j services then some exit else none) us

-- Each further update publishes one more map, and that map holds for every name the state that its
-- last update gave, exit for a service that has had none, and nothing for any other name.
pub states_watcher-append :
    (services : List String) (us : List StateUpdate) (u : StateUpdate)
    → (map : ServiceStates) × (states_watcher services (us ++ u ∷ [])
        ≡ states_watcher services us ++ map ∷ [])
      × ((j : String) → lookup j map ≡ current services (us ++ u ∷ []) j)
unfolding states_watcher lookup
states_watcher-append services us u =
    let s = all_exit services [] in
    let final = (publish_updates s us).1 in
    let d = publish_updates-Distinct s us (all_exit-Distinct services [] tt) in
    (
      copy (insert u.name u.state final),
      ap (λ p. p.0) (publish_updates-append s us u),
      λ j.
          lookup-copy (insert u.name u.state final) j (insert-Distinct u.name u.state final d)
          ∙ ap (λ p. lookup j p.1) (sym (publish_updates-append s us u))
          ∙ lookup-publish_updates s (us ++ u ∷ []) j
          ∙ ap (λ o. last_state j o (us ++ u ∷ [])) (lookup-all_exit services [] j),
    )
