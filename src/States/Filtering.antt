-- ===== src/States/Filtering.antt =====
-- What WatchAllStates of service_context.go sends, for any filter.
use rxdaemon.Prelude.{
  String, ◌≡◌, ◌≢◌, refl, ◌∙◌, Bool, true, false, not, List, [], ◌∷◌, none, some, arith, eq_iff,
  eq_refl, if◌then◌else◌, length, Dict, lookup, insert, lookup-insert, contains, keys, or_else,
  lookup-not-contains, Distinct,
}
use rxdaemon.States.{
  ServiceStates, FilterMode, none_mode, include, exclude, other_mode, name_set, new_service_filter,
}
use rxdaemon.States.Watch.{named, kept, filtered, all_states, mode_is_none}

lookup-filtered :
    (mode : FilterMode) (names : Dict (Unit {0})) (states acc : ServiceStates) (j : String)
    → Distinct (keys states)
    → lookup j (filtered mode names states acc)
      ≡ (if kept mode names j then or_else (lookup j states) (lookup j acc) else lookup j acc)
unfolding filtered lookup
lookup-filtered mode names [] acc j d = ground arith
lookup-filtered mode names ((name, state) ∷ states) acc j d = ground (
  arith,
  eq_iff name j,
  lookup-insert name j state acc,
  lookup-not-contains name states d.0,
  lookup-filtered mode names states (if kept mode names name then insert name state acc else acc) j
      d.1,
)

lookup-name_set :
    (names : List String) (set : Dict (Unit {0})) (j : String)
    → lookup j (name_set names set) ≡ (if contains j names then some tt else lookup j set)
unfolding name_set
lookup-name_set [] set j = refl
lookup-name_set (name ∷ names) set j =
    ground (arith, lookup-name_set names (insert name tt set) j, lookup-insert name j tt set)

name_set-pos : (name : String) (names : List String) → length (name_set (name ∷ names) []) ≢ 0
unfolding lookup
name_set-pos name names h =
    let l = lookup-name_set (name ∷ names) [] name in
    go (name_set (name ∷ names) []) h (l ∙ ground (arith, eq_refl name))
  where
    go : (m : Dict (Unit {0})) → length m ≡ 0 → lookup name m ≡ some tt → ⊥
    go [] e l = cc
    go (x ∷ m) e l = omega arith

-- The services that a filter lets through: an empty filter lets all through.
abbrev lets_through : FilterMode → List String → String → Bool
lets_through mode [] j = true
lets_through none_mode (n ∷ ns) j = true
lets_through include (n ∷ ns) j = contains j (n ∷ ns)
lets_through exclude (n ∷ ns) j = not (contains j (n ∷ ns))
lets_through (other_mode k) (n ∷ ns) j = false

named-contains : (names : List String) (j : String) → named (name_set names []) j ≡ contains j names
unfolding named lookup
named-contains names j = ground (arith, lookup-name_set names [] j)

all_states-filtered :
    (mode : FilterMode) (n : String) (ns : List String) (states : ServiceStates)
    → mode_is_none mode ≡ false
    → all_states (new_service_filter mode (n ∷ ns)) states
      ≡ filtered mode (name_set (n ∷ ns) []) states []
unfolding all_states new_service_filter
all_states-filtered mode n ns states h = ground (arith, name_set-pos n ns)

-- For a filter made by NewServiceFilter and a message without a repeated key, what WatchAllStates
-- sends holds the states of exactly the services that the filter lets through.
pub lookup-all_states :
    (mode : FilterMode) (names : List String) (states : ServiceStates) (j : String)
    → Distinct (keys states)
    → lookup j (all_states (new_service_filter mode names) states)
      ≡ (if lets_through mode names j then lookup j states else none)
unfolding all_states new_service_filter lookup kept
lookup-all_states mode [] states j d = refl
lookup-all_states none_mode (n ∷ ns) states j d = ground arith
lookup-all_states include (n ∷ ns) states j d = rw (all_states-filtered include n ns states refl) (
    lookup-filtered include (name_set (n ∷ ns) []) states [] j d
    ∙ ground (arith, named-contains (n ∷ ns) j))
lookup-all_states exclude (n ∷ ns) states j d = rw (all_states-filtered exclude n ns states refl) (
    lookup-filtered exclude (name_set (n ∷ ns) []) states [] j d
    ∙ ground (arith, named-contains (n ∷ ns) j))
lookup-all_states (other_mode k) (n ∷ ns) states j d =
    rw (all_states-filtered (other_mode k) n ns states refl)
      (lookup-filtered (other_mode k) (name_set (n ∷ ns) []) states [] j d)
