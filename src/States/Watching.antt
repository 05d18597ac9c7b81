-- ===== src/States/Watching.antt =====
-- What WatchAllServices and WatchAnyServices of service_context.go send, for any states and any list
-- of services.
pub mod Sending
use rxdaemon.Prelude.{
  ◌+◌, ◌≤◌, ◌<◌, String, ◌≡◌, ◌≢◌, ◌↔◌, refl, subst, inl, inr, Bool, true, false, ◌&&◌, List, [],
  ◌∷◌, Option, none, some, arith, str_eq, eq_iff, if◌then◌else◌, length, All, All-map, All-both,
  Bool-cases, lookup, lookup-insert, length-insert, contains, Distinct,
}
use rxdaemon.States.{
  State, state_eq_iff, ServiceStates, ServiceAction, entered, exited, changed, entering, exiting,
  changing, not_in, unnamed,
}
use rxdaemon.States.Watch.{wanted_in, record_state, interested, all_services, any_services}

module _ (action : ServiceAction) (target : State) (states : ServiceStates) where
  abbrev hit : String → Bool
  hit name = wanted_in action target (lookup name states)

  -- One turn of the loop, seen through `lookup`.
  lookup-record_state :
      (name j : String) (o : Option State) (acc : ServiceStates)
      → lookup j (record_state (wanted_in action target o) name o acc)
        ≡ (if str_eq name j && wanted_in action target o then o else lookup j acc)
  unfolding wanted_in
  lookup-record_state name j none acc = ground arith
  lookup-record_state name j (some v) acc = ground (arith, lookup-insert name j v acc)

  lookup-interested :
      (names : List String) (acc : ServiceStates) (j : String)
      → lookup j (interested action target states names acc)
        ≡ (if contains j names && hit j then lookup j states else lookup j acc)
  unfolding interested
  lookup-interested [] acc j = refl
  lookup-interested (name ∷ names) acc j = ground (
    arith,
    eq_iff name j,
    lookup-interested names (record_state (hit name) name (lookup name states) acc) j,
    lookup-record_state name j (lookup name states) acc,
  )

  -- Every name is a hit that the map does not hold yet.
  abbrev AllFresh : List String → ServiceStates → Type 0
  AllFresh names acc = All (λ name. (hit name ≡ true) × (lookup name acc ≡ none)) names

  length-record_state-le :
      (name : String) (o : Option State) (acc : ServiceStates)
      → length (record_state (wanted_in action target o) name o acc) ≤ length acc + 1
  unfolding wanted_in
  length-record_state-le name none acc = omega arith
  length-record_state-le name (some v) acc = ground (arith, length-insert name v acc)

  length-interested-le :
      (names : List String) (acc : ServiceStates)
      → length (interested action target states names acc) ≤ length acc + length names
  unfolding interested
  length-interested-le [] acc = omega arith
  length-interested-le (name ∷ names) acc = omega (
    arith,
    length-interested-le names (record_state (hit name) name (lookup name states) acc),
    length-record_state-le name (lookup name states) acc,
  )

  -- A map that grew by one had no entry for a name that is a hit.
  grown :
      (name : String) (o : Option State) (acc : ServiceStates)
      → length acc < length (record_state (wanted_in action target o) name o acc)
      → (wanted_in action target o ≡ true) × (lookup name acc ≡ none)
  unfolding wanted_in
  grown name none acc h = absurd (omega arith)
  grown name (some v) acc h = ground (arith, length-insert name v acc)

  not-contains :
      (name : String) (names : List String)
      → All (λ j. str_eq name j ≡ false) names
      → contains name names ≡ false
  not-contains name [] h = refl
  not-contains name (j ∷ names) h =
      ground (arith, not-contains name names h.1, eq_iff j name, eq_iff name j)

  fresh_before :
      (name j : String) (acc : ServiceStates)
      → hit name ≡ true
      → (hit j ≡ true) × (lookup j (record_state (hit name) name (lookup name states) acc) ≡ none)
      → (str_eq name j ≡ false) × (hit j ≡ true) × (lookup j acc ≡ none)
  unfolding wanted_in
  fresh_before name j acc h p =
      ground (arith, eq_iff name j, lookup-record_state name j (lookup name states) acc)

  full-AllFresh :
      (names : List String) (acc : ServiceStates)
      → length acc + length names ≤ length (interested action target states names acc)
      → AllFresh names acc × Distinct names
  unfolding interested
  full-AllFresh [] acc h = (tt, tt)
  full-AllFresh (name ∷ names) acc h =
      let acc' = record_state (hit name) name (lookup name states) acc in
      let here =
        grown name (lookup name states) acc (omega (arith, length-interested-le names acc')) in
      let ih =
        full-AllFresh names acc'
          (omega (arith, length-record_state-le name (lookup name states) acc)) in
      let before = All-map names (λ j p. fresh_before name j acc here.0 p) ih.0 in
      (
        (here, All-map names (λ j p. (p.1, p.2)) before),
        (not-contains name names (All-map names (λ j p. p.0) before), ih.1),
      )

  fresh_after :
      (name j : String) (acc : ServiceStates)
      → str_eq name j ≡ false
      → (hit j ≡ true) × (lookup j acc ≡ none)
      → (hit j ≡ true) × (lookup j (record_state (hit name) name (lookup name states) acc) ≡ none)
  fresh_after name j acc n p = ground (arith, lookup-record_state name j (lookup name states) acc)

  apart :
      (name : String) (names : List String)
      → contains name names ≡ false
      → All (λ j. str_eq name j ≡ false) names
  apart name [] h = tt
  apart name (j ∷ names) h =
      (ground (arith, eq_iff j name, eq_iff name j), apart name names (ground arith))

  length-record_state :
      (name : String) (o : Option State) (acc : ServiceStates)
      → wanted_in action target o ≡ true
      → lookup name acc ≡ none
      → length (record_state (wanted_in action target o) name o acc) ≡ length acc + 1
  unfolding wanted_in
  length-record_state name none acc h n = cc
  length-record_state name (some v) acc h n = ground (arith, length-insert name v acc)

  AllFresh-full :
      (names : List String) (acc : ServiceStates)
      → AllFresh names acc
      → Distinct names
      → length (interested action target states names acc) ≡ length acc + length names
  unfolding interested
  AllFresh-full [] acc f d = omega arith
  AllFresh-full (name ∷ names) acc f d =
      let acc' = record_state (hit name) name (lookup name states) acc in
      let later =
        All-map names (λ j p. fresh_after name j acc p.0 p.1)
          (All-both (λ j. str_eq name j ≡ false) (λ j. (hit j ≡ true) × (lookup j acc ≡ none)) names
            (apart name names d.0) f.1) in
      omega (
        arith,
        AllFresh-full names acc' later d.1,
        length-record_state name (lookup name states) acc f.0.0 f.0.1,
      )
