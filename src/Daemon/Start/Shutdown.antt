-- ===== src/Daemon/Start/Shutdown.antt =====
-- The routines of the services and the states watcher of daemon.go together: how the updates of all
-- services, which arrive on one channel in any order, become the maps that a watcher of states sees.
use rxdaemon.Prelude.{
  String, ◌≡◌, ◌≢◌, refl, sym, ap, subst, ◌∙◌, Bool, true, false, List, [], ◌∷◌, ◌++◌, Option, none,
  some, arith, str_eq, eq_iff, if◌then◌else◌, All, All-map, lookup, contains, Distinct, Bool-cases,
  inl, inr,
}
use rxdaemon.States.{State, exit, init, StateUpdate, ServiceStates, entered}
use rxdaemon.States.Watch.{all_services}
use rxdaemon.States.Watching.Sending.{all_services_iff}
use rxdaemon.States.Publish.{states_watcher, last_state, current, states_watcher-append}
use rxdaemon.Manager.{
  Outcome, Moment, Event, updated, called, logged, reset, Managed, Ending, returned, panicked,
  waits, RunContinuousManager, continuous_manage,
}
use rxdaemon.Manager.Trace.{last_announced}
use rxdaemon.Manager.Updates.{updates_of, Own, Own-append, continuous-Own}
use rxdaemon.Daemon.Start.{service_routine, left_of}
use rxdaemon.Daemon.Start.Routines.{service_routine-exits}

-- How Manage goes for one service.
pub record ServiceRun : Type 0 where
  pub manager : RunContinuousManager
  pub final : Outcome
  pub moments : List Moment

abbrev managed : String → ServiceRun → Managed
managed name r = continuous_manage r.manager name r.final r.moments

-- What the routine of a service sends to the states watcher, where the daemon has that service.
abbrev pub sends : List String → (String → ServiceRun) → String → List StateUpdate
sends services runs name =
    if contains name services
    then updates_of (service_routine name (managed name (runs name)))
    else []

-- The updates that senders have still to send arrive in some order, each sender's in its own.
pub data Arrives : (String → List StateUpdate) → List StateUpdate → Type 0 where
  all_sent :
      {rests : String → List StateUpdate} → ((name : String) → rests name ≡ []) → Arrives rests []
  arrives :
      {rests : String → List StateUpdate} {us : List StateUpdate} (name : String) (u : StateUpdate)
      (rest : List StateUpdate)
      → rests name ≡ u ∷ rest
      → Arrives (left_of rests name rest) us
      → Arrives rests (u ∷ us)

-- Each sender sends updates on its own name only.
abbrev AllOwn : (String → List StateUpdate) → Type 0
AllOwn rests = (name : String) → Own name (rests name)

first-Own :
    (rests : String → List StateUpdate) (name : String) (u : StateUpdate) (rest : List StateUpdate)
    → AllOwn rests
    → rests name ≡ u ∷ rest
    → Own name (u ∷ rest)
first-Own rests name u rest h e = subst (λ us. Own name us) e (h name)

left_of-Own :
    (rests : String → List StateUpdate) (name : String) (u : StateUpdate) (rest : List StateUpdate)
    → AllOwn rests
    → rests name ≡ u ∷ rest
    → AllOwn (left_of rests name rest)
left_of-Own rests name u rest h e other = elim (Bool-cases (str_eq other name)) [
  | inl y ↦
      rw y (
        subst (λ n. Own n rest) (sym ((eq_iff other name).0 y)) (first-Own rests name u rest h e).1)
  | inr n ↦ rw n (h other)
]

str_eq-other : (s t : String) → str_eq s t ≡ false → str_eq t s ≡ false
str_eq-other s t n = ground (arith, eq_iff s t, eq_iff t s, n)

-- What a name's state is after all of them is up to its own sender.
last_state-Arrives :
    (rests : String → List StateUpdate) (us : List StateUpdate) (j : String) (o : Option State)
    → AllOwn rests
    → Arrives rests us
    → last_state j o us ≡ last_state j o (rests j)
last_state-Arrives rests us j o h (all_sent e) = rw (e j) refl
last_state-Arrives rests us j o h (arrives {us = vs} name u rest e a) =
    let o' = if str_eq u.name j then some u.state else o in
    let go =
      last_state-Arrives (left_of rests name rest) vs j o' (left_of-Own rests name u rest h e) a in
    elim (Bool-cases (str_eq j name)) [
      | inl y ↦
          go
          ∙ ap (λ (t : Bool). last_state j o' (if t then rest else rests j)) y
          ∙ ap (λ us. last_state j o us) (sym (ap rests ((eq_iff j name).0 y) ∙ e))
      | inr n ↦
          let other : str_eq u.name j ≡ false =
            subst (λ k. str_eq k j ≡ false) (sym (first-Own rests name u rest h e).0)
              (str_eq-other j name n) in
          go
          ∙ ap (λ (t : Bool). last_state j o' (if t then rest else rests j)) n
          ∙ ap (λ (t : Bool). last_state j (if t then some u.state else o) (rests j)) other
    ]

-- A trace read as updates, or as the states that it announces.
last_state-updates_of :
    (name : String) (d : State) (es : List Event)
    → Own name (updates_of es)
    → last_state name (some d) (updates_of es) ≡ some (last_announced d es)
unfolding last_announced
last_state-updates_of name d [] h = refl
last_state-updates_of name d (updated u ∷ es) h =
    ap (λ (t : Bool). last_state name (if t then some u.state else some d) (updates_of es))
      ((eq_iff u.name name).1 h.0)
    ∙ last_state-updates_of name u.state es h.1
last_state-updates_of name d (called m o ∷ es) h = last_state-updates_of name d es h
last_state-updates_of name d (logged e ∷ es) h = last_state-updates_of name d es h
last_state-updates_of name d (reset n ∷ es) h = last_state-updates_of name d es h

-- A trace that ends with exit, where a service is taken to begin in init, has announced it.
last_announced-exit :
    (es : List Event) → last_announced init es ≡ exit → last_announced exit es ≡ exit
unfolding last_announced
last_announced-exit [] h = refl
last_announced-exit (updated u ∷ es) h = h
last_announced-exit (called m o ∷ es) h = last_announced-exit es h
last_announced-exit (logged e ∷ es) h = last_announced-exit es h
last_announced-exit (reset n ∷ es) h = last_announced-exit es h

routine-Own :
    (name : String) (r : Managed) (e : Ending)
    → r.ending ≡ e
    → Own name (updates_of r.trace)
    → Own name (updates_of (service_routine name r))
unfolding service_routine
routine-Own name r returned h o = rw (h, service_routine) o
routine-Own name r waits h o = rw (h, service_routine) o
routine-Own name r (panicked err) h o =
    rw (h, service_routine)
      (Own-append name r.trace (updated (record { name = name; state = exit }) ∷ []) o (refl, tt))

module _ (services : List String) (runs : String → ServiceRun) where
  sends-Own : AllOwn (sends services runs)
  sends-Own name = elim (Bool-cases (contains name services)) [
    | inl y ↦
        let r = runs name in
        rw y (
          routine-Own name (managed name r) _ refl
            (continuous-Own r.manager name r.final r.moments))
    | inr n ↦ rw n tt
  ]

  -- Every run comes to its end.
  abbrev AllEnd : Type 0
  AllEnd =
      (name : String) → contains name services ≡ true → (managed name (runs name)).ending ≢ waits

  current-exit :
      (us : List StateUpdate) (name : String)
      → AllEnd
      → Arrives (sends services runs) us
      → contains name services ≡ true
      → current services us name ≡ some exit
  current-exit us name ends a c =
      let r = runs name in
      let t = service_routine name (managed name r) in
      last_state-Arrives (sends services runs) us name
        (if contains name services then some exit else none) sends-Own a
      ∙ rw c (
          last_state-updates_of name exit t (
            routine-Own name (managed name r) _ refl
              (continuous-Own r.manager name r.final r.moments))
          ∙ ap some (
              last_announced-exit t
                (service_routine-exits r.manager name r.final r.moments (ends name c))))

  contains-All :
      (names : List String)
      → ((j : String) → contains j names ≡ true → contains j services ≡ true)
      → All (λ j. contains j services ≡ true) names
  contains-All [] h = tt
  contains-All (n ∷ names) h =
      (h n (ground (arith, eq_iff n n)), contains-All names (λ j c. h j (ground (arith, c))))

  -- Let the services of a daemon have distinct names and run continuously, and let every run come to its
  -- end, by its context or by a panic. In whatever order the updates of all services reach the states
  -- watcher, the map that it publishes last shows every service in its exit state, and a watcher that
  -- waits until all of them have entered it is told so by that map.
  pub states_watcher-exits :
      (before : List StateUpdate) (u : StateUpdate)
      → Distinct services
      → AllEnd
      → Arrives (sends services runs) (before ++ u ∷ [])
      → (map : ServiceStates) × (states_watcher services (before ++ u ∷ [])
          ≡ states_watcher services before ++ map ∷ [])
        × ((name : String) → contains name services ≡ true → lookup name map ≡ some exit)
        × (out : ServiceStates) × (all_services entered exit services map ≡ some out)
  states_watcher-exits before u d ends a =
      let (map, e, f) = states_watcher-append services before u in
      let exits : (name : String) → contains name services ≡ true → lookup name map ≡ some exit =
        λ name c. f name ∙ current-exit (before ++ u ∷ []) name ends a c in
      let (out, told) =
        (all_services_iff entered exit services map).1
          (d, All-map services (λ j p. exits j p) (contains-All services (λ j c. c))) in
      (map, e, exits, out, told)
