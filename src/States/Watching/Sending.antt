-- ===== src/States/Watching/Sending.antt =====
-- When WatchAllServices and WatchAnyServices send something, and what.
use rxdaemon.Prelude.{
  String, ◌≡◌, ◌≢◌, ◌↔◌, refl, subst, inl, inr, true, List, [], ◌∷◌, Option, none, some, arith,
  str_eq, eq_iff, if◌then◌else◌, All, All-map, Bool-cases, lookup, contains, Distinct,
}
use rxdaemon.States.{
  State, state_eq_iff, ServiceStates, ServiceAction, entered, exited, changed, entering, exiting,
  changing, not_in, unnamed,
}
use rxdaemon.States.Watch.{wanted_in, interested, all_services, any_services}
use rxdaemon.States.Watching.{lookup-interested, AllFresh, full-AllFresh, AllFresh-full}

hit_of_contains :
    (action : ServiceAction) (target : State) (states : ServiceStates) (names : List String)
    → AllFresh action target states names []
    → (j : String) → contains j names ≡ true
    → wanted_in action target (lookup j states) ≡ true
hit_of_contains action target states [] f j h = cc
hit_of_contains action target states (name ∷ names) f j h = elim (Bool-cases (str_eq name j)) [
  | inl e ↦
      subst (λ k. wanted_in action target (lookup k states) ≡ true) ((eq_iff name j).0 e) f.0.0
  | inr n ↦ hit_of_contains action target states names f.1 j (ground arith)
]

-- What a state must be for an action, as the code compares it. The actions Exited and Exiting are treated
-- as Entered and Entering are: the service is in the target state, and has not left it.
abbrev pub Satisfies : ServiceAction → State → Option State → Type 0
Satisfies entered target o = o ≡ some target
Satisfies entering target o = o ≡ some target
Satisfies exited target o = o ≡ some target
Satisfies exiting target o = o ≡ some target
Satisfies not_in target o = (val : State) × (o ≡ some val) × (val ≢ target)
Satisfies changed target o = ⊥
Satisfies changing target o = ⊥
Satisfies (unnamed n) target o = ⊥

equal_wanted :
    (target : State) (o : Option State) → wanted_in entered target o ≡ true ↔ (o ≡ some target)
unfolding wanted_in
equal_wanted target none = (λ h. cc, λ h. cc)
equal_wanted target (some v) = ground (arith, state_eq_iff v target)

wanted_in_iff :
    (action : ServiceAction) (target : State) (o : Option State)
    → (wanted_in action target o ≡ true) ↔ Satisfies action target o
unfolding wanted_in
wanted_in_iff not_in target (some v) = (
  λ h. (v, refl, λ e. ground (arith, state_eq_iff v target)),
  λ s. ground (arith, state_eq_iff v target, s.2),
)
wanted_in_iff not_in target none = (λ h. cc, λ s. cc (s.1))
wanted_in_iff changed target none = (λ h. cc, λ s. absurd s)
wanted_in_iff changed target (some v) = (λ h. cc, λ s. absurd s)
wanted_in_iff changing target none = (λ h. cc, λ s. absurd s)
wanted_in_iff changing target (some v) = (λ h. cc, λ s. absurd s)
wanted_in_iff (unnamed n) target none = (λ h. cc, λ s. absurd s)
wanted_in_iff (unnamed n) target (some v) = (λ h. cc, λ s. absurd s)
wanted_in_iff entered target o = equal_wanted target o
wanted_in_iff entering target none = equal_wanted target none
wanted_in_iff entering target (some v) = equal_wanted target (some v)
wanted_in_iff exited target none = equal_wanted target none
wanted_in_iff exited target (some v) = equal_wanted target (some v)
wanted_in_iff exiting target none = equal_wanted target none
wanted_in_iff exiting target (some v) = equal_wanted target (some v)

module _ (action : ServiceAction) (target : State) (services : List String)
    (states : ServiceStates) where
  abbrev AllSatisfy : Type 0
  AllSatisfy = All (λ name. Satisfies action target (lookup name states)) services

  -- WatchAllServices sends something for a message exactly when the names that it was given are
  -- distinct and the message has for every one a state that the action accepts: the target state for
  -- Entered, Entering, and also for Exited and Exiting, which a service is thus told of while it is in
  -- that state; any other state for NotIn; none for Changed, Changing and unnamed actions.
  pub all_services_iff :
      ((out : ServiceStates) × (all_services action target services states ≡ some out))
      ↔ (Distinct services × AllSatisfy)
  unfolding all_services lookup
  all_services_iff = (
    λ (out, h).
        let f = full-AllFresh action target states services [] (ground arith) in
        (f.1, All-map services (λ j p. (wanted_in_iff action target (lookup j states)).0 p.0) f.0),
    λ (d, s).
        let n =
          AllFresh-full action target states services []
            (All-map services (λ j p. ((wanted_in_iff action target (lookup j states)).1 p, refl))
              s)
            d in
        (interested action target states services [], ground arith),
  )

  -- What WatchAllServices sends holds the current state of every service that it was given, and of
  -- no other service.
  lookup-all_services :
      (out : ServiceStates) (j : String)
      → all_services action target services states ≡ some out
      → lookup j out ≡ (if contains j services then lookup j states else none)
  unfolding all_services lookup
  lookup-all_services out j h =
      let f = full-AllFresh action target states services [] (ground arith) in
      ground (
        arith,
        lookup-interested action target states services [] j,
        hit_of_contains action target states services f.0 j,
      )

  -- What WatchAnyServices sends holds, of the services that it was given, those whose state satisfies
  -- the action, with that state, and nothing else.
  lookup-any_services :
      (out : ServiceStates) (j : String) (v : State)
      → any_services action target services states ≡ some out
      → (lookup j out ≡ some v) ↔ (
          (contains j services ≡ true)
          × (lookup j states ≡ some v)
          × Satisfies action target (lookup j states))
  unfolding any_services lookup
  lookup-any_services out j v h =
      let e : out ≡ interested action target states services [] = ground arith in
      let w = wanted_in_iff action target (lookup j states) in
      let l = lookup-interested action target states services [] j in
      rw e
        (rw l (λ p. (ground arith, ground arith, w.0 (ground arith)), λ p. ground (arith, w.1 p.2)))
