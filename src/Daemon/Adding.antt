-- ===== src/Daemon/Adding.antt =====
-- What holds of the services of a daemon, however they were added.
use rxdaemon.Prelude.{
  String, ◌⊎◌, ◌≡◌, ◌≢◌, refl, sym, ap, subst, ◌∙◌, false, List, [], ◌∷◌, ◌++◌, Option, none, some,
  str_eq, eq_refl, arith, if-true, if-false, Dict, lookup, insert, keys, Distinct, insert-Distinct,
  lookup-insert, Bool-cases, Option-cases, inl, inr, All, All-insert,
}
use rxdaemon.Daemon.Services.{Failure, error, adding_service_once_started, no_service_name, Service}
use rxdaemon.Daemon.{Daemon, or_default, check_nil_struct_pointer, add_service, add_services}

-- Each service has a manager and each manager a service, no name stands twice, and a service is filed
-- under its own name.
pub record IsPaired (d : Daemon) : Type 0 where
  pub paired : keys d.services ≡ keys d.managers
  pub distinct : Distinct (keys d.services)
  pub named : All (λ e. e.1.name ≡ e.0) d.services

keys-insert {ℓ κ} :
    {V : Type ℓ} {W : Type κ} (k : String) (v : V) (w : W) (m : Dict V) (n : Dict W)
    → keys m ≡ keys n
    → keys (insert k v m) ≡ keys (insert k w n)
unfolding insert
keys-insert k v w [] [] h = refl
keys-insert k v w [] (y ∷ n) h = cc
keys-insert k v w (x ∷ m) [] h = cc
keys-insert k v w ((i, x) ∷ m) ((j, y) ∷ n) h =
    let a : i ≡ j = cc in
    let b : keys m ≡ keys n = cc in
    rw a (elim (Bool-cases (str_eq j k)) [
      | inl e ↦ rw e (ap (λ ks. k ∷ ks) b)
      | inr e ↦ rw e (ap (λ ks. j ∷ ks) (keys-insert k v w m n b))
    ])

abbrev failure : {r q : Daemon × Option Failure} → r ≡ q → r.1 ≡ q.1
failure p i = (p i).1

module _ (service : Service) (d : Daemon) where
  -- The daemon with the service in its maps.
  abbrev pub added : Daemon
  added = record d {
    services =
        insert service.name (record { name = service.name; runner = service.runner }) d.services;
    managers = insert service.name (or_default service.manager) d.managers;
  }

  -- Either nothing is changed and there is an error, or the service is in the maps and there is none.
  add_service-cases :
      ((err : Failure) × (add_service service d ≡ (d, some err)))
      ⊎ (add_service service d ≡ (added, none))
  unfolding add_service
  add_service-cases = elim (Bool-cases d.started) [
    | inl y ↦ inl (error adding_service_once_started, if-true d.started _ _ y)
    | inr n ↦ elim (Bool-cases (str_eq service.name "")) [
      | inl y ↦
          inl (
            error no_service_name,
            if-false d.started _ _ n ∙ if-true (str_eq service.name "") _ _ y,
          )
      | inr m ↦
          elim (Option-cases (check_nil_struct_pointer (or_default service.manager) "Manage")) [
            | inl c ↦
                inr (if-false d.started _ _ n ∙ if-false (str_eq service.name "") _ _ m ∙ rw c refl)
            | inr (err, c) ↦ inl (
              err,
              if-false d.started _ _ n ∙ if-false (str_eq service.name "") _ _ m ∙ rw c refl,
            )
          ]
    ]
  ]

  added-IsPaired : IsPaired d → IsPaired added
  added-IsPaired p = record {
    paired = keys-insert service.name _ _ d.services d.managers p.paired;
    distinct = insert-Distinct service.name _ d.services p.distinct;
    named = All-insert (λ e. e.1.name ≡ e.0) service.name _ d.services p.named refl;
  }

  add_service-IsPaired : IsPaired d → IsPaired (add_service service d).0
  add_service-IsPaired p = elim add_service-cases [
    | inl (err, e) ↦ rw e p
    | inr e ↦ rw e (added-IsPaired p)
  ]

-- AddServices keeps the maps of services and of managers in step, whether it fails or not: if they
-- have the same names in the same order, no name twice, and each service is filed under its own name,
-- then this holds afterwards.
pub add_services-IsPaired :
    (services : List Service) (d : Daemon) → IsPaired d → IsPaired (add_services services d).0
unfolding add_services
add_services-IsPaired [] d p = p
add_services-IsPaired (s ∷ ss) d p = elim (Option-cases (add_service s d).1) [
  | inl n ↦
      rw (n, add_services)
        (add_services-IsPaired ss (add_service s d).0 (add_service-IsPaired s d p))
  | inr (err, e) ↦ rw (e, add_services) (add_service-IsPaired s d p)
]

some_ne_none : {e : Failure} → some e ≢ none
some_ne_none h = cc

module _ (s : Service) (ss : List Service) (d : Daemon) where
  add_services-failing :
      (err : Failure) → (add_service s d).1 ≡ some err → add_services (s ∷ ss) d ≡ add_service s d
  unfolding add_services
  add_services-failing err e = rw (e, add_services) refl

  add_services-passing :
      (add_service s d).1 ≡ none → add_services (s ∷ ss) d ≡ add_services ss (add_service s d).0
  unfolding add_services
  add_services-passing n = rw (n, add_services) refl

add_service-fails :
    (s : Service) (d : Daemon) (err : Failure)
    → (add_service s d).1 ≡ some err
    → add_service s d ≡ (d, some err)
add_service-fails s d err e = elim (add_service-cases s d) [
  | inl (err', a) ↦ a ∙ ap (λ o. (d, o)) (sym (ap (λ r. r.1) a) ∙ e)
  | inr a ↦ absurd (some_ne_none (sym e ∙ ap (λ r. r.1) a))
]

add_service-passes :
    (s : Service) (d : Daemon) → (add_service s d).1 ≡ none → add_service s d ≡ (added s d, none)
add_service-passes s d n = elim (add_service-cases s d) [
  | inl (err', a) ↦ absurd (some_ne_none (sym (ap (λ r. r.1) a) ∙ n))
  | inr a ↦ a
]

-- If the first services of a list can be added and the next one cannot, then AddServices fails as
-- that one does, and the daemon has the first ones only: no later service is tried.
add_services-stops :
    (before : List Service) (service : Service) (later : List Service) (d : Daemon) (err : Failure)
    → (add_services before d).1 ≡ none
    → (add_service service (add_services before d).0).1 ≡ some err
    → add_services (before ++ service ∷ later) d ≡ ((add_services before d).0, some err)
unfolding add_services
add_services-stops [] s later d err n e =
    add_services-failing s later d err e ∙ add_service-fails s d err e
add_services-stops (t ∷ before) s later d err n e = elim (Option-cases (add_service t d).1) [
  | inl o ↦
      let first = add_services-passing t before d o in
      add_services-passing t (before ++ s ∷ later) d o
      ∙ add_services-stops before s later (add_service t d).0 err (sym (ap (λ r. r.1) first) ∙ n)
          (sym (ap (λ r. (add_service s r.0).1) first) ∙ e)
      ∙ ap (λ r. (r.0, some err)) (sym first)
  | inr (err', o) ↦
      absurd
        (some_ne_none (sym o ∙ sym (ap (λ r. r.1) (add_services-failing t before d err' o)) ∙ n))
]

-- A service is added only before the start, and with a name.
add_service-needs :
    (s : Service) (d : Daemon)
    → (add_service s d).1 ≡ none
    → (d.started ≡ false) × (str_eq s.name "" ≡ false)
unfolding add_service
add_service-needs s d n = elim (Bool-cases d.started) [
  | inl y ↦ absurd (some_ne_none (sym (failure (if-true d.started _ _ y)) ∙ n))
  | inr m ↦ elim (Bool-cases (str_eq s.name "")) [
    | inl y ↦ absurd (
        some_ne_none
          (sym (failure (if-false d.started _ _ m ∙ if-true (str_eq s.name "") _ _ y)) ∙ n))
    | inr k ↦ (m, k)
  ]
]

add_service-usable :
    (s : Service) (d : Daemon)
    → d.started ≡ false
    → str_eq s.name "" ≡ false
    → check_nil_struct_pointer (or_default s.manager) "Manage" ≡ none
    → add_service s d ≡ (added s d, none)
unfolding add_service
add_service-usable s d n m c =
    if-false d.started _ _ n ∙ if-false (str_eq s.name "") _ _ m ∙ rw c refl

keys-reinsert {ℓ} :
    {V : Type ℓ} (j k : String) (v w : V) (m : Dict V)
    → j ≡ k
    → keys (insert k v (insert j w m)) ≡ keys (insert j w m)
unfolding insert
keys-reinsert j k v w [] h = rw h (ground (arith, eq_refl k))
keys-reinsert j k v w ((i, x) ∷ m) h = elim (Bool-cases (str_eq i j)) [
  | inl e ↦ rw e (rw h (ground (arith, eq_refl k)))
  | inr n ↦
      let b : str_eq i k ≡ false = subst (λ q. str_eq i q ≡ false) h n in
      rw n (rw b (ap (λ ks. i ∷ ks) (keys-reinsert j k v w m h)))
]

add_services-nil : (d : Daemon) → add_services [] d ≡ (d, none)
unfolding add_services
add_services-nil d = refl

lookup-written {ℓ} :
    {V : Type ℓ} (k : String) (v : V) (m : Dict V) → lookup k (insert k v m) ≡ some v
lookup-written k v m = lookup-insert k k v m ∙ ground (arith, eq_refl k)

-- After a service was added, a second one of the same name is no error if its manager is usable:
-- it takes the place of the first, with its manager, and no name is added.
add_service-again :
    (first second : Service) (d : Daemon)
    → first.name ≡ second.name
    → (add_service first d).1 ≡ none
    → check_nil_struct_pointer (or_default second.manager) "Manage" ≡ none
    → let (d', err) = add_services (first ∷ second ∷ []) d in
      (err ≡ none)
      × (lookup second.name d'.services
          ≡ some (record { name = second.name; runner = second.runner }))
      × (lookup second.name d'.managers ≡ some (or_default second.manager))
      × (keys d'.services ≡ keys (add_service first d).0.services)
add_service-again first second d same n c =
    let a = add_service-passes first d n in
    let need = add_service-needs first d n in
    let b =
      add_service-usable second (added first d) need.0
        (subst (λ k. str_eq k "" ≡ false) same need.1) c in
    let both =
      add_services-passing first (second ∷ []) d n
      ∙ ap (λ r. add_services (second ∷ []) r.0) a
      ∙ add_services-passing second [] (added first d) (ap (λ r. r.1) b)
      ∙ ap (λ r. add_services [] r.0) b
      ∙ add_services-nil (added second (added first d)) in
    rw (both, a)
      (
        refl,
        lookup-written second.name _ _,
        lookup-written second.name _ _,
        keys-reinsert first.name second.name _ _ d.services same,
      )
