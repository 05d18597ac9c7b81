-- ===== src/Daemon/Start/Once.antt =====
-- A daemon starts once.
use rxdaemon.Prelude.{
  ◌≡◌, refl, ◌∙◌, true, [], none, some, arith, ◌==◌, if◌then◌else◌, if-true, if-false, length,
  Option-cases, Bool-cases, inl, inr,
}
use rxdaemon.Intracom.Registry.{Intracom, Created, created, not_created, create_topic}
use rxdaemon.Daemon.{Daemon, add_service}
use rxdaemon.Daemon.Services.{Service, daemon_started, error, adding_service_once_started}
use rxdaemon.Daemon.Notify.{Notifier, NewNotifier, notifier, no_notifier}
use rxdaemon.Daemon.Start.{
  Surroundings, daemon_error, Started, nothing_started, run_services, with_topic, with_notifier,
  start, states_topic, states_tag, Result, returns, all_over, prestart_over, launched_by, arriving,
  shut_down,
}

abbrev started_of : {r q : Daemon × Result × Started} → r ≡ q → r.0.started ≡ q.0.started
started_of p i = (p i).0.started

shut_down-started :
    (s : Surroundings) (d : Daemon) → d.started ≡ true → (shut_down s d).0.started ≡ true
unfolding shut_down
shut_down-started s d h = elim (Option-cases (if d.rpc_enabled then s.rpc_shutdown else none)) [
  | inr (err, e) ↦ rw (e, shut_down) h
  | inl e ↦ rw (e, shut_down) (ground arith)
]

run_services-started :
    (s : Surroundings) (n : Notifier) (d : Daemon)
    → d.started ≡ true
    → (run_services s n d).0.started ≡ true
unfolding run_services
run_services-started s n d h =
    elim (Bool-cases (all_over (launched_by d) s.managed (arriving s d).1)) [
      | inl y ↦ started_of (if-true _ _ _ y) ∙ shut_down-started s d h
      | inr w ↦ started_of (if-false _ _ _ w) ∙ h
    ]

with_topic-started :
    (s : Surroundings) (n : Notifier) (d : Daemon) (c : Intracom _ × Created)
    → d.started ≡ true
    → (with_topic s n d c).0.started ≡ true
unfolding with_topic
with_topic-started s n d (ic, created a) h = run_services-started s n (record d { ic = ic }) h
with_topic-started s n d (ic, not_created e) h = h

with_notifier-started :
    (s : Surroundings) (d : Daemon) (n : NewNotifier)
    → d.started ≡ true
    → (with_notifier s d n).0.started ≡ true
unfolding with_notifier
with_notifier-started s d (notifier n) h = elim (Bool-cases (prestart_over s d)) [
  | inl y ↦
      started_of (if-true _ _ _ y)
      ∙ with_topic-started s n d (create_topic states_tag [] states_topic d.ic) h
  | inr w ↦ started_of (if-false _ _ _ w) ∙ h
]
with_notifier-started s d (no_notifier e) h = h

start-started : (s : Surroundings) (d : Daemon) → (start s d).0.started ≡ true
unfolding start
start-started s d = elim (Bool-cases d.started) [
  | inl y ↦ started_of (if-true d.started _ _ y) ∙ y
  | inr n ↦ started_of (if-false d.started _ _ n) ∙ elim (Bool-cases (length d.services == 0)) [
    | inl z ↦ started_of (if-true (length d.services == 0) _ _ z)
    | inr m ↦
        started_of (if-false (length d.services == 0) _ _ m)
        ∙ with_notifier-started s (record d { started = true }) _ refl
  ]
]

start-refused :
    (s : Surroundings) (d : Daemon)
    → d.started ≡ true
    → start s d ≡ (d, returns (some (daemon_error daemon_started)), nothing_started)
unfolding start
start-refused s d h = if-true d.started _ _ h

add_service-refused :
    (service : Service) (d : Daemon)
    → d.started ≡ true
    → add_service service d ≡ (d, some (error adding_service_once_started))
unfolding add_service
add_service-refused service d h = if-true d.started _ _ h

-- After a Start, whatever came of it, every further Start fails and every service is refused, and
-- the daemon is unchanged: a Start that fails because there are no services cannot be made good.
pub start-once :
    (s s' : Surroundings) (service : Service) (d : Daemon)
    → let d' = (start s d).0 in
      (start s' d' ≡ (d', returns (some (daemon_error daemon_started)), nothing_started))
      × (add_service service d' ≡ (d', some (error adding_service_once_started)))
start-once s s' service d = (
  start-refused s' (start s d).0 (start-started s d),
  add_service-refused service (start s d).0 (start-started s d),
)
