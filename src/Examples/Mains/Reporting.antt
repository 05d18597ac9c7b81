-- ===== src/Examples/Mains/Reporting.antt =====
-- What the mains do, from what their surroundings are like.
use rxdaemon.Prelude.{
  String, ◌≡◌, ◌≢◌, refl, ap, sym, subst, ◌∙◌, Bool, true, false, List, [], ◌∷◌, map, Option, none,
  some, arith, length, ◌≤◌, ◌==◌, if-false, insert, lookup, keys, Dict, if◌then◌else◌,
}
use rxdaemon.States.{ServiceStates, internal_service_states}
use rxdaemon.Log.{level_info}
use rxdaemon.Intracom.Registry.{Typed, new}
use rxdaemon.Daemon.{
  Daemon, new_daemon_with_logger, add_service, add_services, or_default, check_nil_struct_pointer,
}
use rxdaemon.Manager.{apply_options}
use rxdaemon.Daemon.Adding.{IsPaired, add_services-IsPaired}
use rxdaemon.Daemon.Services.{Service, DaemonService, new_service}
use rxdaemon.Daemon.Notify.{Notifier, notifier, no_notifier, new_systemd_notifier}
use rxdaemon.Daemon.Start.{
  Surroundings, Started, nothing_started, start, Result, returns, all_over, launched_by, arriving,
  maps_of,
}
use rxdaemon.Daemon.Start.Launching.{start-launches, start-no_notifier}
use rxdaemon.Examples.Mains.{
  Program, single_service, single_service_custom_manager, run_until_success, multi_service,
  multi_service_rpc, daemon_of, services_of, MainRun, report, run_main, main, fails_with,
  start_error_text,
}

abbrev service_names : Program → List String
service_names single_service = "helloworld-api" ∷ []
service_names single_service_custom_manager = "helloworld-api" ∷ []
service_names run_until_success = "startup-job" ∷ []
service_names multi_service = "HelloWorldAPI" ∷ "PollService" ∷ []
service_names multi_service_rpc = "HelloWorldAPI" ∷ "PollService" ∷ []

daemon_of-IsPaired : (p : Program) (unused : Typed ServiceStates) → IsPaired (daemon_of p unused)
unfolding daemon_of new_daemon_with_logger
daemon_of-IsPaired single_service unused = record { paired = refl; distinct = tt; named = tt }
daemon_of-IsPaired single_service_custom_manager unused = record {
  paired = refl;
  distinct = tt;
  named = tt;
}
daemon_of-IsPaired run_until_success unused = record { paired = refl; distinct = tt; named = tt }
daemon_of-IsPaired multi_service unused = record { paired = refl; distinct = tt; named = tt }
daemon_of-IsPaired multi_service_rpc unused = record { paired = refl; distinct = tt; named = tt }

-- The daemon with its services.
full_daemon : Program → Typed ServiceStates → Daemon
full_daemon p unused = (add_services (services_of p) (daemon_of p unused)).0

-- No service is refused, and the daemon can be started.
record Ready (p : Program) (unused : Typed ServiceStates) : Type 0 where
  accepted : (add_services (services_of p) (daemon_of p unused)).1 ≡ none
  unstarted : (full_daemon p unused).started ≡ false
  names : keys (full_daemon p unused).services ≡ service_names p
  opened : (full_daemon p unused).ic.closed ≡ false
  topicless : lookup internal_service_states (full_daemon p unused).ic.topics ≡ none
  silent : (full_daemon p unused).report_alive_secs ≡ 0
  two_workers : (full_daemon p unused).log_worker_count ≡ 2

every_program-Ready : (p : Program) (unused : Typed ServiceStates) → Ready p unused
unfolding full_daemon daemon_of services_of new_daemon_with_logger apply_options new add_services
    add_service or_default check_nil_struct_pointer insert lookup new_service
every_program-Ready single_service unused = record {
  accepted = refl;
  unstarted = refl;
  names = refl;
  opened = refl;
  topicless = refl;
  silent = refl;
  two_workers = refl;
}
every_program-Ready single_service_custom_manager unused = record {
  accepted = refl;
  unstarted = refl;
  names = refl;
  opened = refl;
  topicless = refl;
  silent = refl;
  two_workers = refl;
}
every_program-Ready run_until_success unused = record {
  accepted = refl;
  unstarted = refl;
  names = refl;
  opened = refl;
  topicless = refl;
  silent = refl;
  two_workers = refl;
}
every_program-Ready multi_service unused = record {
  accepted = refl;
  unstarted = refl;
  names = refl;
  opened = refl;
  topicless = refl;
  silent = refl;
  two_workers = refl;
}
every_program-Ready multi_service_rpc unused = record {
  accepted = refl;
  unstarted = refl;
  names = refl;
  opened = refl;
  topicless = refl;
  silent = refl;
  two_workers = refl;
}

run_main-started :
    (services : List Service) (s : Surroundings) (d : Daemon)
    → (add_services services d).1 ≡ none
    → let (_, result, did) = start s (add_services services d).0 in
      run_main services s d ≡ report result did
unfolding run_main
run_main-started services s d e = rw (e, run_main) refl

main-run_main :
    (p : Program) (unused : Typed ServiceStates) (s : Surroundings)
    → main p unused s ≡ run_main (services_of p) s (daemon_of p unused)
unfolding main daemon_of services_of
main-run_main single_service unused s = refl
main-run_main single_service_custom_manager unused s = refl
main-run_main run_until_success unused s = refl
main-run_main multi_service unused s = refl
main-run_main multi_service_rpc unused s = refl

service_names-ne-nil : (p : Program) → service_names p ≢ []
service_names-ne-nil single_service h = cc
service_names-ne-nil single_service_custom_manager h = cc
service_names-ne-nil run_until_success h = cc
service_names-ne-nil multi_service h = cc
service_names-ne-nil multi_service_rpc h = cc

rpc_quiet : (b : Bool) (o : Option String) → o ≡ none → (if b then o else none) ≡ none
rpc_quiet true o h = h
rpc_quiet false o h = refl

report-none :
    (result : Result) (did : Started)
    → result ≡ returns none
    → report result did
      ≡ record { logs = (level_info, "successfully stopped daemon") ∷ []; code = some 0; did = did }
unfolding report
report-none result did e = rw e refl

module _ (p : Program) (unused : Typed ServiceStates) (s : Surroundings) where
  main-started :
      let (_, result, did) = start s (full_daemon p unused) in main p unused s ≡ report result did
  unfolding full_daemon
  main-started =
      main-run_main p unused s
      ∙ run_main-started (services_of p) s (daemon_of p unused)
          (every_program-Ready p unused).accepted

  full_daemon-IsPaired : IsPaired (full_daemon p unused)
  unfolding full_daemon
  full_daemon-IsPaired =
      add_services-IsPaired (services_of p) (daemon_of p unused) (daemon_of-IsPaired p unused)

  some_services : (full_daemon p unused).services ≢ []
  some_services e =
      service_names-ne-nil p
        (sym (every_program-Ready p unused).names ∙ ap (λ (m : Dict DaemonService). keys m) e)

  -- Where the notifier is made, the RPC server, if there is one, is shut down without an error, the
  -- prestart pipeline ends, all services end, and the states topic takes every map, each of the five
  -- mains launches its services, logs that the daemon has stopped, and exits with 0.
  main-launches :
      (n : Notifier)
      → new_systemd_notifier s.notify_socket 0 s.dialled ≡ notifier n
      → s.rpc_shutdown ≡ none
      → s.prestart_ends ≡ true
      → let d = full_daemon p unused in
        all_over (launched_by d) s.managed (arriving s d).1 ≡ true
        → length (maps_of s d) ≤ s.takes
        → let r = main p unused s in
          (r.code ≡ some 0)
          × (r.logs ≡ (level_info, "successfully stopped daemon") ∷ [])
          × (map (λ l. l.0.name) r.did.launched ≡ service_names p)
  main-launches n e r pre over takes =
      let ready = every_program-Ready p unused in
      let (launched, _, ended) =
        start-launches s n (full_daemon p unused) full_daemon-IsPaired ready.unstarted some_services
          (rpc_quiet (full_daemon p unused).rpc_enabled s.rpc_shutdown r) ready.opened
          ready.topicless
          (subst (λ k. new_systemd_notifier s.notify_socket k s.dialled ≡ notifier n)
            (sym ready.silent) e)
          (if-false ((full_daemon p unused).log_worker_count == 0) _ _ (rw ready.two_workers refl)
            ∙ pre) in
      let (_, _, _, _, stops, _) = ended over takes in
      let (_, result, did) = start s (full_daemon p unused) in
      subst
        (λ (r : MainRun).
          (r.code ≡ some 0)
          × (r.logs ≡ (level_info, "successfully stopped daemon") ∷ [])
          × (map (λ l. l.0.name) r.did.launched ≡ service_names p))
        (sym (
          main-started
          ∙ report-none result did (stops (λ w. ground (arith, w, ready.two_workers)))))
        (refl, refl, launched ∙ ready.names)

  -- Where it is not, no main launches a service: each logs the error and exits with 1.
  main-fails :
      (err : String)
      → new_systemd_notifier s.notify_socket 0 s.dialled ≡ no_notifier err
      → main p unused s ≡ fails_with err nothing_started
  unfolding report start_error_text
  main-fails err e =
      let ready = every_program-Ready p unused in
      main-started
      ∙ ap (λ (r : Daemon × Result × Started). report r.1 r.2)
          (start-no_notifier s err (full_daemon p unused) ready.unstarted some_services (
            subst (λ k. new_systemd_notifier s.notify_socket k s.dialled ≡ no_notifier err)
              (sym ready.silent) e))
