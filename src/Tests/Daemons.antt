-- ===== src/Tests/Daemons.antt =====
-- Uses of the theorems on daemon.go, service_context.go and notify_systemd_linux.go.
use rxdaemon.Prelude.{
  length, ◌≤◌, ◌≢◌, arith, List, ◌≡◌, refl, [], ◌∷◌, map, none, true, false, lookup, insert, keys,
}
use rxdaemon.States.{init, exit}
use rxdaemon.States.Publish.{states_watcher}
use rxdaemon.Manager.{new_default_manager, ok, continuous_manage, continuous_loop, apply_options}
use rxdaemon.Daemon.Start.Shutdown.{
  ServiceRun, sends, Arrives, arrives, all_sent, states_watcher-exits,
}
use rxdaemon.States.{State, StateUpdate, ServiceStates, entered}
use rxdaemon.States.Watch.{all_services}
use rxdaemon.Manager.{finish, cancelled}
use rxdaemon.Prelude.{some, String, str_eq, if◌then◌else◌, eq_iff, ◌++◌, contains, lookup}
use rxdaemon.Log.{string_field}
use rxdaemon.Intracom.Topic.{new_topic}
use rxdaemon.Intracom.Registry.{new}
use rxdaemon.Daemon.{
  Daemon, new_daemon, new_daemon_with_logger, or_default, check_nil_struct_pointer, add_service,
  add_services,
}
use rxdaemon.Daemon.Services.{nil_manager, Service}
use rxdaemon.Daemon.Adding.{IsPaired, add_services-IsPaired}
use rxdaemon.Daemon.Notify.{new_systemd_notifier, unix_conn}
use rxdaemon.Daemon.Context.{
  Arrays, ServiceContext, contents, with_fields, log, with_fields-siblings,
}
use rxdaemon.Daemon.Start.{
  service_routine, Surroundings, start, states_topic, returns, waits_for_services, waits_for_logs,
  all_over, launched_by, arriving, maps_of, to_send, launch, merge,
}
use rxdaemon.Daemon.Start.Launching.{start-launches}
use rxdaemon.Daemon.Start.Once.{start-once}
use rxdaemon.Daemon.Start.{daemon_error, nothing_started}
use rxdaemon.Daemon.Services.{daemon_started, error, adding_service_once_started}

abbrev clock : Service
clock = record { name = "clock"; runner = 0; manager = nil_manager }

-- A second service of the same name, with another runner.
abbrev second_clock : Service
second_clock = record { name = "clock"; runner = 1; manager = nil_manager }

abbrev unnamed : Service
unnamed = record { name = ""; runner = 2; manager = nil_manager }

abbrev fresh : Daemon
fresh = new_daemon (record { tag = 1; topic = new_topic states_topic [] }) "daemon" []

fresh-IsPaired : IsPaired fresh
unfolding new_daemon new_daemon_with_logger apply_options
fresh-IsPaired = record { paired = refl; distinct = tt; named = tt }

add_services-IsPaired_example : IsPaired (add_services (clock ∷ []) fresh).0
add_services-IsPaired_example = add_services-IsPaired (clock ∷ []) fresh fresh-IsPaired

-- The service is stopped by its context at once.
abbrev surroundings : Surroundings
surroundings = record {
  notify_socket = "";
  dialled = unix_conn;
  ready_fails = none;
  prestart_logs = [];
  prestart_ends = true;
  managed = λ name. continuous_manage (new_default_manager []) name ok (cancelled ∷ []);
  service_logs = [];
  order = "clock" ∷ "clock" ∷ [];
  takes = 100;
  rpc_shutdown = none;
}

abbrev ready_daemon : Daemon
ready_daemon = (add_services (clock ∷ []) fresh).0

start-launches_example :
    let (d', result, did) = start surroundings ready_daemon in
    let over =
      all_over
        (launched_by ready_daemon)
        surroundings.managed
        (arriving surroundings ready_daemon).1 in
    (map (λ l. l.0.name) did.launched ≡ keys ready_daemon.services)
    × (over ≡ false → result ≡ waits_for_services)
    × (over ≡ true
        → length (maps_of surroundings ready_daemon) ≤ surroundings.takes
        → (us : List StateUpdate) × Arrives (to_send surroundings ready_daemon) us
          × (did.published ≡ states_watcher (keys ready_daemon.services) us)
          × (d'.ic.closed ≡ true)
          × (ready_daemon.log_worker_count ≢ 0 → result ≡ returns none)
          × (ready_daemon.log_worker_count ≡ 0 → did.logs ≢ [] → result ≡ waits_for_logs))
unfolding new_daemon new_daemon_with_logger apply_options new add_services add_service or_default
    check_nil_struct_pointer insert lookup new_systemd_notifier
start-launches_example =
    start-launches surroundings (record { watchdog = 0; connected = false }) ready_daemon
      (add_services-IsPaired (clock ∷ []) fresh fresh-IsPaired) refl (λ h. cc) refl refl refl refl
      refl

-- In these surroundings the service ends, and Start returns.
surroundings_over :
    (all_over (launched_by ready_daemon) surroundings.managed (arriving surroundings ready_daemon).1
      ≡ true)
    × (length (maps_of surroundings ready_daemon) ≡ 2)
    × ((start surroundings ready_daemon).1 ≡ returns none)
unfolding new_daemon new_daemon_with_logger apply_options new add_services add_service or_default
    check_nil_struct_pointer insert lookup new_systemd_notifier launch merge start continuous_manage
    continuous_loop finish service_routine states_watcher
surroundings_over = (refl, refl, refl)

-- A daemon without services.
start-once_example :
    let d' = (start surroundings fresh).0 in
    (start surroundings d' ≡ (d', returns (some (daemon_error daemon_started)), nothing_started))
    × (add_service clock d' ≡ (d', some (error adding_service_once_started)))
start-once_example = start-once surroundings surroundings clock fresh

-- A context whose one field stands in an array with room for four.
abbrev arrays : Arrays
arrays = record { cells = λ k. string_field "service" "clock" ∷ []; next = 1 }

abbrev roomy : ServiceContext
roomy = record {
  context = 0;
  name = "clock";
  fqcn = "clock";
  fields = record { array = 0; len = 1; cap = 4 };
}

with_fields-siblings_example :
    let (first, h') = with_fields 0 (string_field "a" "1" ∷ []) roomy arrays in
    let (second, h'') = with_fields 0 (string_field "b" "2" ∷ []) roomy h' in
    let service = string_field "service" "clock" in
    ((log h' first 6 "tick" []).fields ≡ service ∷ string_field "a" "1" ∷ [])
    × ((log h'' first 6 "tick" []).fields ≡ service ∷ string_field "b" "2" ∷ [])
    × ((log h'' second 6 "tick" []).fields ≡ service ∷ string_field "b" "2" ∷ [])
unfolding contents
with_fields-siblings_example =
    with_fields-siblings 0 (string_field "a" "1" ∷ []) (string_field "b" "2" ∷ []) roomy arrays 6
      "tick" [] (omega arith) refl refl

-- Init panics.
abbrev two_services : List String
two_services = "a" ∷ "b" ∷ []

abbrev stopped_at_once : String → ServiceRun
stopped_at_once name = record {
  manager = new_default_manager [];
  final = ok;
  moments = cancelled ∷ [];
}

abbrev update_of : String → State → StateUpdate
update_of name state = record { name = name; state = state }

abbrev all_but_last : List StateUpdate
all_but_last = update_of "a" init ∷ update_of "b" init ∷ update_of "b" exit ∷ []

nothing_left :
    (name : String)
    → (if str_eq name "a"
        then []
        else if str_eq name "b"
        then []
        else if str_eq name "b"
        then update_of "b" exit ∷ []
        else if str_eq name "a"
        then update_of "a" exit ∷ []
        else sends two_services stopped_at_once name)
      ≡ []
nothing_left name =
    ground (arith, eq_iff name "a", eq_iff "a" name, eq_iff name "b", eq_iff "b" name)

states_watcher-exits_example :
    let us = all_but_last ++ update_of "a" exit ∷ [] in
    (map : ServiceStates) × (states_watcher two_services us
      ≡ states_watcher two_services all_but_last ++ map ∷ [])
    × ((name : String) → contains name two_services ≡ true → lookup name map ≡ some exit)
    × (out : ServiceStates) × (all_services entered exit two_services map ≡ some out)
unfolding continuous_manage continuous_loop finish service_routine
states_watcher-exits_example =
    states_watcher-exits two_services stopped_at_once all_but_last (update_of "a" exit)
      (refl, (refl, tt)) (λ name c e. cc)
      (arrives "a" (update_of "a" init) (update_of "a" exit ∷ []) refl (
        arrives "b" (update_of "b" init) (update_of "b" exit ∷ []) refl (
          arrives "b" (update_of "b" exit) [] refl
            (arrives "a" (update_of "a" exit) [] refl (all_sent nothing_left)))))
