-- ===== src/Daemon/Start.antt =====
-- Start of daemon.go, from its guards to its return or to a wait that it never leaves, and the routine
-- of one service. What Manage does for each service is given.
pub mod Arriving
pub mod Launching
pub mod Once
pub mod Routines
pub mod Shutdown
use rxdaemon.Prelude.{
  ℕ, String, Bool, true, false, List, [], ◌∷◌, ◌++◌, map, Option, none, some, ◌==◌, if◌then◌else◌,
  length, lookup, keys, Dict, suc, take, contains, str_eq, ltb, leb, ◌&&◌,
}
use rxdaemon.States.{State, exit, ServiceStates, StateUpdate, internal_service_states}
use rxdaemon.States.Publish.{states_watcher}
use rxdaemon.Log.{DaemonLog}
use rxdaemon.Manager.{Event, updated, Managed, Ending, returned, panicked, waits}
use rxdaemon.Manager.Updates.{updates_of}
use rxdaemon.Daemon.LogWatcher.{log_capacity}
use rxdaemon.Intracom.Errors.{Err}
use rxdaemon.Intracom.Topic.{TopicConfig}
use rxdaemon.Intracom.Registry.{
  Intracom, Created, created, not_created, create_topic, close_intracom,
}
use rxdaemon.Daemon.{Daemon}
use rxdaemon.Daemon.Services.{DaemonError, daemon_started, no_services, Manager, DaemonService}
use rxdaemon.Daemon.Notify.{
  Notifier, NewNotifier, notifier, no_notifier, new_systemd_notifier, Dialled, notify, ready,
  stopping,
}

-- What Start meets: the value of NOTIFY_SOCKET and what dialling it returns, the errors of the writes
-- to it, what the prestart pipeline reports and whether it ends, how far Manage goes for a service, by
-- its name, the entries that the services log, the order in which they send their updates, how many maps
-- the states topic takes before it is stuck in a subscriber that blocks, and what shutting the RPC
-- server down returns.
pub record Surroundings : Type 0 where
  pub notify_socket : String
  pub dialled : Dialled
  pub ready_fails : Option String
  pub prestart_logs : List DaemonLog
  pub prestart_ends : Bool
  pub managed : String → Managed
  pub service_logs : List DaemonLog
  pub order : List String
  pub takes : ℕ
  pub rpc_shutdown : Option String

-- The error that Start returns.
pub data StartError : Type 0 where
  daemon_error : DaemonError → StartError
  notifier_error : String → StartError
  topic_error : Err → StartError
  rpc_error : String → StartError

-- A Start returns, or waits for ever: for the prestart pipeline to take its entries or to end, for the
-- services, for the states watcher, for the log watcher.
pub data Result : Type 0 where
  returns : Option StartError → Result
  waits_for_prestart waits_for_services waits_for_states waits_for_logs : Result

-- What a Start has done: the services launched with their managers, the log entries of the prestart,
-- what is published on the states topic, what is written to systemd when the daemon is ready.
pub record Started : Type 0 where
  pub launched : List (DaemonService × Manager)
  pub logs : List DaemonLog
  pub published : List ServiceStates
  pub written : List String

abbrev pub nothing_started : Started
nothing_started = record { launched = []; logs = []; published = []; written = [] }

-- `for _, service := range d.services`: one whose manager is missing is passed over.
unfoldable pub launch : Dict DaemonService → Dict Manager → List (DaemonService × Manager)
launch [] managers = []
launch ((k, service) ∷ services) managers =
    let rest = launch services managers in
    elim (lookup service.name managers) [ none ↦ rest | some manager ↦ (service, manager) ∷ rest ]

abbrev pub states_topic : TopicConfig
states_topic = record {
  name = internal_service_states;
  err_if_exists = true;
  subscriber_aware = false;
}

-- The Go type ServiceStates is number 1.
abbrev pub states_tag : ℕ
states_tag = 1

-- The routine of one service: what Manage does and, if it panics, the update that the recovery sends.
unfoldable pub service_routine : String → Managed → List Event
service_routine name m = elim m.ending [
  | panicked err ↦ m.trace ++ updated (record { name = name; state = exit }) ∷ []
  | _ ↦ m.trace
]

-- What is still to be sent by a service other than `name`, and `rest` by that one.
abbrev pub left_of :
    (String → List StateUpdate) → String → List StateUpdate → String → List StateUpdate
left_of rests name rest other = if str_eq other name then rest else rests other

-- `stateUpdateC`: each name in the order stands for the next send of that service. What arrives, and
-- what is then still to be sent.
unfoldable pub merge :
    List String → (String → List StateUpdate) → List StateUpdate × (String → List StateUpdate)
merge [] rests = ([], rests)
merge (name ∷ order) rests = elim (rests name) [
  | [] ↦ merge order rests
  | u ∷ rest ↦ let (us, unsent) = merge order (left_of rests name rest) in (u ∷ us, unsent)
]

-- `dwg.Wait()` is left when every routine has returned, which it does when it has sent all its updates
-- and Manage does not go on.
abbrev is_over : Managed → List StateUpdate → Bool
is_over m (u ∷ unsent) = false
is_over m [] = elim m.ending [ waits ↦ false | _ ↦ true ]

abbrev pub all_over :
    List (DaemonService × Manager) → (String → Managed) → (String → List StateUpdate) → Bool
all_over [] managed unsent = true
all_over ((service, manager) ∷ launched) managed unsent =
    if is_over (managed service.name) (unsent service.name)
    then all_over launched managed unsent
    else false

-- With no worker, the log watcher takes one entry and never ends.
abbrev is_stuck : ℕ → List DaemonLog → Bool
is_stuck workers [] = false
is_stuck workers (e ∷ logs) = workers == 0

-- The loop over `errC`: with no worker, there is room for the entry that the log watcher holds and for
-- those in the channel.
abbrev prestart_over : Surroundings → Daemon → Bool
prestart_over s d =
    if d.log_worker_count == 0
    then s.prestart_ends && leb (length s.prestart_logs) (suc log_capacity)
    else s.prestart_ends

-- The services that the loop has launched, and what arrives of what their routines send.
abbrev pub launched_by : Daemon → List (DaemonService × Manager)
launched_by d = launch d.services d.managers

abbrev pub to_send : Surroundings → Daemon → String → List StateUpdate
to_send s d name =
    if contains name (map (λ l. l.0.name) (launched_by d))
    then updates_of (service_routine name (s.managed name))
    else []

abbrev pub arriving : Surroundings → Daemon → List StateUpdate × (String → List StateUpdate)
arriving s d = merge s.order (to_send s d)

abbrev pub maps_of : Surroundings → Daemon → List ServiceStates
maps_of s d = states_watcher (keys d.services) (arriving s d).0

abbrev done_by : Surroundings → Notifier → Daemon → Started
done_by s n d = record {
  launched = launched_by d;
  logs = s.prestart_logs ++ s.service_logs;
  published = take s.takes (maps_of s d);
  written = (notify n ready s.ready_fails).0;
}

-- Once all services have ended. An error of the RPC server's shutdown is returned before anything is
-- closed; then Start waits for the states watcher, closes the registry, and waits for the log watcher.
unfoldable shut_down : Surroundings → Daemon → Daemon × Result
unfolding close_intracom
shut_down s d = elim (if d.rpc_enabled then s.rpc_shutdown else none) [
  | some err ↦ (d, returns (some (rpc_error err)))
  | none ↦ if ltb s.takes (length (maps_of s d)) then (d, waits_for_states) else (
    record d { ic = (close_intracom d.ic).0 },
    if is_stuck d.log_worker_count (s.prestart_logs ++ s.service_logs)
        then waits_for_logs
        else returns none,
  )
]

-- Start once the notifier is there and the topic is made.
unfoldable run_services : Surroundings → Notifier → Daemon → Daemon × Result × Started
unfolding shut_down
run_services s n d =
    let done = done_by s n d in
    let ended = shut_down s d in
    if all_over (launched_by d) s.managed (arriving s d).1
    then (ended.0, ended.1, done)
    else (d, waits_for_services, done)

unfoldable with_topic :
    Surroundings → Notifier → Daemon → Intracom ServiceStates × Created → Daemon × Result × Started
unfolding run_services
with_topic s n d (ic, created a) = run_services s n (record d { ic = ic })
with_topic s n d (ic, not_created err) = (
  record d { ic = ic },
  returns (some (topic_error err)),
  record nothing_started { logs = s.prestart_logs },
)

unfoldable with_notifier : Surroundings → Daemon → NewNotifier → Daemon × Result × Started
unfolding with_topic create_topic
with_notifier s d (no_notifier err) = (d, returns (some (notifier_error err)), nothing_started)
with_notifier s d (notifier n) =
    if prestart_over s d
    then with_topic s n d (create_topic states_tag [] states_topic d.ic)
    else (d, waits_for_prestart, record nothing_started { logs = s.prestart_logs })

unfoldable pub start : Surroundings → Daemon → Daemon × Result × Started
unfolding with_notifier new_systemd_notifier
start s d =
    let d' = record d { started = true } in
    if d.started
    then (d, returns (some (daemon_error daemon_started)), nothing_started)
    else if length d.services == 0
    then (d', returns (some (daemon_error no_services)), nothing_started)
    else with_notifier s d' (new_systemd_notifier s.notify_socket d.report_alive_secs s.dialled)
