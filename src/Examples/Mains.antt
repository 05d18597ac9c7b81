-- ===== src/Examples/Mains.antt =====
-- The main functions of the five programs under examples/ that start a daemon: single_service,
-- single_service_custom_manager, run_until_success, multi_service and multi_service_rpc. A main builds a
-- daemon, adds its services, starts it, and reports. Runners are known by numbers.
pub mod Reporting
use rxdaemon.Prelude.{ℕ, String, true, List, [], ◌∷◌, Option, none, some}
use rxdaemon.States.{ServiceStates}
use rxdaemon.Log.{level_error, level_info}
use rxdaemon.Manager.{seconds, new_run_until_success_manager}
use rxdaemon.Intracom.Errors as Intracom
use rxdaemon.Intracom.Registry.{Typed}
use rxdaemon.Daemon.{
  Daemon, DaemonOption, DaemonLogger, default_handler, own_handler, new_daemon, with_signals,
  with_prestart, with_service_logger, with_rpc, add_services,
}
use rxdaemon.Daemon.Services.{
  DaemonError, error_text, Failure, error, nil_panic, Manager, nil_manager, until_success, custom,
  Service, new_service, with_manager, DaemonService,
}
use rxdaemon.Daemon.Prestart.{Stage}
use rxdaemon.Daemon.Start.{
  Surroundings, StartError, daemon_error, notifier_error, topic_error, rpc_error, Started,
  nothing_started, start, Result, returns, waits_for_prestart, waits_for_services, waits_for_states,
  waits_for_logs,
}

pub data Program : Type 0 where
  single_service single_service_custom_manager run_until_success : Program
  multi_service multi_service_rpc : Program

abbrev os_signals : List String
os_signals = "interrupt" ∷ "interrupt" ∷ "terminated" ∷ []

abbrev hello_world_runner : ℕ
hello_world_runner = 0

abbrev polling_runner : ℕ
polling_runner = 1

abbrev startup_job_runner : ℕ
startup_job_runner = 2

abbrev custom_manager : Manager
custom_manager = custom 0

abbrev own_service : String → ℕ → Service
own_service name runner = record { name = name; runner = runner; manager = nil_manager }

unfoldable start_error_text : StartError → String
unfolding error_text Intracom.error_text
start_error_text (daemon_error e) = error_text e
start_error_text (notifier_error s) = s
start_error_text (topic_error e) = Intracom.error_text e
start_error_text (rpc_error s) = s

-- What main logs, by level and message, its exit code, none where it waits for ever in Start, and what
-- its daemon has done.
pub record MainRun : Type 0 where
  pub logs : List (ℕ × String)
  pub code : Option ℕ
  pub did : Started

abbrev fails_with : String → Started → MainRun
fails_with err did = record { logs = (level_error, err) ∷ []; code = some 1; did = did }

unfoldable pub report : Result → Started → MainRun
unfolding start_error_text
report (returns none) did = record {
  logs = (level_info, "successfully stopped daemon") ∷ [];
  code = some 0;
  did = did;
}
report (returns (some err)) did = fails_with (start_error_text err) did
report waits_for_prestart did = record { logs = []; code = none; did = did }
report waits_for_services did = record { logs = []; code = none; did = did }
report waits_for_states did = record { logs = []; code = none; did = did }
report waits_for_logs did = record { logs = []; code = none; did = did }

-- A panic of AddService ends the program with code 2.
unfoldable run_main : List Service → Surroundings → Daemon → MainRun
unfolding add_services start report error_text
run_main services s d =
    let (d', failure) = add_services services d in
    let (_, result, did) = start s d' in
    elim failure [
      | some (error e) ↦ fails_with (error_text e) nothing_started
      | some nil_panic ↦ record { logs = []; code = some 2; did = nothing_started }
      | none ↦ report result did
    ]

-- The main of examples/single_service. The stage's function is in what the daemon meets.
abbrev single_service_options : List DaemonOption
single_service_options =
    with_signals os_signals
    ∷ with_prestart (record { restart_on_error = true; restart_delay = seconds 10 })
        (record { name = "timer-ready" } ∷ [])
    ∷ with_service_logger (record { level = level_info; handler = default_handler })
    ∷ []

abbrev single_service_services : List Service
single_service_services = new_service "helloworld-api" hello_world_runner [] ∷ []

unfoldable single_service_main : Typed ServiceStates → Surroundings → MainRun
unfolding run_main
single_service_main unused s =
    run_main single_service_services s (new_daemon unused "single-service" single_service_options)

-- The main of examples/single_service_custom_manager; journald's handler is for its own logger.
abbrev custom_manager_services : List Service
custom_manager_services =
    new_service "helloworld-api" hello_world_runner (with_manager custom_manager ∷ []) ∷ []

unfoldable custom_manager_main : Typed ServiceStates → Surroundings → MainRun
unfolding run_main
custom_manager_main unused s =
    run_main custom_manager_services s
      (new_daemon unused "single-service" (with_signals os_signals ∷ []))

-- The main of examples/run_until_success.
abbrev startup_services : List Service
startup_services =
    new_service "startup-job" startup_job_runner
      (with_manager (until_success (new_run_until_success_manager (seconds 1) (seconds 3))) ∷ [])
    ∷ []

unfoldable startup_main : Typed ServiceStates → Surroundings → MainRun
unfolding run_main
startup_main unused s =
    run_main startup_services s (new_daemon unused "single-service" (with_signals os_signals ∷ []))

-- The mains of examples/multi_service and examples/multi_service_rpc.
abbrev multi_services : List Service
multi_services =
    own_service "HelloWorldAPI" hello_world_runner ∷ own_service "PollService" polling_runner ∷ []

unfoldable multi_service_main : Typed ServiceStates → Surroundings → MainRun
unfolding run_main
multi_service_main unused s =
    run_main multi_services s (new_daemon unused "multi-service-daemon" [])

abbrev rpc_options : List DaemonOption
rpc_options = with_rpc (record { addr = "localhost"; port = 1337 }) ∷ []

unfoldable multi_service_rpc_main : Typed ServiceStates → Surroundings → MainRun
unfolding run_main
multi_service_rpc_main unused s =
    run_main multi_services s (new_daemon unused "multi-service-daemon" rpc_options)

-- The daemon of each program before it has services, its services, and its main.
unfoldable daemon_of : Program → Typed ServiceStates → Daemon
unfolding new_daemon with_signals with_prestart with_service_logger with_rpc
daemon_of single_service unused = new_daemon unused "single-service" single_service_options
daemon_of single_service_custom_manager unused =
    new_daemon unused "single-service" (with_signals os_signals ∷ [])
daemon_of run_until_success unused =
    new_daemon unused "single-service" (with_signals os_signals ∷ [])
daemon_of multi_service unused = new_daemon unused "multi-service-daemon" []
daemon_of multi_service_rpc unused = new_daemon unused "multi-service-daemon" rpc_options

unfoldable services_of : Program → List Service
unfolding new_service with_manager new_run_until_success_manager
services_of single_service = single_service_services
services_of single_service_custom_manager = custom_manager_services
services_of run_until_success = startup_services
services_of multi_service = multi_services
services_of multi_service_rpc = multi_services

unfoldable main : Program → Typed ServiceStates → Surroundings → MainRun
unfolding single_service_main custom_manager_main startup_main multi_service_main
    multi_service_rpc_main
main single_service unused s = single_service_main unused s
main single_service_custom_manager unused s = custom_manager_main unused s
main run_until_success unused s = startup_main unused s
main multi_service unused s = multi_service_main unused s
main multi_service_rpc unused s = multi_service_rpc_main unused s
