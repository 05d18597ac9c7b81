-- ===== src/Lib.antt =====
-- rxd, a library that runs services through their lifecycles: a model of its code and what it does.
--
-- The program. A daemon (daemon.go) holds services, each a runner with the methods Init, Idle, Run and
-- Stop and a manager (service_manager.go) that decides which one to call next. Start launches every
-- service in a routine of its own. The managers send each change of state to the daemon's states
-- watcher, which publishes the map of all states on a topic of the package intracom. Services watch
-- that topic through their contexts (service_context.go). Services log through the daemon with the
-- loggers and handlers of the package log.
--
-- Where it is modelled.
--   States, with States/Watch and States/Publish: service_states.go, service_action.go,
--     service_filter.go, the watchers of service_context.go and statesWatcher of daemon.go.
--   Manager: service_manager.go and service_manager_option.go. A run is a trace of the updates, calls
--     and log entries, made from a schedule that says what each select sees and what each method does.
--   Log, with Log/Logger and Log/Handlers: log/log.go, log/logger.go, log/handler.go, log/option.go
--     and log/journald. Loggers and their levels live in a heap.
--   Intracom: the package intracom. Intracom/Channel has channels and select, Intracom/Policy
--     buffer_policy.go, Intracom/Subscriber subscriber.go, Intracom/Broadcast the loop of
--     broadcast_sync.go as a function on requests and messages, Intracom/Topic topic.go,
--     Intracom/Registry intracom.go. Intracom/Broadcast/Reachable has the steps of a topic over time:
--     requests, messages and consumers that receive, in any order. Intracom/Topic/Calls has the calls of
--     a topic by any number of callers at once, and Intracom/Registry/Sections those of a registry, in
--     the turns that its locks leave.
--   Daemon: daemon.go and daemon_options.go. Daemon/Services has service.go and errors.go,
--     Daemon/Prestart daemon_prestart.go, Daemon/FileLog daemon_log.go, Daemon/Notify notify.go and
--     notify_systemd_linux.go, Daemon/Context the rest of service_context.go, Daemon/Subscribing how its
--     watchers subscribe and leave, Daemon/Start the function Start, Daemon/LogWatcher
--     serviceLogWatcher, and Daemon/SignalWatcher the routine that waits for a signal.
--     Daemon/Start/Shutdown puts managers, service routines, the states watcher and watchers together,
--     and Daemon/Subscribing/Latest the states watcher, the states topic and its watchers.
--   Rpc: pkg/rpc and examples/multi_service_rpc/rpc_client.
--   Examples: the programs under examples/. Examples/CustomManager has their own manager,
--     Examples/HelloWorld, Examples/Polling and Examples/StartupJob their services,
--     Examples/Mains their main functions, and Examples/PubSub examples/pubsub.
--   Prelude has what these share, and Tests uses of the theorems at concrete inputs.
--
-- Conventions. Names are the code's in snake case. State that the code mutates is a record, and an
-- operation is a function from the state before to the state after and the result. Where sharing
-- matters, objects live in a heap: channels, topics, levels, the arrays of slices of fields. A Go map is an
-- association list whose order stands for the order of iteration. Errors are values. A routine that
-- waits is a function on a finite schedule of what its selects see; when the schedule ends, the result
-- says that the routine still waits, so no fuel is needed. Start either returns or says which of its waits
-- it never leaves. Durations are in nanoseconds and are not
-- negative. A uint64 wraps at 2 ^ 64.
--
-- Not modelled: RPCServer and NewRPCHandler of daemon_rpc.go, which start and stop net/http and net/rpc;
-- what these packages do, which is given where it matters; how operating system signals are delivered;
-- the values that fmt prints (log.Any, log.Float, DaemonLog.String); the unused StatesResponse and States;
-- Deadline, Done, Err and Value of a service context, which only pass on a call; the no-op logger.
pub mod Prelude
pub mod States
pub mod Manager
pub mod Log
pub mod Daemon
pub mod Intracom
pub mod Rpc
pub mod Examples
pub mod Tests
