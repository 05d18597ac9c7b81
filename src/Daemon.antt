-- ===== src/Daemon.antt =====
-- daemon.go, daemon_options.go and daemon_rpc.go: the daemon, its options, and how services are added.
pub mod LogWatcher
pub mod SignalWatcher
pub mod Services
pub mod FileLog
pub mod Prestart
pub mod Notify
pub mod Context
pub mod Subscribing
pub mod Adding
pub mod Start
use rxdaemon.Prelude.{
  ℕ, ◌*◌, ◌^◌, String, Bool, true, false, List, [], ◌∷◌, Option, none, some, ◌==◌, str_eq,
  if◌then◌else◌, Dict, insert, itoa, concat,
}
use rxdaemon.States.{ServiceStates}
use rxdaemon.Log.{level_info, level_debug}
use rxdaemon.Manager.{new_default_manager, apply_options, seconds}
use rxdaemon.Intracom.Registry.{Intracom, Typed, new}
use rxdaemon.Daemon.Services.{
  Failure, error, nil_panic, struct_receiver, value_receiver, pointer_receiver,
  adding_service_once_started, no_service_name, uninitialized, Manager, nil_manager, nil_pointer,
  continuous, until_success, custom, Service, DaemonService,
}
use rxdaemon.Daemon.FileLog.{LogFile}
use rxdaemon.Daemon.Prestart.{Stage, PrestartConfig, Pipeline, new_prestart_pipeline}

-- The handler of a logger: the default one, the one that writes to a file, or one of the user's own.
pub data Handler : Type 0 where
  default_handler : Handler
  daemon_log_handler : (filepath : String) → LogFile → Handler
  own_handler : ℕ → Handler

pub record DaemonLogger : Type 0 where
  pub level : ℕ
  pub handler : Handler

pub data PrestartPipeline : Type 0 where
  built_in : Pipeline → PrestartPipeline
  own_pipeline : ℕ → PrestartPipeline

-- `port` is a uint16.
pub record RpcConfig : Type 0 where
  pub addr : String
  pub port : ℕ

pub record Daemon : Type 0 where
  pub name : String
  pub signals : List String
  pub services : Dict DaemonService
  pub managers : Dict Manager
  pub prestart : PrestartPipeline
  pub ic : Intracom ServiceStates
  pub report_alive_secs : ℕ
  pub log_worker_count : ℕ
  pub service_logger : DaemonLogger
  pub internal_logger : DaemonLogger
  pub started : Bool
  pub rpc_enabled : Bool
  pub rpc_config : RpcConfig

abbrev pub DaemonOption : Type 0
DaemonOption = Daemon → Daemon

-- The handler of an internal logger, with a limit of 10 MB.
unfoldable internal_handler : String → Bool → Handler
internal_handler filepath enabled =
    daemon_log_handler filepath
      (record { enabled = enabled; limit = 10 * 1024 * 1024; total = 0; file = none })

-- `unused` fills the heap of the registry, where no topic is.
unfoldable pub new_daemon_with_logger :
    Typed ServiceStates → String → DaemonLogger → List DaemonOption → Daemon
unfolding new internal_handler apply_options
new_daemon_with_logger unused name logger options = apply_options options (record {
  name = name;
  signals = "interrupt" ∷ "terminated" ∷ [];
  services = [];
  managers = [];
  prestart = built_in (record { restart_on_error = true; restart_delay = seconds 5; stages = [] });
  ic = new "rxd-intracom" unused;
  report_alive_secs = 0;
  log_worker_count = 2;
  service_logger = logger;
  internal_logger = record { level = level_debug; handler = internal_handler "rxd.log" false };
  started = false;
  rpc_enabled = false;
  rpc_config = record { addr = ""; port = 0 };
})

unfoldable pub new_daemon : Typed ServiceStates → String → List DaemonOption → Daemon
unfolding new_daemon_with_logger
new_daemon unused name options =
    new_daemon_with_logger unused name (record { level = level_info; handler = default_handler })
      options

unfoldable pub with_prestart : PrestartConfig → List Stage → DaemonOption
unfolding new_prestart_pipeline
with_prestart conf stages d = record d { prestart = built_in (new_prestart_pipeline conf stages) }

unfoldable with_custom_prestart_pipeline : PrestartPipeline → DaemonOption
with_custom_prestart_pipeline prestart d = record d { prestart = prestart }

unfoldable with_log_worker_count : ℕ → DaemonOption
with_log_worker_count count d = record d { log_worker_count = count }

unfoldable pub with_service_logger : DaemonLogger → DaemonOption
with_service_logger logger d = record d { service_logger = logger }

unfoldable with_report_alive : ℕ → DaemonOption
with_report_alive timeout_secs d = record d { report_alive_secs = timeout_secs }

unfoldable pub with_signals : List String → DaemonOption
with_signals signals d = record d { signals = signals }

unfoldable with_internal_logger : DaemonLogger → DaemonOption
with_internal_logger logger d = record d { internal_logger = logger }

unfoldable with_internal_logging : String → ℕ → DaemonOption
unfolding internal_handler
with_internal_logging filepath level d = record d {
  internal_logger = record { level = level; handler = internal_handler filepath true };
}

unfoldable pub with_rpc : RpcConfig → DaemonOption
with_rpc cfg d = record d {
  rpc_enabled = true;
  rpc_config = record {
    addr = if str_eq cfg.addr "" then "127.0.0.1" else cfg.addr;
    port = if cfg.port == 0 then 1337 else cfg.port;
  };
}

-- The address that the RPC server listens at.
unfoldable rpc_address : RpcConfig → String
unfolding itoa
rpc_address cfg = concat (cfg.addr ∷ ":" ∷ itoa cfg.port ∷ [])

-- ChangeLogLevel of the RPC handler, which shares its loggers with the daemon.
unfoldable pub change_log_level : ℕ → Daemon → Daemon
change_log_level level d = record d {
  service_logger = record d.service_logger { level = level };
  internal_logger = record d.internal_logger { level = level };
}

-- `MethodByName` on the struct finds no method that is declared on the pointer, and the call of NumIn
-- then panics.
unfoldable pub check_nil_struct_pointer : Manager → String → Option Failure
check_nil_struct_pointer (nil_pointer type_name struct_receiver) method =
    some (error (uninitialized type_name method))
check_nil_struct_pointer (nil_pointer type_name value_receiver) method = none
check_nil_struct_pointer (nil_pointer type_name pointer_receiver) method = some nil_panic
check_nil_struct_pointer nil_manager method = none
check_nil_struct_pointer (continuous m) method = none
check_nil_struct_pointer (until_success m) method = none
check_nil_struct_pointer (custom m) method = none

-- `if service.Manager == nil`
unfoldable pub or_default : Manager → Manager
unfolding new_default_manager
or_default nil_manager = continuous (new_default_manager [])
or_default (nil_pointer type_name receiver) = nil_pointer type_name receiver
or_default (continuous m) = continuous m
or_default (until_success m) = until_success m
or_default (custom m) = custom m

unfoldable pub add_service : Service → Daemon → Daemon × Option Failure
unfolding or_default check_nil_struct_pointer
add_service service d =
    let manager = or_default service.manager in
    if d.started
    then (d, some (error adding_service_once_started))
    else if str_eq service.name ""
    then (d, some (error no_service_name))
    else elim (check_nil_struct_pointer manager "Manage") [
      | some err ↦ (d, some err)
      | none ↦ (
        record d {
          services =
              insert service.name (record { name = service.name; runner = service.runner })
                d.services;
          managers = insert service.name manager d.managers;
        },
        none,
      )
    ]

-- AddServices stops at the first error, and a panic ends it as well.
unfoldable pub add_services : List Service → Daemon → Daemon × Option Failure
unfolding add_service
add_services [] d = (d, none)
add_services (service ∷ services) d =
    let added = add_service service d in
    let rest = add_services services added.0 in elim added.1 [ some err ↦ added | none ↦ rest ]
