-- ===== src/Daemon/Services.antt =====
-- service.go, service_option.go and errors.go. A runner is known by a number. A manager is an
-- interface value: nil, a pointer that is nil, or a manager.
use rxdaemon.Prelude.{ℕ, String, List, [], ◌∷◌, Option, none, some, concat}
use rxdaemon.States.{State, init}
use rxdaemon.Manager.{RunContinuousManager, RunUntilSuccessManager, seconds, apply_options}

pub data DaemonError : Type 0 where
  daemon_started duplicate_service_name no_services no_service_name nil_service : DaemonError
  duplicate_service_policy adding_service_once_started : DaemonError
  uninitialized : (struct_name method : String) → DaemonError

unfoldable pub error_text : DaemonError → String
error_text daemon_started = "daemon has already been started"
error_text duplicate_service_name = "duplicate service name found"
error_text no_services = "no services to run"
error_text no_service_name = "no service name provided"
error_text nil_service = "nil service provided"
error_text duplicate_service_policy = "duplicate service policy found"
error_text adding_service_once_started = "cannot add a service once the daemon is started"
error_text (uninitialized struct_name method) =
    concat (struct_name ∷ " is nil, but uses a value receiver for '" ∷ method ∷ "' method." ∷ [])

-- How AddService fails: with an error, or with a panic of its own.
pub data Failure : Type 0 where
  error : DaemonError → Failure
  nil_panic : Failure

-- The receiver of Manage, for a pointer: it is declared on a struct, on a value of another kind, or on
-- the pointer itself.
pub data Receiver : Type 0 where
  struct_receiver value_receiver pointer_receiver : Receiver

-- `custom` is a manager of the user's own.
pub data Manager : Type 0 where
  nil_manager : Manager
  nil_pointer : (type_name : String) → Receiver → Manager
  continuous : RunContinuousManager → Manager
  until_success : RunUntilSuccessManager → Manager
  custom : ℕ → Manager

pub record Service : Type 0 where
  pub name : String
  pub runner : ℕ
  pub manager : Manager

pub record DaemonService : Type 0 where
  pub name : String
  pub runner : ℕ

abbrev init_timeout : State → Option ℕ
init_timeout init = some (seconds 5)
init_timeout _ = none

unfoldable pub new_service : String → ℕ → List (Service → Service) → Service
unfolding apply_options
new_service name runner opts = apply_options opts (record {
  name = name;
  runner = runner;
  manager =
      continuous (record { startup_delay = 10; default_delay = 10; state_timeouts = init_timeout });
})

unfoldable pub with_manager : Manager → Service → Service
with_manager manager s = record s { manager = manager }
