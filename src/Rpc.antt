-- ===== src/Rpc.antt =====
-- pkg/rpc, the handler of daemon_rpc.go behind it, and examples/multi_service_rpc/rpc_client/main.go, which
-- changes the log level of a daemon that runs. What net/rpc does with a call is given.
pub mod Levels
use rxdaemon.Prelude.{
  ℕ, ◌<◌, String, ◌≡◌, ◌≢◌, refl, Bool, true, false, List, [], ◌∷◌, ◌++◌, Option, none, some, arith,
  ◌==◌, ltb, str_eq, if◌then◌else◌, if-true, if-false, concat, Bool-cases, inl, inr, ◌∙◌,
}
use rxdaemon.Log.{level_from_string, level_info}
use rxdaemon.Daemon.{Daemon, change_log_level}

-- A `Command` is a uint8.
abbrev pub unknown : ℕ
unknown = 0

abbrev pub set_level : ℕ
set_level = 1

unfoldable command_string : ℕ → String
command_string c = if c == set_level then "SetLevel" else "Unknown"

-- What comes of a call: the client's context is done before the answer, and the daemon has handled the
-- call or never does; or the daemon has handled it and the answer is there; or the call fails.
pub data Call : Type 0 where
  context_done : (handled : Bool) → Call
  answered : Call
  call_error : String → Call

-- ChangeLogLevel of the client returns the reply, which is nil, when its context is done.
unfoldable client_change_log_level : Call → Option String
client_change_log_level (context_done handled) = none
client_change_log_level answered = none
client_change_log_level (call_error err) = some err

-- What the daemon has done of it, by the ChangeLogLevel of its handler.
unfoldable pub served : ℕ → Call → Daemon → Daemon
unfolding change_log_level
served level (context_done true) d = change_log_level level d
served level (context_done false) d = d
served level answered d = change_log_level level d
served level (call_error err) d = d

-- The client's main.
unfoldable process_command : String → ℕ
process_command command = if str_eq command "setlevel" then set_level else unknown

-- The lines that main prints, its exit code, and the level that it asks for, if it comes to that.
pub record ClientRun : Type 0 where
  pub lines : List String
  pub code : ℕ
  pub asked : Option ℕ

abbrev pub stops : String → Option ℕ → ClientRun
stops line asked = record { lines = line ∷ []; code = 1; asked = asked }

-- `int8(level) < 0`: the conversion of a uint8 wraps from 128 on.
abbrev is_negative_int8 : ℕ → Bool
is_negative_int8 level = ltb 127 level

unfoldable pub report : String → ℕ → Option String → ClientRun
report name level (some err) = stops err (some level)
report name level none = record {
  lines = concat ("log level changed to: " ∷ name ∷ []) ∷ [];
  code = 0;
  asked = some level;
}

-- The branch of `rpc.SetLevel`, with the arguments after the command.
unfoldable run_set_level : List String → Call → ClientRun
unfolding report client_change_log_level level_from_string
run_set_level [] call = stops "usage: rpc_client loglevel <level>" none
run_set_level (name ∷ more) call =
    let level = level_from_string name in
    if is_negative_int8 level
    then stops (concat ("unknown log level: " ∷ name ∷ [])) none
    else report name level (client_change_log_level call)

-- `args` are those after the program's name, and `dialled` is the error of NewClientWithPath.
unfoldable client_main : List String → Option String → Call → ClientRun
unfolding process_command run_set_level
client_main [] dialled call = stops "usage: rpc_client setlevel <command>" none
client_main (command ∷ args) dialled call =
    if process_command command == unknown
    then stops (concat ("unknown command: " ∷ command ∷ [])) none
    else elim dialled [ some err ↦ stops err none | none ↦ run_set_level args call ]
