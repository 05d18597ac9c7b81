-- ===== src/Examples/HelloWorld.antt =====
-- HelloWorldAPIService of examples/single_service/main.go, whose text single_service_custom_manager/main.go
-- repeats. What net/http does is given.
pub mod Multi
pub mod MultiRpc
pub mod Serving
pub mod Leftover
use rxdaemon.Prelude.{
  ℕ, suc, ◌-◌, String, Bool, true, false, List, [], ◌∷◌, ◌++◌, Option, none, some, concat,
  if◌then◌else◌,
}
use rxdaemon.Manager.{Outcome, ok, fails, Method, init_method, idle_method, run_method, stop_method}
use rxdaemon.Log.{level_error, level_warning, level_info, level_debug}
use rxdaemon.Examples.{Runner}

-- An http.Server: its address, and whether Shutdown was called on it, after which it serves no more.
pub record Server : Type 0 where
  pub addr : String
  pub shut : Bool

-- `server` may be nil. `waiting` counts the goroutines of earlier calls of Run that still wait for their
-- timer or the context, and shut down the server that the service has then.
pub record HelloWorldApiService : Type 0 where
  pub server : Option Server
  pub waiting : ℕ

unfoldable pub new_hello_world_service : HelloWorldApiService
new_hello_world_service = record { server = none; waiting = 0 }

-- How a call of Run goes: ListenAndServe serves until the goroutine of this call shuts the server down,
-- woken by its timer or by the context, and what Shutdown returns; or it fails with another error.
pub data Listening : Type 0 where
  served : (by_timer : Bool) → Option String → Listening
  not_served : String → Listening

-- A log entry: its level and its message.
abbrev pub Entry : Type 0
Entry = ℕ × String

abbrev Called : Type 0
Called = HelloWorldApiService × Outcome × List Entry

abbrev pub server_at : String → Server
server_at addr = record { addr = addr; shut = false }

unfoldable hello_init : HelloWorldApiService → Called
hello_init s = elim s.server [
  | some server ↦ (
    s,
    fails "server already initialized",
    (level_info, "entering init") ∷ (level_info, "server already initialized") ∷ [],
  )
  | none ↦ (record s { server = some (server_at ":8000") }, ok, (level_info, "entering init") ∷ [])
]

unfoldable hello_idle : HelloWorldApiService → Called
hello_idle s = (s, ok, (level_info, "entering idle") ∷ [])

unfoldable hello_stop : HelloWorldApiService → Called
hello_stop s = (record s { server = none }, ok, (level_info, "entering stop") ∷ [])

abbrev timeout_entries : Bool → List Entry
timeout_entries true = (level_error, "timeout waiting for context to close") ∷ []
timeout_entries false = []

abbrev shutdown_entry : Option String → Entry
shutdown_entry none = (level_info, "server shutdown")
shutdown_entry (some err) = (level_error, concat ("error shutting down server: " ∷ err ∷ []))

-- Where a server listens, its goroutine ends before Run returns; else it is left waiting.
unfoldable run_server : Server → HelloWorldApiService → Listening → Called
run_server server s (served by_timer err) = (
  record s { server = some (record server { shut = true }) },
  ok,
  (level_info, concat ("server starting with address: " ∷ server.addr ∷ []))
        ∷ timeout_entries by_timer
      ++ shutdown_entry err ∷ (level_info, "server stopped") ∷ [],
)
run_server server s (not_served err) = (
  record s { waiting = suc s.waiting },
  fails (concat ("server shutdown: " ∷ err ∷ [])),
  (level_info, concat ("server starting with address: " ∷ server.addr ∷ [])) ∷ [],
)

-- `s.server.Addr` of a nil pointer panics.
unfoldable hello_run : Listening → HelloWorldApiService → Called
unfolding run_server
hello_run listening s = elim s.server [
  | none ↦ (
    record s { waiting = suc s.waiting },
    Outcome.panics "invalid memory address or nil pointer dereference",
    [],
  )
  | some server ↦ run_server server s listening
]

abbrev without_entries : Called → HelloWorldApiService × Outcome
without_entries (s, o, entries) = (s, o)

-- The four methods, each as one call. What a goroutine does that an earlier Run has left waiting is not
-- part of a call: it is `wake`, below, and a run of calls is one of the program's while none wakes up.
unfoldable pub hello_world : Runner HelloWorldApiService Listening
unfolding hello_init hello_idle hello_run hello_stop
hello_world init_method listening s = without_entries (hello_init s)
hello_world idle_method listening s = without_entries (hello_idle s)
hello_world run_method listening s = without_entries (hello_run listening s)
hello_world stop_method listening s = without_entries (hello_stop s)

-- A goroutine that was left waiting wakes up: it shuts down the server of the service, and Shutdown on a
-- nil pointer panics, which ends the program.
pub data Woken : Type 0 where
  shuts : HelloWorldApiService → Woken
  crashes : Woken

unfoldable pub wake : HelloWorldApiService → Woken
wake s = elim s.server [
  | none ↦ crashes
  | some server ↦
      shuts (record { server = some (record server { shut = true }); waiting = s.waiting - 1 })
]

-- The service of examples/single_service_custom_manager is that of examples/single_service, word for word.
unfoldable custom_hello_world : Runner HelloWorldApiService Listening
unfolding hello_world
custom_hello_world = hello_world
