-- ===== src/Examples/HelloWorld/Multi.antt =====
-- HelloWorldAPIService of examples/multi_service/hello_world_service.go.
use rxdaemon.Prelude.{suc, String, true, List, [], ◌∷◌, ◌++◌, Option, none, some, concat}
use rxdaemon.Manager.{Outcome, ok, fails, init_method, idle_method, run_method, stop_method}
use rxdaemon.Log.{level_error, level_info}
use rxdaemon.Examples.{Runner}
use rxdaemon.Examples.HelloWorld.{
  Server, HelloWorldApiService, Listening, served, not_served, Entry, Called, server_at,
  without_entries,
}

-- The service of examples/multi_service: Init makes a server whatever there was, Run does not change the
-- error that it returns, and its goroutine waits for the context alone.
unfoldable multi_init : HelloWorldApiService → Called
multi_init s =
    (record s { server = some (server_at ":8000") }, ok, (level_info, "initializing") ∷ [])

-- Idle returns once its context is done or its timer of 5 seconds has fired.
unfoldable multi_idle : HelloWorldApiService → Called
multi_idle s = (s, ok, (level_info, "entered idle state") ∷ [])

unfoldable multi_stop : HelloWorldApiService → Called
multi_stop s = (record s { server = none }, ok, (level_info, "stopping") ∷ [])

abbrev pub error_entries : Option String → List Entry
error_entries none = []
error_entries (some err) = (level_error, err) ∷ []

unfoldable pub run_multi_server : Server → HelloWorldApiService → Listening → Called
run_multi_server server s (served by_timer err) = (
  record s { server = some (record server { shut = true }) },
  ok,
  (level_info, "entered run state")
      ∷ (level_info, concat ("server starting at " ∷ server.addr ∷ []))
      ∷ (level_info, "received a shutdown signal, cancel server context to stop server gracefully")
      ∷ (error_entries err ++ (level_info, "server shutdown") ∷ []),
)
run_multi_server server s (not_served err) = (
  record s { waiting = suc s.waiting },
  fails err,
  (level_info, "entered run state")
      ∷ (level_info, concat ("server starting at " ∷ server.addr ∷ []))
      ∷ [],
)

unfoldable pub multi_run : Listening → HelloWorldApiService → Called
unfolding run_multi_server
multi_run listening s = elim s.server [
  | none ↦ (
    record s { waiting = suc s.waiting },
    Outcome.panics "invalid memory address or nil pointer dereference",
    (level_info, "entered run state") ∷ [],
  )
  | some server ↦ run_multi_server server s listening
]

unfoldable pub multi_hello_world : Runner HelloWorldApiService Listening
unfolding multi_init multi_idle multi_run multi_stop
multi_hello_world init_method listening s = without_entries (multi_init s)
multi_hello_world idle_method listening s = without_entries (multi_idle s)
multi_hello_world run_method listening s = without_entries (multi_run listening s)
multi_hello_world stop_method listening s = without_entries (multi_stop s)
