-- ===== src/Examples/HelloWorld/MultiRpc.antt =====
-- HelloWorldAPIService of examples/multi_service_rpc/hello_world_service.go.
use rxdaemon.Prelude.{
  suc, ◌≡◌, refl, true, [], ◌∷◌, ◌++◌, none, some, concat, Option-cases, inl, inr,
}
use rxdaemon.Manager.{Outcome, ok, fails, Method, init_method, idle_method, run_method, stop_method}
use rxdaemon.Log.{level_warning, level_info, level_debug}
use rxdaemon.Examples.{Runner}
use rxdaemon.Examples.HelloWorld.{
  Server, HelloWorldApiService, Listening, served, not_served, Called, server_at, without_entries,
}
use rxdaemon.Examples.HelloWorld.Multi.{
  error_entries, multi_hello_world, multi_run, run_multi_server,
}

-- The service of examples/multi_service_rpc, which differs in what it logs and at which level; its Stop
-- logs that it has entered init.
unfoldable rpc_init : HelloWorldApiService → Called
rpc_init s =
    (record s { server = some (server_at ":8000") }, ok, (level_debug, "entered init state") ∷ [])

unfoldable rpc_idle : HelloWorldApiService → Called
rpc_idle s = (s, ok, (level_debug, "entered idle state") ∷ [])

unfoldable rpc_stop : HelloWorldApiService → Called
rpc_stop s = (record s { server = none }, ok, (level_debug, "entered init state") ∷ [])

unfoldable run_rpc_server : Server → HelloWorldApiService → Listening → Called
run_rpc_server server s (served by_timer err) = (
  record s { server = some (record server { shut = true }) },
  ok,
  (level_debug, "entered run state")
      ∷ (level_info, concat ("server starting at " ∷ server.addr ∷ []))
      ∷ (
        level_warning,
        "received a shutdown signal, cancel server context to stop server gracefully",
      )
      ∷ (error_entries err ++ (level_info, "server shutdown") ∷ []),
)
run_rpc_server server s (not_served err) = (
  record s { waiting = suc s.waiting },
  fails err,
  (level_debug, "entered run state")
      ∷ (level_info, concat ("server starting at " ∷ server.addr ∷ []))
      ∷ [],
)

unfoldable rpc_run : Listening → HelloWorldApiService → Called
unfolding run_rpc_server
rpc_run listening s = elim s.server [
  | none ↦ (
    record s { waiting = suc s.waiting },
    Outcome.panics "invalid memory address or nil pointer dereference",
    (level_debug, "entered run state") ∷ [],
  )
  | some server ↦ run_rpc_server server s listening
]

unfoldable rpc_hello_world : Runner HelloWorldApiService Listening
unfolding rpc_init rpc_idle rpc_run rpc_stop
rpc_hello_world init_method listening s = without_entries (rpc_init s)
rpc_hello_world idle_method listening s = without_entries (rpc_idle s)
rpc_hello_world run_method listening s = without_entries (rpc_run listening s)
rpc_hello_world stop_method listening s = without_entries (rpc_stop s)

run_server-agrees :
    (server : Server) (s : HelloWorldApiService) (l : Listening)
    → without_entries (run_rpc_server server s l) ≡ without_entries (run_multi_server server s l)
unfolding run_rpc_server run_multi_server
run_server-agrees server s (served t err) = refl
run_server-agrees server s (not_served err) = refl

-- Apart from their log entries, this service and the one of examples/multi_service do the same.
rpc_hello_world-agrees :
    (method : Method) (l : Listening) (s : HelloWorldApiService)
    → rpc_hello_world method l s ≡ multi_hello_world method l s
unfolding rpc_hello_world multi_hello_world
rpc_hello_world-agrees init_method l s = refl
rpc_hello_world-agrees idle_method l s = refl
rpc_hello_world-agrees stop_method l s = refl
rpc_hello_world-agrees run_method l s = elim (Option-cases s.server) [
  | inl n ↦ rw (n, rpc_run, multi_run) refl
  | inr (server, e) ↦ rw (e, rpc_run, multi_run) (run_server-agrees server s l)
]
