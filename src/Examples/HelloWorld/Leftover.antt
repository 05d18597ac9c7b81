-- ===== src/Examples/HelloWorld/Leftover.antt =====
-- The goroutine that a failed Run of HelloWorldAPIService leaves behind.
use rxdaemon.Prelude.{suc, String, ◌≡◌, refl, true, some, arith}
use rxdaemon.Manager.{init_method, run_method, stop_method}
use rxdaemon.Examples.HelloWorld.{
  HelloWorldApiService, Server, Listening, not_served, hello_world, hello_run, run_server,
  server_at, shuts, crashes, wake,
}

-- Let a service have a server that cannot listen. Run returns an error, and its goroutine waits on. If
-- that wakes up after the Stop that follows, the program crashes; if it wakes up after the next Init,
-- it shuts down the new server.
pub leftover-shuts :
    (s : HelloWorldApiService) (server : Server) (err : String) (l : Listening)
    → s.server ≡ some server
    → let (failed, outcome) = hello_world run_method (not_served err) s in
      let (stopped, _) = hello_world stop_method l failed in
      let (again, _) = hello_world init_method l stopped in
      (failed.waiting ≡ suc s.waiting)
      × (again.server ≡ some (server_at ":8000"))
      × (wake stopped ≡ crashes)
      × (wake again
          ≡ shuts (record {
            server = some (record { addr = ":8000"; shut = true });
            waiting = s.waiting;
          }))
unfolding hello_world wake run_server
leftover-shuts s server err l e = rw (e, hello_run) (refl, refl, refl, ground arith)
