-- ===== src/Tests/Programs.antt =====
-- Uses of the theorems on the programs under examples/.
use rxdaemon.Prelude.{
  ◌≤◌, ◌<◌, ◌≡◌, refl, String, Bool, List, [], ◌∷◌, none, some, arith, true, false, length,
  if◌then◌else◌,
}
use rxdaemon.States.{init, exit}
use rxdaemon.Manager.{
  ok, fails, Moment, cancelled, elapsed, returned, waits, RunUntilSuccessManager, success_manage,
  new_default_manager, continuous_manage,
}
use rxdaemon.Manager.Trace.{states_of, last_announced, calm, has_cancelled}
use rxdaemon.Examples.{Tick, stops, calls}
use rxdaemon.Examples.CustomManager.{custom_manage, is_ended, is_steady}
use rxdaemon.Examples.CustomManager.Returning.{custom_until}
use rxdaemon.Examples.CustomManager.Announcing.{custom-announces}
use rxdaemon.Examples.StartupJob.{job_moments, count_runs, is_working}
use rxdaemon.Examples.StartupJob.Ends.{startup_job_succeeds}
use rxdaemon.Examples.HelloWorld.{Listening, served, new_hello_world_service}
use rxdaemon.Examples.HelloWorld.{
  HelloWorldApiService, server_at, hello_world, wake, shuts, crashes, not_served,
}
use rxdaemon.Manager.{init_method, run_method, stop_method}
use rxdaemon.Examples.HelloWorld.Leftover.{leftover-shuts}
use rxdaemon.Examples.HelloWorld.Serving.{
  left_waiting, hello_moments, inits_succeed, hello_world_serves,
}
use rxdaemon.Examples.Polling.{context_done, timer_fires, object, poll_run}
use rxdaemon.Examples.Polling.Counting.{answers, failures, poll_run_at_most}

-- Run fails once, and then the context is done.
abbrev schedule : List Moment
schedule = elapsed ok ∷ elapsed ok ∷ elapsed (fails "no network") ∷ elapsed ok ∷ cancelled ∷ []

custom_until_example :
    ((custom_manage "a" schedule).ending ≡ returned)
    × ((custom_manage "a" schedule).ending ≡ returned
        → last_announced init (custom_manage "a" schedule).trace ≡ exit)
unfolding calm is_ended
custom_until_example = custom_until "a" schedule refl

custom-announces_example :
    states_of (custom_manage "a" schedule).trace
    ≡ states_of (continuous_manage (new_default_manager []) "a" ok schedule).trace
unfolding calm is_steady
custom-announces_example = custom-announces (new_default_manager []) "a" ok schedule refl refl refl

-- 16 waits that end by their timers.
abbrev four_waits : List (Tick Bool) → List (Tick Bool)
four_waits more = calls false ∷ calls false ∷ calls false ∷ calls false ∷ more

abbrev waits_16 : List (Tick Bool)
waits_16 = four_waits (four_waits (four_waits (four_waits [])))

abbrev manager : RunUntilSuccessManager
manager = record { startup_delay = 3; default_delay = 1 }

startup_job_succeeds_example :
    let r = success_manage manager "startup-job" ok (job_moments waits_16) in
    (r.ending ≡ returned)
    × (count_runs r.trace ≤ 4)
    × (is_working waits_16 ≡ true → count_runs r.trace ≡ 4)
startup_job_succeeds_example =
    startup_job_succeeds manager "startup-job" waits_16 (omega arith) (omega arith) (omega arith)

-- The server is shut down by the timer, and then by the context.
abbrev listenings : List (Tick Listening)
listenings =
    calls (served true none)
    ∷ calls (served true none)
    ∷ calls (served true (some "in use"))
    ∷ calls (served true none)
    ∷ calls (served true none)
    ∷ calls (served true none)
    ∷ calls (served false none)
    ∷ stops
    ∷ []

hello_world_serves_example :
    let ms = hello_moments init new_hello_world_service listenings in
    let r = continuous_manage (new_default_manager []) "api" ok ms in
    (left_waiting init new_hello_world_service listenings ≡ 0)
    × (calm ms ≡ true)
    × (inits_succeed r.trace ≡ true)
    × (r.ending ≡ (if has_cancelled ms then returned else waits))
hello_world_serves_example =
    hello_world_serves (new_default_manager []) "api" ok listenings refl refl

abbrev with_server : HelloWorldApiService
with_server = record { server = some (server_at ":8000"); waiting = 0 }

-- Its Stop, and then a goroutine of an earlier Run.
stopped_crashes : wake (hello_world stop_method (not_served "in use") with_server).0 ≡ crashes
unfolding hello_world wake
stopped_crashes = refl

leftover-shuts_example :
    let l = served true none in
    let (failed, outcome) = hello_world run_method (not_served "in use") with_server in
    let (stopped, _) = hello_world stop_method l failed in
    let (again, _) = hello_world init_method l stopped in
    (failed.waiting ≡ 1)
    × (again.server ≡ some (server_at ":8000"))
    × (wake stopped ≡ crashes)
    × (wake again
        ≡ shuts (record { server = some (record { addr = ":8000"; shut = true }); waiting = 0 }))
leftover-shuts_example =
    leftover-shuts with_server (server_at ":8000") "in use" (served true none) refl

abbrev bodies : List String
bodies = "a" ∷ "b" ∷ "c" ∷ "d" ∷ "e" ∷ "f" ∷ "g" ∷ []

poll_run_at_most_example :
    ((poll_run (timer_fires (object "a") ∷ context_done ∷ [])).polls ≤ 6)
    × (6 < length bodies
        → ((poll_run (answers 5 bodies)).polls ≡ 6)
          × ((poll_run (answers 5 bodies)).requests ≡ 6)
          × ((poll_run (answers 5 bodies)).ending ≡ some ok))
    × ((poll_run (failures 9)).requests ≡ 9)
    × ((poll_run (failures 9)).ending ≡ none)
poll_run_at_most_example = poll_run_at_most (timer_fires (object "a") ∷ context_done ∷ []) bodies 9
