-- ===== src/Examples/StartupJob.antt =====
-- The service of examples/run_until_success/main.go under the manager that runs it until it succeeds.
pub mod Ends
use rxdaemon.Prelude.{
  ℕ, zero, suc, ◌+◌, ◌-◌, ◌*◌, ◌≤◌, ◌<◌, String, ◌≡◌, refl, ◌∙◌, ap, sym, subst, if-true, if-false,
  Bool, true, false, not, ◌&&◌, List, [], ◌∷◌, ◌++◌, Option, none, some, arith, ltb, ltb→lt, ltb→ge,
  ◌==◌, if◌then◌else◌, length, Bool-cases, inl, inr,
}
use rxdaemon.States.{State, exit, init, idle, run, stop, other}
use rxdaemon.Manager.{
  Outcome, ok, fails, panics, Moment, cancelled, elapsed, Method, init_method, idle_method,
  run_method, stop_method, method_of, Event, updated, called, logged, reset, Managed, returned,
  waits, RunUntilSuccessManager, turn, is_stop, finish, success_next, success_loop, success_start,
  success_manage, recovered, after_events,
}
use rxdaemon.Manager.Turn.{is_exit}
use rxdaemon.Examples.{Runner, Tick, stops, calls, serve, drive}

-- `attempts` of the service. What a call meets is whether its context is done when it looks.
unfoldable job_run : Bool → ℕ → ℕ × Outcome
job_run true attempts = (attempts, ok)
job_run false attempts =
    if ltb attempts 3 then (attempts + 1, fails "failed to run startup job") else (attempts, ok)

-- NewStartupJobService and its methods; Init, Idle and Stop return nil whether the context is done or not.
abbrev new_startup_job : ℕ
new_startup_job = 0

unfoldable startup_job : Runner ℕ Bool
unfolding job_run
startup_job init_method done attempts = (attempts, ok)
startup_job idle_method done attempts = (attempts, ok)
startup_job run_method done attempts = job_run done attempts
startup_job stop_method done attempts = (attempts, ok)

-- The moments of RunUntilSuccessManager: Init is called first, and the loop begins in the idle state.
unfoldable pub job_moments : List (Tick Bool) → List Moment
unfolding startup_job drive
job_moments [] = []
job_moments (stops ∷ ticks) = cancelled ∷ []
job_moments (calls done ∷ ticks) =
    let first = startup_job init_method done new_startup_job in
    elapsed first.1 ∷ drive success_next startup_job idle first.0 ticks

-- The calls of Run in a trace.
unfoldable pub count_runs : List Event → ℕ
count_runs [] = 0
count_runs (called run_method o ∷ es) = suc (count_runs es)
count_runs (called m o ∷ es) = count_runs es
count_runs (updated u ∷ es) = count_runs es
count_runs (logged e ∷ es) = count_runs es
count_runs (reset d ∷ es) = count_runs es

-- How many waits are left until Run succeeds.
abbrev waits_left : State → ℕ → ℕ
waits_left idle attempts = 2 + 4 * (3 - attempts)
waits_left run attempts = 1 + 4 * (3 - attempts)
waits_left stop attempts = 4 + 4 * (3 - attempts)
waits_left init attempts = 3 + 4 * (3 - attempts)
waits_left exit attempts = 0
waits_left (other n) attempts = 0

abbrev is_main : State → Bool
is_main (other n) = false
is_main _ = true

-- Every wait ends by its timer, and no call finds its context done.
abbrev pub is_working : List (Tick Bool) → Bool
is_working [] = true
is_working (stops ∷ ticks) = false
is_working (calls done ∷ ticks) = not done && is_working ticks
