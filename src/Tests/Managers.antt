-- ===== src/Tests/Managers.antt =====
-- Uses of the theorems on service_manager.go.
use rxdaemon.Prelude.{◌≡◌, ◌≢◌, refl, List, [], ◌∷◌, arith, true, false, All}
use rxdaemon.States.{exit, init, idle}
use rxdaemon.Manager.{
  ok, fails, panics, Moment, cancelled, elapsed, returned, RunUntilSuccessManager,
  new_default_manager, continuous_manage, success_manage, success_start, success_loop, recovered,
  continuous_loop,
}
use rxdaemon.Manager.Trace.{
  states_of, Begins, stops_apart, stopped_last, last_announced, calm, has_cancelled, run_succeeded,
}
use rxdaemon.Manager.Turn.{continuous_edge}
use rxdaemon.Manager.Continuous.{
  continuous_lifecycle, continuous_returns, continuous_until_cancelled,
}
use rxdaemon.Manager.Recovery.{success_starts_idle, success_until, success_panic_silent}

-- Init fails, then Stop and Init succeed, then the context is done.
abbrev schedule : List Moment
schedule = elapsed (fails "no network") ∷ elapsed ok ∷ elapsed ok ∷ cancelled ∷ []

-- Init, Idle and Run succeed.
abbrev success : List Moment
success = elapsed ok ∷ elapsed ok ∷ elapsed ok ∷ []

abbrev until : RunUntilSuccessManager
until = record { startup_delay = 10; default_delay = 10 }

continuous_lifecycle_example :
    Begins continuous_edge init
      (states_of (continuous_manage (new_default_manager []) "a" ok schedule).trace)
    × (stops_apart false (continuous_manage (new_default_manager []) "a" ok schedule).trace ≡ true)
continuous_lifecycle_example = continuous_lifecycle (new_default_manager []) "a" ok schedule

continuous_returns_example :
    (stopped_last false (continuous_manage (new_default_manager []) "a" ok schedule).trace ≡ true)
    × (last_announced init (continuous_manage (new_default_manager []) "a" ok schedule).trace
        ≡ exit)
unfolding continuous_manage continuous_loop new_default_manager
continuous_returns_example = continuous_returns (new_default_manager []) "a" ok schedule refl

continuous_until_cancelled_example :
    (continuous_manage (new_default_manager []) "a" ok schedule).ending ≡ returned
unfolding calm has_cancelled
continuous_until_cancelled_example =
    continuous_until_cancelled (new_default_manager []) "a" ok schedule refl refl

success_starts_idle_example :
    Begins continuous_edge idle
      (states_of (success_manage until "a" ok (elapsed (fails "no network") ∷ [])).trace)
success_starts_idle_example = success_starts_idle until "a" ok (fails "no network") []

success_until_example : (success_manage until "a" ok success).ending ≡ returned
unfolding has_cancelled run_succeeded success_manage success_start success_loop recovered calm
success_until_example = success_until until "a" ok success (omega arith) (omega arith) refl refl

success_panic_silent_example :
    ((success_manage until "a" ok (elapsed (panics "nil map") ∷ [])).ending ≡ returned)
    × All
        (λ s. s ≢ exit)
        (states_of (success_manage until "a" ok (elapsed (panics "nil map") ∷ [])).trace)
unfolding success_start
success_panic_silent_example =
    success_panic_silent until "a" ok (elapsed (panics "nil map") ∷ []) "nil map" (omega arith) refl
