-- ===== src/Examples/CustomManager.antt =====
-- The manager of examples/single_service_custom_manager/manager.go, and how it differs from the default
-- one.
pub mod Returning
pub mod Announcing
use rxdaemon.Prelude.{
  ℕ, String, ◌≡◌, refl, ◌∙◌, ap, sym, subst, Bool, true, false, not, ◌&&◌, ◌||◌, List, [], ◌∷◌,
  ◌++◌, arith, if◌then◌else◌, Bool-cases, inl, inr,
}
use rxdaemon.States.{State, exit, init, idle, run, stop, other}
use rxdaemon.Manager.{
  Outcome, ok, fails, panics, Moment, cancelled, elapsed, Event, reset, updated, Managed, returned,
  waits, panicked, after_events, seconds, update, turn, finish, is_stop, RunContinuousManager,
  transition_delay, continuous_next, continuous_loop, continuous_manage,
}
use rxdaemon.Manager.Trace.{
  states_of, Begins, Begins-ChainFrom, last_announced, calm, is_calm, has_cancelled,
}
use rxdaemon.Manager.Turn.{continuous_edge, is_exit, turn-Begins, turn-ending, turn-last_announced}

-- The `switch state`; a panic does not get here.
unfoldable custom_next : State → Outcome → State
custom_next init ok = idle
custom_next init _ = exit
custom_next idle ok = run
custom_next idle _ = stop
custom_next run _ = stop
custom_next stop ok = init
custom_next stop _ = exit
custom_next exit _ = exit
custom_next (other n) _ = other n

module _ (name : String) where
  -- The loop of Manage and what follows it. With its context done it calls no method.
  unfoldable custom_loop : State → List Moment → Managed
  unfolding turn custom_next
  custom_loop exit ms = record { trace = update name exit ∷ []; ending = returned }
  custom_loop state [] = record { trace = update name state ∷ []; ending = waits }
  custom_loop state (cancelled ∷ ms) = record {
    trace = update name state ∷ reset (seconds 1) ∷ update name exit ∷ [];
    ending = returned;
  }
  custom_loop state (elapsed o ∷ ms) =
      let rest = custom_loop (custom_next state o) ms in
      turn name state o (after_events (reset (seconds 1) ∷ []) rest)

  unfoldable pub custom_manage : List Moment → Managed
  unfolding custom_loop
  custom_manage ms = custom_loop init ms

-- Init or Stop returns an error.
abbrev breaks : State → Outcome → Bool
breaks init (fails e) = true
breaks stop (fails e) = true
breaks _ _ = false

-- Along the way of the manager from a state, a wait is cancelled, or Init or Stop returns an error.
unfoldable pub is_ended : State → List Moment → Bool
unfolding custom_next
is_ended state [] = false
is_ended state (cancelled ∷ ms) = true
is_ended state (elapsed o ∷ ms) = breaks state o || is_ended (custom_next state o) ms

-- Along the way, Init and Stop return no error.
unfoldable pub is_steady : State → List Moment → Bool
unfolding custom_next
is_steady state [] = true
is_steady state (cancelled ∷ ms) = true
is_steady state (elapsed o ∷ ms) = not (breaks state o) && is_steady (custom_next state o) ms
