-- ===== src/Daemon/Start/Routines.antt =====
-- The routine of one service, with the manager that runs services continuously.
use rxdaemon.Prelude.{String, ◌≡◌, ◌≢◌, refl, List, [], ◌∷◌, ◌++◌}
use rxdaemon.States.{State, exit, init}
use rxdaemon.Manager.{
  Outcome, Moment, Event, updated, called, logged, reset, Managed, Ending, returned, panicked,
  waits, RunContinuousManager, continuous_manage,
}
use rxdaemon.Manager.Trace.{last_announced}
use rxdaemon.Manager.Continuous.{continuous_returns}
use rxdaemon.Daemon.Start.{service_routine}

last_announced-append_exit :
    (d : State) (name : String) (es : List Event)
    → last_announced d (es ++ updated (record { name = name; state = exit }) ∷ []) ≡ exit
unfolding last_announced
last_announced-append_exit d name [] = refl
last_announced-append_exit d name (updated u ∷ es) = last_announced-append_exit u.state name es
last_announced-append_exit d name (called m o ∷ es) = last_announced-append_exit d name es
last_announced-append_exit d name (logged e ∷ es) = last_announced-append_exit d name es
last_announced-append_exit d name (reset n ∷ es) = last_announced-append_exit d name es

-- A managed run that is over, one way or the other.
routine-ended :
    (name : String) (r : Managed) (e : Ending)
    → r.ending ≡ e
    → e ≢ waits
    → (r.ending ≡ returned → last_announced init r.trace ≡ exit)
    → last_announced init (service_routine name r) ≡ exit
unfolding service_routine
routine-ended name r returned h n f = rw (h, service_routine) (f h)
routine-ended name r (panicked e) h n f =
    rw (h, service_routine) (last_announced-append_exit init name r.trace)
routine-ended name r waits h n f = absurd (n refl)

-- However the managed run of a service ends, also if a method panics, the last state that its routine
-- announces is exit.
pub service_routine-exits :
    (m : RunContinuousManager) (name : String) (final : Outcome) (ms : List Moment)
    → (continuous_manage m name final ms).ending ≢ waits
    → last_announced init (service_routine name (continuous_manage m name final ms)) ≡ exit
service_routine-exits m name final ms n =
    routine-ended name (continuous_manage m name final ms) _ refl n
      (λ h. (continuous_returns m name final ms h).1)
