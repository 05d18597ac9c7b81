-- ===== src/Manager/Updates.antt =====
-- The state updates that Manage of RunContinuousManager sends on its channel.
use rxdaemon.Prelude.{String, ◌≡◌, refl, Bool, true, false, List, [], ◌∷◌, ◌++◌, All}
use rxdaemon.States.{State, exit, StateUpdate, init, other}
use rxdaemon.Manager.{
  Outcome, ok, fails, panics, Moment, cancelled, elapsed, Event, updated, called, logged, reset,
  Managed, RunContinuousManager, finish, turn, is_stop, continuous_next, transition_delay,
  after_events, continuous_loop, continuous_manage,
}

-- What a trace sends.
abbrev pub updates_of : List Event → List StateUpdate
updates_of [] = []
updates_of (updated u ∷ es) = u ∷ updates_of es
updates_of (called m o ∷ es) = updates_of es
updates_of (logged e ∷ es) = updates_of es
updates_of (reset d ∷ es) = updates_of es

-- Every update is on the service `name`.
abbrev pub Own : String → List StateUpdate → Type 0
Own name us = All (λ u. u.name ≡ name) us

pub Own-append :
    (name : String) (es fs : List Event)
    → Own name (updates_of es)
    → Own name (updates_of fs)
    → Own name (updates_of (es ++ fs))
Own-append name [] fs h g = g
Own-append name (updated u ∷ es) fs h g = (h.0, Own-append name es fs h.1 g)
Own-append name (called m o ∷ es) fs h g = Own-append name es fs h g
Own-append name (logged e ∷ es) fs h g = Own-append name es fs h g
Own-append name (reset d ∷ es) fs h g = Own-append name es fs h g

finish-Own :
    (name : String) (stopped : Bool) (o : Outcome)
    → Own name (updates_of (finish name stopped o).trace)
unfolding finish
finish-Own name true o = (refl, tt)
finish-Own name false ok = (refl, tt)
finish-Own name false (fails e) = (refl, tt)
finish-Own name false (panics e) = tt

turn-Own :
    (name : String) (s : State) (o : Outcome) (rest : Managed)
    → Own name (updates_of rest.trace)
    → Own name (updates_of (turn name s o rest).trace)
unfolding turn
turn-Own name exit o rest h = (refl, h)
turn-Own name (other n) o rest h = (refl, h)
turn-Own name s ok rest h = (refl, h)
turn-Own name s (fails e) rest h = (refl, h)
turn-Own name s (panics e) rest h = (refl, tt)

module _ (m : RunContinuousManager) (name : String) (final : Outcome) where
  loop-Own :
      (s : State) (stopped : Bool) (ms : List Moment)
      → Own name (updates_of (continuous_loop m name final s stopped ms).trace)
  unfolding continuous_loop
  loop-Own exit stopped ms = finish-Own name stopped final
  loop-Own s stopped [] = (refl, tt)
  loop-Own s stopped (cancelled ∷ ms) = (refl, finish-Own name stopped final)
  loop-Own s stopped (elapsed o ∷ ms) =
      let next = continuous_next s o in
      turn-Own name s o
        (after_events (reset (transition_delay m next) ∷ [])
          (continuous_loop m name final next (is_stop s) ms))
        (loop-Own next (is_stop s) ms)

  pub continuous-Own :
      (ms : List Moment) → Own name (updates_of (continuous_manage m name final ms).trace)
  unfolding continuous_manage
  continuous-Own ms = loop-Own init false ms
