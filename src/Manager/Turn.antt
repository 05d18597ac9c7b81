-- ===== src/Manager/Turn.antt =====
-- One turn of a manager's loop, and what follows the loop, as both managers share them.
use rxdaemon.Prelude.{String, ◌≡◌, refl, Bool, true, false, List, [], ◌∷◌, arith}
use rxdaemon.States.{State, exit, init, idle, run, stop, other}
use rxdaemon.Manager.{
  Outcome, ok, fails, panics, returned, Managed, finish, is_stop, turn, Event, updated, called,
  logged, reset,
}
use rxdaemon.Manager.Trace.{
  states_of, Begins, Begins-ChainFrom, stopped_last, stops_apart, last_announced, is_calm,
}

-- The lifecycle: from a state to the next, to Stop on an error, back to Init, or out.
abbrev pub continuous_edge : State → State → Bool
continuous_edge exit _ = false
continuous_edge _ exit = true
continuous_edge init idle = true
continuous_edge init stop = true
continuous_edge idle run = true
continuous_edge idle stop = true
continuous_edge run stop = true
continuous_edge stop init = true
continuous_edge (other n) _ = true
continuous_edge _ _ = false

abbrev pub is_exit : State → Bool
is_exit exit = true
is_exit _ = false

module _ (name : String) where
  pub finish-Begins :
      (stopped : Bool) (o : Outcome)
      → Begins continuous_edge exit (states_of (finish name stopped o).trace)
  unfolding finish states_of
  finish-Begins true o = (refl, tt)
  finish-Begins false ok = (refl, tt)
  finish-Begins false (fails e) = (refl, tt)
  finish-Begins false (panics e) = tt

  pub finish-ending :
      (stopped : Bool) (o : Outcome) → is_calm o ≡ true → (finish name stopped o).ending ≡ returned
  unfolding finish
  finish-ending stopped o h = ground arith

  pub finish-stopped_last :
      (stopped : Bool) (o : Outcome) → stopped_last stopped (finish name stopped o).trace ≡ true
  unfolding finish stopped_last
  finish-stopped_last stopped o = ground arith

  pub finish-last_announced :
      (stopped : Bool) (o : Outcome) (d : State)
      → (finish name stopped o).ending ≡ returned
      → last_announced d (finish name stopped o).trace ≡ exit
  unfolding finish last_announced
  finish-last_announced true o d h = refl
  finish-last_announced false ok d h = refl
  finish-last_announced false (fails e) d h = refl
  finish-last_announced false (panics e) d h = cc

  pub finish-stops_apart :
      (stopped : Bool) (o : Outcome) → stops_apart stopped (finish name stopped o).trace ≡ true
  unfolding finish stops_apart
  finish-stops_apart stopped o = ground arith

-- A turn announces its state; if the method panics nothing follows.
pub turn-Begins :
    (name : String) (s next : State) (o : Outcome) (rest : Managed)
    → is_exit s ≡ false
    → continuous_edge s next ≡ true
    → Begins continuous_edge next (states_of rest.trace)
    → Begins continuous_edge s (states_of (turn name s o rest).trace)
unfolding turn states_of
turn-Begins name exit next o rest h c b = cc
turn-Begins name s next ok rest h c b = (refl, Begins-ChainFrom continuous_edge s next _ c b)
turn-Begins name s next (fails e) rest h c b = (refl, Begins-ChainFrom continuous_edge s next _ c b)
turn-Begins name (other n) next (panics e) rest h c b =
    (refl, Begins-ChainFrom continuous_edge (other n) next _ c b)
turn-Begins name s next (panics e) rest h c b = (refl, tt)

pub turn-ending :
    (name : String) (s : State) (o : Outcome) (rest : Managed)
    → is_calm o ≡ true
    → (turn name s o rest).ending ≡ rest.ending
unfolding turn
turn-ending name s o rest h = ground arith

stopped_last_mono : (es : List Event) → stopped_last false es ≡ true → stopped_last true es ≡ true
unfolding stopped_last
stopped_last_mono [] h = cc
stopped_last_mono (called m o ∷ es) h = h
stopped_last_mono (updated u ∷ es) h = stopped_last_mono es h
stopped_last_mono (logged e ∷ es) h = stopped_last_mono es h
stopped_last_mono (reset d ∷ es) h = stopped_last_mono es h

pub turn-stopped_last :
    (name : String) (s : State) (stopped : Bool) (o : Outcome) (rest : Managed)
    → is_exit s ≡ false
    → (rest.ending ≡ returned → stopped_last (is_stop s) rest.trace ≡ true)
    → (turn name s o rest).ending ≡ returned
    → stopped_last stopped (turn name s o rest).trace ≡ true
unfolding turn stopped_last
turn-stopped_last name exit stopped o rest x h e = cc
turn-stopped_last name (other n) true o rest x h e = stopped_last_mono rest.trace (h e)
turn-stopped_last name (other n) false o rest x h e = h e
turn-stopped_last name s stopped ok rest x h e = h e
turn-stopped_last name s stopped (fails f) rest x h e = h e
turn-stopped_last name s stopped (panics f) rest x h e = cc

pub turn-stops_apart :
    (name : String) (s : State) (stopped : Bool) (o : Outcome) (rest : Managed)
    → is_exit s ≡ false
    → (stopped ≡ true → s ≡ init)
    → stops_apart (is_stop s) rest.trace ≡ true
    → stops_apart stopped (turn name s o rest).trace ≡ true
unfolding turn stops_apart
turn-stops_apart name exit stopped o rest x i h = cc
turn-stops_apart name (other n) true o rest x i h = cc (i refl)
turn-stops_apart name (other n) false o rest x i h = h
turn-stops_apart name stop true o rest x i h = cc (i refl)
turn-stops_apart name s stopped o rest x i h = ground arith

-- What is announced last, if a method has returned from the loop.
pub turn-last_announced :
    (name : String) (s d : State) (o : Outcome) (rest : Managed)
    → is_exit s ≡ false
    → (rest.ending ≡ returned → (c : State) → last_announced c rest.trace ≡ exit)
    → (turn name s o rest).ending ≡ returned
    → last_announced d (turn name s o rest).trace ≡ exit
unfolding turn last_announced
turn-last_announced name exit d o rest x h e = cc
turn-last_announced name s d ok rest x h e = h e s
turn-last_announced name s d (fails f) rest x h e = h e s
turn-last_announced name (other n) d (panics f) rest x h e = h e (other n)
turn-last_announced name s d (panics f) rest x h e = cc
