-- ===== src/Examples/CustomManager/Announcing.antt =====
-- The custom manager beside the default one.
use rxdaemon.Prelude.{
  String, ◌≡◌, refl, ◌∙◌, ap, sym, subst, Bool, true, false, List, [], ◌∷◌, arith,
}
use rxdaemon.States.{State, exit, init}
use rxdaemon.Manager.{
  Outcome, Moment, cancelled, elapsed, reset, Managed, after_events, seconds, turn, finish, is_stop,
  RunContinuousManager, transition_delay, continuous_next, continuous_loop, continuous_manage,
}
use rxdaemon.Manager.Trace.{states_of, calm, is_calm}
use rxdaemon.Manager.Turn.{is_exit}
use rxdaemon.Examples.CustomManager.{custom_next, custom_loop, custom_manage, breaks, is_steady}
use rxdaemon.Examples.CustomManager.Returning.{custom-exit}

next_steady :
    (s : State) (o : Outcome)
    → breaks s o ≡ false
    → is_calm o ≡ true
    → custom_next s o ≡ continuous_next s o
unfolding custom_next continuous_next
next_steady s o h c = ground arith

module _ (m : RunContinuousManager) (name : String) (final : Outcome) where
  finish-states :
      (stopped : Bool)
      → is_calm final ≡ true
      → states_of (finish name stopped final).trace ≡ exit ∷ []
  unfolding finish states_of
  finish-states stopped c = ground arith

  turn-states :
      (s : State) (o : Outcome) (rest rest' : Managed)
      → states_of rest.trace ≡ states_of rest'.trace
      → states_of (turn name s o rest).trace ≡ states_of (turn name s o rest').trace
  unfolding turn states_of
  turn-states s o rest rest' e = ground arith

  next-announces :
      (s : State) (o : Outcome) (ms : List Moment)
      → is_exit s ≡ false
      → is_calm o ≡ true
      → breaks s o ≡ false
      → (is_exit (custom_next s o) ≡ false
          → states_of (custom_loop name (custom_next s o) ms).trace
            ≡ states_of (continuous_loop m name final (custom_next s o) (is_stop s) ms).trace)
      → states_of (custom_loop name (custom_next s o) ms).trace
        ≡ states_of (continuous_loop m name final (continuous_next s o) (is_stop s) ms).trace
  next-announces s o ms x c b ih =
      subst
        (λ t.
          states_of (custom_loop name (custom_next s o) ms).trace
          ≡ states_of (continuous_loop m name final t (is_stop s) ms).trace)
        (next_steady s o b c) (ih (custom-exit s o x c ∙ b))

  loop-announces :
      (s : State) (stopped : Bool) (ms : List Moment)
      → is_exit s ≡ false
      → is_calm final ≡ true
      → calm ms ≡ true
      → is_steady s ms ≡ true
      → states_of (custom_loop name s ms).trace
        ≡ states_of (continuous_loop m name final s stopped ms).trace
  unfolding custom_loop continuous_loop states_of is_steady calm
  loop-announces exit stopped ms x f c e = cc
  loop-announces s stopped [] x f c e = refl
  loop-announces s stopped (cancelled ∷ ms) x f c e =
      ap (λ l. s ∷ l) (sym (finish-states stopped f))
  loop-announces s stopped (elapsed o ∷ ms) x f c e =
      turn-states s o
        (after_events (reset (seconds 1) ∷ []) (custom_loop name (custom_next s o) ms))
        (after_events (reset (transition_delay m (continuous_next s o)) ∷ [])
          (continuous_loop m name final (continuous_next s o) (is_stop s) ms))
        (next-announces s o ms refl (ground arith) (ground arith)
          (λ x. loop-announces (custom_next s o) (is_stop s) ms x f (ground arith) (ground arith)))

  -- While Init and Stop return no error and no method panics, the custom manager announces the same
  -- states, in the same order, as the default one does on the same schedule, whatever its delays.
  pub custom-announces :
      (ms : List Moment)
      → is_calm final ≡ true
      → calm ms ≡ true
      → is_steady init ms ≡ true
      → states_of (custom_manage name ms).trace
        ≡ states_of (continuous_manage m name final ms).trace
  unfolding custom_manage continuous_manage
  custom-announces ms f c e = loop-announces init false ms refl f c e
