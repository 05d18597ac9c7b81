-- ===== src/Manager/Continuous.antt =====
-- RunContinuousManager.Manage, over every schedule.
use rxdaemon.Prelude.{
  String, ◌≡◌, refl, ◌∙◌, Bool, true, false, List, [], ◌∷◌, arith, if◌then◌else◌,
}
use rxdaemon.States.{State, exit, init, idle, stop}
use rxdaemon.Manager.{
  Outcome, ok, Moment, cancelled, elapsed, returned, waits, Managed, RunContinuousManager, is_stop,
  continuous_next, transition_delay, after_events, reset, continuous_loop, continuous_manage,
}
use rxdaemon.Manager.Trace.{
  states_of, Begins, Begins-ChainFrom, stopped_last, stops_apart, last_announced, calm, is_calm,
  has_cancelled,
}
use rxdaemon.Manager.Turn.{
  continuous_edge, is_exit, finish-Begins, finish-ending, finish-stopped_last, finish-stops_apart,
  finish-last_announced, turn-Begins, turn-ending, turn-stopped_last, turn-stops_apart,
  turn-last_announced,
}

next-ne-exit : (s : State) (o : Outcome) → is_exit s ≡ false → is_exit (continuous_next s o) ≡ false
unfolding continuous_next
next-ne-exit s o h = ground arith

edge-next :
    (s : State) (o : Outcome) → is_exit s ≡ false → continuous_edge s (continuous_next s o) ≡ true
unfolding continuous_next
edge-next exit o h = cc
edge-next init ok h = refl
edge-next idle ok h = refl
edge-next _ o h = ground arith

module _ (m : RunContinuousManager) (name : String) (final : Outcome) where
  -- What follows a turn in state `s` that the method ends with `o`.
  abbrev rest_of : State → Outcome → List Moment → Managed
  rest_of s o ms =
      let next = continuous_next s o in
      after_events (reset (transition_delay m next) ∷ [])
        (continuous_loop m name final next (is_stop s) ms)

  loop-Begins :
      (s : State) (stopped : Bool) (ms : List Moment)
      → Begins continuous_edge s (states_of (continuous_loop m name final s stopped ms).trace)
  unfolding continuous_loop states_of
  loop-Begins exit stopped ms = finish-Begins name stopped final
  loop-Begins s stopped [] = (refl, tt)
  loop-Begins s stopped (cancelled ∷ ms) =
      (refl, Begins-ChainFrom continuous_edge s exit _ refl (finish-Begins name stopped final))
  loop-Begins s stopped (elapsed o ∷ ms) =
      turn-Begins name s (continuous_next s o) o (rest_of s o ms) refl (edge-next s o refl)
        (loop-Begins (continuous_next s o) (is_stop s) ms)

  loop-stopped_last :
      (s : State) (stopped : Bool) (ms : List Moment)
      → (continuous_loop m name final s stopped ms).ending ≡ returned
      → stopped_last stopped (continuous_loop m name final s stopped ms).trace ≡ true
  unfolding continuous_loop stopped_last
  loop-stopped_last exit stopped ms h = finish-stopped_last name stopped final
  loop-stopped_last s stopped [] h = cc
  loop-stopped_last s stopped (cancelled ∷ ms) h = finish-stopped_last name stopped final
  loop-stopped_last s stopped (elapsed o ∷ ms) h =
      turn-stopped_last name s stopped o (rest_of s o ms) refl
        (loop-stopped_last (continuous_next s o) (is_stop s) ms) h

  loop-last_announced :
      (s : State) (stopped : Bool) (ms : List Moment)
      → (continuous_loop m name final s stopped ms).ending ≡ returned
      → (d : State) → last_announced d (continuous_loop m name final s stopped ms).trace ≡ exit
  unfolding continuous_loop last_announced
  loop-last_announced exit stopped ms h d = finish-last_announced name stopped final d h
  loop-last_announced s stopped [] h d = cc
  loop-last_announced s stopped (cancelled ∷ ms) h d = finish-last_announced name stopped final _ h
  loop-last_announced s stopped (elapsed o ∷ ms) h d =
      turn-last_announced name s d o (rest_of s o ms) refl
        (λ e c. loop-last_announced (continuous_next s o) (is_stop s) ms e c) h

  next_init : (s : State) (o : Outcome) → is_stop s ≡ true → continuous_next s o ≡ init
  unfolding continuous_next
  next_init stop o h = refl
  next_init s o h = cc

  loop-stops_apart :
      (s : State) (stopped : Bool) (ms : List Moment)
      → (stopped ≡ true → s ≡ init)
      → stops_apart stopped (continuous_loop m name final s stopped ms).trace ≡ true
  unfolding continuous_loop stops_apart
  loop-stops_apart exit stopped ms i = finish-stops_apart name stopped final
  loop-stops_apart s stopped [] i = refl
  loop-stops_apart s stopped (cancelled ∷ ms) i = finish-stops_apart name stopped final
  loop-stops_apart s stopped (elapsed o ∷ ms) i =
      turn-stops_apart name s stopped o (rest_of s o ms) refl i
        (loop-stops_apart (continuous_next s o) (is_stop s) ms (next_init s o))

  loop-ending :
      (s : State) (stopped : Bool) (ms : List Moment)
      → is_exit s ≡ false
      → is_calm final ≡ true
      → calm ms ≡ true
      → (continuous_loop m name final s stopped ms).ending
        ≡ (if has_cancelled ms then returned else waits)
  unfolding continuous_loop calm has_cancelled
  loop-ending exit stopped ms x f c = cc
  loop-ending s stopped [] x f c = refl
  loop-ending s stopped (cancelled ∷ ms) x f c = finish-ending name stopped final f
  loop-ending s stopped (elapsed o ∷ ms) x f c =
      turn-ending name s o (rest_of s o ms) (ground arith)
      ∙ loop-ending (continuous_next s o) (is_stop s) ms (next-ne-exit s o refl) f (ground arith)

  -- On every schedule the announced states begin with init and follow the lifecycle, nothing comes
  -- after exit, and no call of Stop comes straight after another.
  pub continuous_lifecycle :
      (ms : List Moment)
      → Begins continuous_edge init (states_of (continuous_manage m name final ms).trace)
        × (stops_apart false (continuous_manage m name final ms).trace ≡ true)
  unfolding continuous_manage
  continuous_lifecycle ms = (loop-Begins init false ms, loop-stops_apart init false ms (λ h. cc))

  -- When Manage returns, the last method that it has called is Stop, and the last state that it has
  -- announced is exit.
  pub continuous_returns :
      (ms : List Moment)
      → (continuous_manage m name final ms).ending ≡ returned
      → (stopped_last false (continuous_manage m name final ms).trace ≡ true)
        × (last_announced init (continuous_manage m name final ms).trace ≡ exit)
  unfolding continuous_manage
  continuous_returns ms h =
      (loop-stopped_last init false ms h, loop-last_announced init false ms h init)

  -- If no method panics, Manage returns once the context is done, and until then it goes on,
  -- whatever errors the methods return.
  pub continuous_until_cancelled :
      (ms : List Moment)
      → is_calm final ≡ true
      → calm ms ≡ true
      → (continuous_manage m name final ms).ending ≡ (if has_cancelled ms then returned else waits)
  unfolding continuous_manage
  continuous_until_cancelled ms f c = loop-ending init false ms refl f c
