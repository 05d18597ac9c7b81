-- ===== src/Manager/Success.antt =====
-- RunUntilSuccessManager.Manage, over every schedule.
use rxdaemon.Prelude.{
  String, ◌≡◌, refl, ◌∙◌, Bool, true, false, ◌||◌, List, [], ◌∷◌, arith, if◌then◌else◌, Bool-cases,
  inl, inr,
}
use rxdaemon.States.{State, exit, init, idle, run, stop}
use rxdaemon.Manager.{
  Outcome, ok, fails, panics, Moment, cancelled, elapsed, returned, waits, Managed, is_stop, turn,
  success_next, success_loop,
}
use rxdaemon.Manager.Trace.{
  states_of, Begins, Begins-ChainFrom, stopped_last, stops_apart, last_announced, run_succeeded,
  calm, is_calm, has_cancelled,
}
use rxdaemon.Manager.Turn.{
  continuous_edge, is_exit, finish-Begins, finish-ending, finish-stopped_last, finish-stops_apart,
  finish-last_announced, turn-Begins, turn-ending, turn-stopped_last, turn-stops_apart,
  turn-last_announced,
}

edge-next :
    (s : State) (o : Outcome) → is_exit s ≡ false → continuous_edge s (success_next s o) ≡ true
unfolding success_next
edge-next exit o h = cc
edge-next init ok h = refl
edge-next idle ok h = refl
edge-next run ok h = refl
edge-next _ o h = ground arith

next_init : (s : State) (o : Outcome) → is_stop s ≡ true → success_next s o ≡ init
unfolding success_next
next_init stop o h = refl
next_init s o h = cc

-- Whether the turn is a call of Run that returns nil.
abbrev succeeds : State → Outcome → Bool
succeeds run ok = true
succeeds _ _ = false

run_succeeded-turn :
    (name : String) (s : State) (o : Outcome) (rest : Managed)
    → is_calm o ≡ true
    → run_succeeded (turn name s o rest).trace ≡ (succeeds s o || run_succeeded rest.trace)
unfolding turn run_succeeded
run_succeeded-turn name run ok rest h = refl
run_succeeded-turn name s ok rest h = refl
run_succeeded-turn name run (fails e) rest h = refl
run_succeeded-turn name s (fails e) rest h = refl
run_succeeded-turn name s (panics e) rest h = cc

ending-turn :
    (name : String) (s : State) (o : Outcome) (rest : Managed) (cancel : Bool)
    → is_calm o ≡ true
    → (succeeds s o ≡ true → rest.ending ≡ returned)
    → (succeeds s o ≡ false
        → rest.ending ≡ (if cancel || run_succeeded rest.trace then returned else waits))
    → (turn name s o rest).ending
      ≡ (if cancel || run_succeeded (turn name s o rest).trace then returned else waits)
ending-turn name s o rest cancel h y n =
    rw (turn-ending name s o rest h, run_succeeded-turn name s o rest h)
      (elim (Bool-cases (succeeds s o)) [
        | inl e ↦ rw (e) (y e ∙ ground arith)
        | inr e ↦ rw (e) (n e)
      ])

next-ne-exit :
    (s : State) (o : Outcome)
    → is_exit s ≡ false
    → succeeds s o ≡ false
    → is_exit (success_next s o) ≡ false
unfolding success_next
next-ne-exit run ok h k = cc
next-ne-exit s o h k = ground arith

next-exit :
    (s : State) (o : Outcome)
    → succeeds s o ≡ true
    → (success_next s o ≡ exit) × (is_stop s ≡ false)
unfolding success_next
next-exit run ok k = (refl, refl)
next-exit s o k = cc

module _ (name : String) (final : Outcome) where
  pub loop-Begins :
      (s : State) (stopped : Bool) (ms : List Moment)
      → Begins continuous_edge s (states_of (success_loop name final s stopped ms).trace)
  unfolding success_loop states_of
  loop-Begins exit stopped ms = finish-Begins name stopped final
  loop-Begins s stopped [] = (refl, tt)
  loop-Begins s stopped (cancelled ∷ ms) =
      (refl, Begins-ChainFrom continuous_edge s exit _ refl (finish-Begins name stopped final))
  loop-Begins s stopped (elapsed o ∷ ms) =
      turn-Begins name s (success_next s o) o
        (success_loop name final (success_next s o) (is_stop s) ms) refl (edge-next s o refl)
        (loop-Begins (success_next s o) (is_stop s) ms)

  pub loop-stopped_last :
      (s : State) (stopped : Bool) (ms : List Moment)
      → (success_loop name final s stopped ms).ending ≡ returned
      → stopped_last stopped (success_loop name final s stopped ms).trace ≡ true
  unfolding success_loop stopped_last
  loop-stopped_last exit stopped ms h = finish-stopped_last name stopped final
  loop-stopped_last s stopped [] h = cc
  loop-stopped_last s stopped (cancelled ∷ ms) h = finish-stopped_last name stopped final
  loop-stopped_last s stopped (elapsed o ∷ ms) h =
      turn-stopped_last name s stopped o (success_loop name final (success_next s o) (is_stop s) ms)
        refl (loop-stopped_last (success_next s o) (is_stop s) ms) h

  pub loop-last_announced :
      (s : State) (stopped : Bool) (ms : List Moment)
      → (success_loop name final s stopped ms).ending ≡ returned
      → (d : State) → last_announced d (success_loop name final s stopped ms).trace ≡ exit
  unfolding success_loop last_announced
  loop-last_announced exit stopped ms h d = finish-last_announced name stopped final d h
  loop-last_announced s stopped [] h d = cc
  loop-last_announced s stopped (cancelled ∷ ms) h d = finish-last_announced name stopped final _ h
  loop-last_announced s stopped (elapsed o ∷ ms) h d =
      turn-last_announced name s d o (success_loop name final (success_next s o) (is_stop s) ms)
        refl (λ e c. loop-last_announced (success_next s o) (is_stop s) ms e c) h

  pub loop-stops_apart :
      (s : State) (stopped : Bool) (ms : List Moment)
      → (stopped ≡ true → s ≡ init)
      → stops_apart stopped (success_loop name final s stopped ms).trace ≡ true
  unfolding success_loop stops_apart
  loop-stops_apart exit stopped ms i = finish-stops_apart name stopped final
  loop-stops_apart s stopped [] i = refl
  loop-stops_apart s stopped (cancelled ∷ ms) i = finish-stops_apart name stopped final
  loop-stops_apart s stopped (elapsed o ∷ ms) i =
      turn-stops_apart name s stopped o (success_loop name final (success_next s o) (is_stop s) ms)
        refl i (loop-stops_apart (success_next s o) (is_stop s) ms (next_init s o))

  pub exit-ending :
      (s : State) (stopped : Bool) (ms : List Moment)
      → s ≡ exit
      → is_calm final ≡ true
      → (success_loop name final s stopped ms).ending ≡ returned
  unfolding success_loop
  exit-ending exit stopped ms e f = finish-ending name stopped final f
  exit-ending s stopped ms e f = cc

  pub loop-ending :
      (s : State) (stopped : Bool) (ms : List Moment)
      → is_exit s ≡ false
      → is_calm final ≡ true
      → calm ms ≡ true
      → (success_loop name final s stopped ms).ending ≡ (
          if has_cancelled ms || run_succeeded (success_loop name final s stopped ms).trace
          then returned
          else waits)
  unfolding success_loop calm has_cancelled run_succeeded
  loop-ending exit stopped ms x f c = cc
  loop-ending s stopped [] x f c = refl
  loop-ending s stopped (cancelled ∷ ms) x f c = finish-ending name stopped final f
  loop-ending s stopped (elapsed o ∷ ms) x f c =
      ending-turn name s o (success_loop name final (success_next s o) (is_stop s) ms)
        (has_cancelled ms) (ground arith)
        (λ y. exit-ending (success_next s o) (is_stop s) ms (next-exit s o y).0 f)
        (λ n.
          loop-ending (success_next s o) (is_stop s) ms (next-ne-exit s o refl n) f (ground arith))
