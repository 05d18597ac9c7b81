-- ===== src/Examples/CustomManager/Returning.antt =====
-- When the custom manager returns.
use rxdaemon.Prelude.{
  String, ◌≡◌, refl, ◌∙◌, true, false, ◌||◌, List, [], ◌∷◌, arith, if◌then◌else◌, Bool-cases, inl,
  inr,
}
use rxdaemon.States.{State, exit, init, idle, stop}
use rxdaemon.Manager.{
  Outcome, ok, Moment, cancelled, elapsed, reset, returned, waits, after_events, seconds,
}
use rxdaemon.Manager.Trace.{states_of, Begins, last_announced, calm, is_calm}
use rxdaemon.Manager.Turn.{continuous_edge, is_exit, turn-Begins, turn-ending, turn-last_announced}
use rxdaemon.Examples.CustomManager.{custom_next, custom_loop, custom_manage, breaks, is_ended}

custom-edge :
    (s : State) (o : Outcome) → is_exit s ≡ false → continuous_edge s (custom_next s o) ≡ true
unfolding custom_next
custom-edge exit o h = cc
custom-edge init ok h = refl
custom-edge idle ok h = refl
custom-edge stop ok h = refl
custom-edge _ o h = ground arith

pub custom-exit :
    (s : State) (o : Outcome)
    → is_exit s ≡ false
    → is_calm o ≡ true
    → is_exit (custom_next s o) ≡ breaks s o
unfolding custom_next
custom-exit s o h c = ground arith

is_exit-eq : (s : State) → is_exit s ≡ true → s ≡ exit
is_exit-eq exit h = refl
is_exit-eq s h = cc

module _ (name : String) where
  loop-Begins :
      (s : State) (ms : List Moment)
      → Begins continuous_edge s (states_of (custom_loop name s ms).trace)
  unfolding custom_loop states_of
  loop-Begins exit ms = (refl, tt)
  loop-Begins s [] = (refl, tt)
  loop-Begins s (cancelled ∷ ms) = (refl, (refl, tt))
  loop-Begins s (elapsed o ∷ ms) =
      turn-Begins name s (custom_next s o) o
        (after_events (reset (seconds 1) ∷ []) (custom_loop name (custom_next s o) ms)) refl
        (custom-edge s o refl) (loop-Begins (custom_next s o) ms)

  rest-ending :
      (s : State) (o : Outcome) (ms : List Moment)
      → is_exit s ≡ false
      → is_calm o ≡ true
      → (is_exit (custom_next s o) ≡ false
          → (custom_loop name (custom_next s o) ms).ending
            ≡ (if is_ended (custom_next s o) ms then returned else waits))
      → (custom_loop name (custom_next s o) ms).ending
        ≡ (if breaks s o || is_ended (custom_next s o) ms then returned else waits)
  unfolding custom_loop
  rest-ending s o ms x c ih = elim (Bool-cases (breaks s o)) [
    | inl y ↦ rw y (rw (is_exit-eq (custom_next s o) (custom-exit s o x c ∙ y), custom_loop) refl)
    | inr n ↦ rw n (ih (custom-exit s o x c ∙ n))
  ]

  loop-ending :
      (s : State) (ms : List Moment)
      → is_exit s ≡ false
      → calm ms ≡ true
      → (custom_loop name s ms).ending ≡ (if is_ended s ms then returned else waits)
  unfolding custom_loop calm is_ended
  loop-ending exit ms x c = cc
  loop-ending s [] x c = refl
  loop-ending s (cancelled ∷ ms) x c = refl
  loop-ending s (elapsed o ∷ ms) x c =
      turn-ending name s o
        (after_events (reset (seconds 1) ∷ []) (custom_loop name (custom_next s o) ms))
        (ground arith)
      ∙ rest-ending s o ms refl (ground arith)
          (λ e. loop-ending (custom_next s o) ms e (ground arith))

  loop-last_announced :
      (s : State) (ms : List Moment)
      → (custom_loop name s ms).ending ≡ returned
      → (d : State) → last_announced d (custom_loop name s ms).trace ≡ exit
  unfolding custom_loop last_announced
  loop-last_announced exit ms h d = refl
  loop-last_announced s [] h d = cc
  loop-last_announced s (cancelled ∷ ms) h d = refl
  loop-last_announced s (elapsed o ∷ ms) h d =
      turn-last_announced name s d o
        (after_events (reset (seconds 1) ∷ []) (custom_loop name (custom_next s o) ms)) refl
        (λ e c. loop-last_announced (custom_next s o) ms e c) h

  -- If no method panics, the custom manager returns exactly when a wait is cancelled or Init or Stop
  -- returns an error on the way; until then it goes on, whatever Idle and Run return. When it returns,
  -- exit is announced last.
  pub custom_until :
      (ms : List Moment)
      → calm ms ≡ true
      → let r = custom_manage name ms in
        (r.ending ≡ (if is_ended init ms then returned else waits))
        × (r.ending ≡ returned → last_announced init r.trace ≡ exit)
  unfolding custom_manage
  custom_until ms c = (loop-ending init ms refl c, λ h. loop-last_announced init ms h init)
