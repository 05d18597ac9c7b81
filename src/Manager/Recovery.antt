-- ===== src/Manager/Recovery.antt =====
-- RunUntilSuccessManager.Manage as a whole: the startup, the loop and the deferred recover.
use rxdaemon.Prelude.{
  ℕ, ◌<◌, String, ◌≡◌, ◌≢◌, refl, Bool, true, false, ◌||◌, List, [], ◌∷◌, ◌++◌, arith, ◌==◌,
  if◌then◌else◌, Bool-cases, inl, inr, All,
}
use rxdaemon.States.{State, exit, init, idle, other}
use rxdaemon.Manager.{
  Outcome, ok, fails, panics, Moment, cancelled, elapsed, Ending, returned, panicked, waits,
  Managed, Event, updated, called, logged, reset, init_method, RunUntilSuccessManager, call_events,
  finish, is_stop, turn, success_next, success_loop, success_start, success_manage, recovered,
  after_events,
}
use rxdaemon.Manager.Trace.{
  states_of, Begins, stopped_last, last_announced, run_succeeded, calm, is_calm, has_cancelled,
}
use rxdaemon.Manager.Turn.{continuous_edge, is_exit}
use rxdaemon.Manager.Success.{
  loop-Begins, loop-stopped_last, loop-last_announced, loop-ending, exit-ending,
}

states_of-logged : (es : List Event) (e : String) → states_of (es ++ logged e ∷ []) ≡ states_of es
unfolding states_of
states_of-logged [] e = refl
states_of-logged (updated u ∷ es) e = rw (states_of-logged es e)
states_of-logged (called m o ∷ es) e = states_of-logged es e
states_of-logged (logged x ∷ es) e = states_of-logged es e
states_of-logged (reset d ∷ es) e = states_of-logged es e

states_of-recovered : (r : Managed) → states_of (recovered r).trace ≡ states_of r.trace
unfolding recovered
states_of-recovered r = go r.ending refl
  where
    go : (e : Ending) → r.ending ≡ e → states_of (recovered r).trace ≡ states_of r.trace
    go returned h = rw (h, recovered)
    go (panicked x) h = rw (h, recovered) (states_of-logged r.trace _)
    go waits h = rw (h, recovered)

abbrev NoExit : Managed → Type 0
NoExit r = All (λ s. s ≢ exit) (states_of r.trace)

finish-NoExit :
    (name : String) (stopped : Bool) (o : Outcome) (e : String)
    → (finish name stopped o).ending ≡ panicked e
    → NoExit (finish name stopped o)
unfolding finish states_of
finish-NoExit name true o e h = cc
finish-NoExit name false ok e h = cc
finish-NoExit name false (fails x) e h = cc
finish-NoExit name false (panics x) e h = tt

turn-NoExit :
    (name : String) (s : State) (o : Outcome) (rest : Managed) (e : String)
    → is_exit s ≡ false
    → (rest.ending ≡ panicked e → NoExit rest)
    → (turn name s o rest).ending ≡ panicked e
    → NoExit (turn name s o rest)
unfolding turn states_of
turn-NoExit name exit o rest e x h p = cc
turn-NoExit name s ok rest e x h p = (λ q. cc, h p)
turn-NoExit name s (fails y) rest e x h p = (λ q. cc, h p)
turn-NoExit name (other n) (panics y) rest e x h p = (λ q. cc, h p)
turn-NoExit name s (panics y) rest e x h p = (λ q. cc, tt)

loop-NoExit :
    (name : String) (final : Outcome) (s : State) (stopped : Bool) (ms : List Moment) (e : String)
    → (success_loop name final s stopped ms).ending ≡ panicked e
    → NoExit (success_loop name final s stopped ms)
unfolding success_loop states_of
loop-NoExit name final exit stopped ms e h = finish-NoExit name stopped final e h
loop-NoExit name final s stopped [] e h = cc
loop-NoExit name final s stopped (cancelled ∷ ms) e h =
    (λ q. cc, finish-NoExit name stopped final e h)
loop-NoExit name final s stopped (elapsed o ∷ ms) e h =
    turn-NoExit name s o (success_loop name final (success_next s o) (is_stop s) ms) e refl
      (loop-NoExit name final (success_next s o) (is_stop s) ms e) h

-- The recover changes nothing where there is no panic.
recovered_calm :
    (r : Managed) (b : Bool) → r.ending ≡ (if b then returned else waits) → recovered r ≡ r
unfolding recovered
recovered_calm r b h = ground arith

positive-ne-zero : (n : ℕ) → 0 < n → (n == 0) ≡ false
positive-ne-zero n h = ground arith

module _ (m : RunUntilSuccessManager) (name : String) (final : Outcome) where
  start-Begins :
      (o : Outcome) (ms : List Moment)
      → Begins continuous_edge idle (states_of (success_start m name final (elapsed o ∷ ms)).trace)
  unfolding success_start states_of call_events
  start-Begins ok ms = elim (Bool-cases (m.default_delay == 0)) [
    | inl z ↦ rw z tt
    | inr p ↦ rw p (loop-Begins name final idle false ms)
  ]
  start-Begins (fails e) ms = elim (Bool-cases (m.default_delay == 0)) [
    | inl z ↦ rw z tt
    | inr p ↦ rw p (loop-Begins name final idle false ms)
  ]
  start-Begins (panics e) ms = tt

  -- Once the startup delay has passed, whatever the first call of Init did, no state but idle is
  -- announced first, and the states follow the lifecycle from there: an error of the first Init
  -- does not lead to stop.
  pub success_starts_idle :
      (o : Outcome) (ms : List Moment)
      → Begins continuous_edge idle (states_of (success_manage m name final (elapsed o ∷ ms)).trace)
  unfolding success_manage states_of
  success_starts_idle o ms = rw (states_of-recovered) (elim (Bool-cases (m.startup_delay == 0)) [
    | inl z ↦ rw z tt
    | inr p ↦ rw p (start-Begins o ms)
  ])

  start-elapsed :
      (o : Outcome) (ms : List Moment)
      → is_calm o ≡ true
      → 0 < m.default_delay
      → success_start m name final (elapsed o ∷ ms)
        ≡ after_events
            (call_events init_method o ++ reset m.default_delay ∷ [])
            (success_loop name final idle false ms)
  unfolding success_start call_events
  start-elapsed ok ms c d = rw (positive-ne-zero m.default_delay d)
  start-elapsed (fails e) ms c d = rw (positive-ne-zero m.default_delay d)
  start-elapsed (panics e) ms c d = cc

  abbrev Settled : List Moment → Managed → Type 0
  Settled ms r = r.ending ≡ (if has_cancelled ms || run_succeeded r.trace then returned else waits)

  start-ending :
      (ms : List Moment)
      → 0 < m.default_delay
      → is_calm final ≡ true
      → calm ms ≡ true
      → Settled ms (success_start m name final ms)
  unfolding calm has_cancelled run_succeeded
  start-ending [] d f c = unfold success_start run_succeeded in refl
  start-ending (cancelled ∷ ms) d f c =
      unfold success_start in exit-ending name final exit false ms refl f
  start-ending (elapsed ok ∷ ms) d f c =
      rw (start-elapsed ok ms refl d)
        (unfold call_events in loop-ending name final idle false ms refl f c)
  start-ending (elapsed (fails e) ∷ ms) d f c =
      rw (start-elapsed (fails e) ms refl d)
        (unfold call_events in loop-ending name final idle false ms refl f c)
  start-ending (elapsed (panics e) ∷ ms) d f c = cc

  manage-start :
      (ms : List Moment)
      → 0 < m.startup_delay
      → 0 < m.default_delay
      → is_calm final ≡ true
      → calm ms ≡ true
      → success_manage m name final ms ≡ success_start m name final ms
  unfolding success_manage
  manage-start ms s d f c = rw (positive-ne-zero m.startup_delay s) (
      recovered_calm (success_start m name final ms)
        (has_cancelled ms || run_succeeded (success_start m name final ms).trace)
        (start-ending ms d f c))

  -- If no method panics and both delays are positive, Manage returns exactly when the context has
  -- been done or a call of Run has returned nil.
  pub success_until :
      (ms : List Moment)
      → 0 < m.startup_delay
      → 0 < m.default_delay
      → is_calm final ≡ true
      → calm ms ≡ true
      → let r = success_manage m name final ms in
        r.ending ≡ (if has_cancelled ms || run_succeeded r.trace then returned else waits)
  success_until ms s d f c = rw (manage-start ms s d f c) (start-ending ms d f c)

  start-returns :
      (ms : List Moment)
      → 0 < m.default_delay
      → calm ms ≡ true
      → (success_start m name final ms).ending ≡ returned
      → (stopped_last false (success_start m name final ms).trace ≡ true)
        × (last_announced init (success_start m name final ms).trace ≡ exit)
  unfolding calm stopped_last last_announced
  start-returns [] d c h = unfold success_start in cc
  start-returns (cancelled ∷ ms) d c h =
      unfold success_start in
      (
        loop-stopped_last name final exit false ms h,
        loop-last_announced name final exit false ms h init,
      )
  start-returns (elapsed ok ∷ ms) d c h = rw (start-elapsed ok ms refl d) (
      unfold call_events in
      (
        loop-stopped_last name final idle false ms (rw (start-elapsed ok ms refl d) at h),
        loop-last_announced name final idle false ms (rw (start-elapsed ok ms refl d) at h) init,
      ))
  start-returns (elapsed (fails e) ∷ ms) d c h = rw (start-elapsed (fails e) ms refl d) (
      unfold call_events in
      (
        loop-stopped_last name final idle false ms (rw (start-elapsed (fails e) ms refl d) at h),
        loop-last_announced name final idle false ms (rw (start-elapsed (fails e) ms refl d) at h)
            init,
      ))
  start-returns (elapsed (panics e) ∷ ms) d c h = cc

  -- If no method panics and both delays are positive, then when Manage returns, the last method that
  -- it has called is Stop, and the last state that it has announced is exit.
  success_returns :
      (ms : List Moment)
      → 0 < m.startup_delay
      → 0 < m.default_delay
      → is_calm final ≡ true
      → calm ms ≡ true
      → (success_manage m name final ms).ending ≡ returned
      → (stopped_last false (success_manage m name final ms).trace ≡ true)
        × (last_announced init (success_manage m name final ms).trace ≡ exit)
  success_returns ms s d f c h =
      let e = manage-start ms s d f c in rw e (start-returns ms d c (rw e at h))

  start-NoExit :
      (ms : List Moment) (e : String)
      → (success_start m name final ms).ending ≡ panicked e
      → NoExit (success_start m name final ms)
  unfolding success_start states_of call_events
  start-NoExit [] e h = cc
  start-NoExit (cancelled ∷ ms) e h = loop-NoExit name final exit false ms e h
  start-NoExit (elapsed ok ∷ ms) e h = elim (Bool-cases (m.default_delay == 0)) [
    | inl z ↦ rw z tt
    | inr p ↦ rw p (loop-NoExit name final idle false ms e (rw p at h))
  ]
  start-NoExit (elapsed (fails x) ∷ ms) e h = elim (Bool-cases (m.default_delay == 0)) [
    | inl z ↦ rw z tt
    | inr p ↦ rw p (loop-NoExit name final idle false ms e (rw p at h))
  ]
  start-NoExit (elapsed (panics x) ∷ ms) e h = tt

  -- With a positive startup delay, when a method or the reset of the ticker panics, Manage returns
  -- all the same, and it has not announced exit.
  pub success_panic_silent :
      (ms : List Moment) (e : String)
      → 0 < m.startup_delay
      → (success_start m name final ms).ending ≡ panicked e
      → ((success_manage m name final ms).ending ≡ returned)
        × All (λ s. s ≢ exit) (states_of (success_manage m name final ms).trace)
  unfolding success_manage
  success_panic_silent ms e s h =
      rw (positive-ne-zero m.startup_delay s)
        (rw (h, recovered), rw (states_of-recovered) (start-NoExit ms e h))
