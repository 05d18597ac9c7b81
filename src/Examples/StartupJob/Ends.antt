-- ===== src/Examples/StartupJob/Ends.antt =====
-- How often StartupJobService runs, and that its manager returns.
use rxdaemon.Prelude.{
  ℕ, suc, ◌+◌, ◌-◌, ◌≤◌, ◌<◌, String, ◌≡◌, refl, ◌∙◌, ap, sym, subst, if-true, if-false, Bool, true,
  false, List, [], ◌∷◌, arith, ltb, ltb→lt, ltb→ge, ◌==◌, length, Bool-cases, inl, inr,
}
use rxdaemon.States.{State, exit, init, idle, run, stop, other}
use rxdaemon.Manager.{
  Outcome, ok, init_method, called, reset, Managed, returned, RunUntilSuccessManager, turn, finish,
  success_next, success_loop, success_start, success_manage, recovered, after_events,
}
use rxdaemon.Manager.Turn.{is_exit}
use rxdaemon.Examples.{Tick, stops, calls, drive}
use rxdaemon.Examples.StartupJob.{
  job_run, new_startup_job, startup_job, job_moments, count_runs, waits_left, is_main, is_working,
}

-- The last call of Stop returns nil, as every one of this service does.
module _ (name : String) where
  job_loop : State → ℕ → Bool → List (Tick Bool) → Managed
  unfolding success_loop drive
  job_loop state attempts stopped ticks =
      success_loop name ok state stopped (drive success_next startup_job state attempts ticks)

  finish-count_runs : (stopped : Bool) → count_runs (finish name stopped ok).trace ≡ 0
  unfolding finish count_runs
  finish-count_runs stopped = ground arith

  finish-returned : (stopped : Bool) → (finish name stopped ok).ending ≡ returned
  unfolding finish
  finish-returned stopped = ground arith

  -- What a wait in Run leads to: the end, or another round.
  abbrev Ends : Managed → Type 0
  Ends r = (count_runs r.trace ≡ 1) × (r.ending ≡ returned)

  run_turn : ℕ × Outcome → List (Tick Bool) → Managed
  unfolding job_loop
  run_turn p ticks = turn name run p.1 (job_loop (success_next run p.1) p.0 false ticks)

  run_step :
      (done : Bool) (a : ℕ) (stopped : Bool) (ticks : List (Tick Bool))
      → job_loop run a stopped (calls done ∷ ticks) ≡ run_turn (job_run done a) ticks
  unfolding run_turn startup_job
  run_step done a stopped ticks = refl

  run_done :
      (a : ℕ) (stopped : Bool) (ticks : List (Tick Bool))
      → Ends (job_loop run a stopped (calls true ∷ ticks))
  unfolding run_turn count_runs finish job_run
  run_done a stopped ticks = subst Ends (sym (run_step true a stopped ticks)) (refl, refl)

  run_succeeds :
      (a : ℕ) (stopped : Bool) (ticks : List (Tick Bool))
      → ltb a 3 ≡ false
      → Ends (job_loop run a stopped (calls false ∷ ticks))
  unfolding run_turn count_runs finish job_run
  run_succeeds a stopped ticks h =
      subst Ends (sym (run_step false a stopped ticks))
        (subst (λ p. Ends (run_turn p ticks)) (sym (if-false (ltb a 3) _ _ h)) (refl, refl))

  run_fails :
      (a : ℕ) (stopped : Bool) (ticks : List (Tick Bool))
      → ltb a 3 ≡ true
      → let r = job_loop run a stopped (calls false ∷ ticks) in
        let again = job_loop stop (a + 1) false ticks in
        (count_runs r.trace ≡ suc (count_runs again.trace)) × (r.ending ≡ again.ending)
  unfolding run_turn count_runs job_run
  run_fails a stopped ticks h =
      let again = job_loop stop (a + 1) false ticks in
      subst
        (λ (r : Managed).
          (count_runs r.trace ≡ suc (count_runs again.trace)) × (r.ending ≡ again.ending))
        (sym (run_step false a stopped ticks))
        (subst
          (λ p.
            (count_runs (run_turn p ticks).trace ≡ suc (count_runs again.trace))
            × ((run_turn p ticks).ending ≡ again.ending))
          (sym (if-true (ltb a 3) _ _ h)) (refl, refl))

  job_loop-count_runs :
      (s : State) (a : ℕ) (stopped : Bool) (ticks : List (Tick Bool))
      → a ≤ 3
      → count_runs (job_loop s a stopped ticks).trace ≤ 4 - a
  unfolding job_loop count_runs startup_job
  job_loop-count_runs exit a stopped ticks h = omega (arith, finish-count_runs stopped)
  job_loop-count_runs s a stopped [] h = omega arith
  job_loop-count_runs s a stopped (stops ∷ ticks) h = omega (arith, finish-count_runs stopped)
  job_loop-count_runs init a stopped (calls done ∷ ticks) h =
      job_loop-count_runs idle a false ticks h
  job_loop-count_runs idle a stopped (calls done ∷ ticks) h =
      job_loop-count_runs run a false ticks h
  job_loop-count_runs stop a stopped (calls done ∷ ticks) h =
      job_loop-count_runs init a true ticks h
  job_loop-count_runs (other n) a stopped (calls done ∷ ticks) h =
      job_loop-count_runs (other n) a false ticks h
  job_loop-count_runs run a stopped (calls true ∷ ticks) h =
      omega (arith, (run_done a stopped ticks).0)
  job_loop-count_runs run a stopped (calls false ∷ ticks) h = elim (Bool-cases (ltb a 3)) [
    | inl y ↦ omega (
      arith,
      ltb→lt a 3 y,
      (run_fails a stopped ticks y).0,
      job_loop-count_runs stop (a + 1) false ticks (omega (arith, ltb→lt a 3 y)),
    )
    | inr n ↦ omega (arith, (run_succeeds a stopped ticks n).0)
  ]

  job_loop-ending :
      (s : State) (a : ℕ) (stopped : Bool) (ticks : List (Tick Bool))
      → a ≤ 3
      → is_main s ≡ true
      → waits_left s a ≤ length ticks
      → (job_loop s a stopped ticks).ending ≡ returned
  unfolding job_loop startup_job
  job_loop-ending exit a stopped ticks h m l = finish-returned stopped
  job_loop-ending init a stopped [] h m l = absurd (omega arith)
  job_loop-ending idle a stopped [] h m l = absurd (omega arith)
  job_loop-ending run a stopped [] h m l = absurd (omega arith)
  job_loop-ending stop a stopped [] h m l = absurd (omega arith)
  job_loop-ending (other n) a stopped ticks h m l = cc
  job_loop-ending s a stopped (stops ∷ ticks) h m l = finish-returned stopped
  job_loop-ending init a stopped (calls done ∷ ticks) h m l =
      job_loop-ending idle a false ticks h refl (omega arith)
  job_loop-ending idle a stopped (calls done ∷ ticks) h m l =
      job_loop-ending run a false ticks h refl (omega arith)
  job_loop-ending stop a stopped (calls done ∷ ticks) h m l =
      job_loop-ending init a true ticks h refl (omega arith)
  job_loop-ending run a stopped (calls true ∷ ticks) h m l = (run_done a stopped ticks).1
  job_loop-ending run a stopped (calls false ∷ ticks) h m l = elim (Bool-cases (ltb a 3)) [
    | inl y ↦
        (run_fails a stopped ticks y).1
        ∙ job_loop-ending stop (a + 1) false ticks (omega (arith, ltb→lt a 3 y)) refl
            (omega (arith, ltb→lt a 3 y))
    | inr n ↦ (run_succeeds a stopped ticks n).1
  ]

  job_loop-exact :
      (s : State) (a : ℕ) (stopped : Bool) (ticks : List (Tick Bool))
      → a ≤ 3
      → is_main s ≡ true
      → is_exit s ≡ false
      → is_working ticks ≡ true
      → waits_left s a ≤ length ticks
      → count_runs (job_loop s a stopped ticks).trace ≡ 4 - a
  unfolding job_loop count_runs startup_job
  job_loop-exact exit a stopped ticks h m x w l = cc
  job_loop-exact init a stopped [] h m x w l = absurd (omega arith)
  job_loop-exact idle a stopped [] h m x w l = absurd (omega arith)
  job_loop-exact run a stopped [] h m x w l = absurd (omega arith)
  job_loop-exact stop a stopped [] h m x w l = absurd (omega arith)
  job_loop-exact (other n) a stopped ticks h m x w l = cc
  job_loop-exact s a stopped (stops ∷ ticks) h m x w l = cc
  job_loop-exact init a stopped (calls done ∷ ticks) h m x w l =
      job_loop-exact idle a false ticks h refl refl (ground arith) (omega arith)
  job_loop-exact idle a stopped (calls done ∷ ticks) h m x w l =
      job_loop-exact run a false ticks h refl refl (ground arith) (omega arith)
  job_loop-exact stop a stopped (calls done ∷ ticks) h m x w l =
      job_loop-exact init a true ticks h refl refl (ground arith) (omega arith)
  job_loop-exact run a stopped (calls true ∷ ticks) h m x w l = cc
  job_loop-exact run a stopped (calls false ∷ ticks) h m x w l = elim (Bool-cases (ltb a 3)) [
    | inl y ↦ omega (
      arith,
      ltb→lt a 3 y,
      (run_fails a stopped ticks y).0,
      job_loop-exact stop (a + 1) false ticks (omega (arith, ltb→lt a 3 y)) refl refl w
          (omega (arith, ltb→lt a 3 y)),
    )
    | inr n ↦ omega (arith, (run_succeeds a stopped ticks n).0, ltb→ge a 3 n)
  ]

positive-ne-zero : (n : ℕ) → 0 < n → (n == 0) ≡ false
positive-ne-zero n h = ground arith

-- A recover with nothing to recover from.
recovered_returned : (r : Managed) → r.ending ≡ returned → recovered r ≡ r
unfolding recovered
recovered_returned r h = ground arith

-- What the startup of the manager adds to a run of the loop.
abbrev started : RunUntilSuccessManager → Managed → Managed
started m r = after_events (called init_method ok ∷ reset m.default_delay ∷ []) r

module _ (m : RunUntilSuccessManager) (name : String) where
  start-calls :
      (done : Bool) (ticks : List (Tick Bool))
      → 0 < m.default_delay
      → success_start m name ok (job_moments (calls done ∷ ticks))
        ≡ started m (job_loop name idle new_startup_job false ticks)
  unfolding success_start job_moments job_loop startup_job
  start-calls done ticks d = rw (positive-ne-zero m.default_delay d)

  start-stops :
      (ticks : List (Tick Bool))
      → success_start m name ok (job_moments (stops ∷ ticks)) ≡ finish name false ok
  unfolding success_start job_moments success_loop
  start-stops ticks = refl

  manage-started :
      (ticks : List (Tick Bool)) (r : Managed)
      → 0 < m.startup_delay
      → success_start m name ok (job_moments ticks) ≡ r
      → r.ending ≡ returned
      → success_manage m name ok (job_moments ticks) ≡ r
  unfolding success_manage
  manage-started ticks r s e h =
      rw (positive-ne-zero m.startup_delay s) (ap (λ r. recovered r) e ∙ recovered_returned r h)

  -- With positive delays, and within 15 waits of the manager, whether they end by their timers or by
  -- the context, Manage returns; it has called Run four times at most, and exactly four times where
  -- every wait has ended by its timer and no call has found its context done.
  pub startup_job_succeeds :
      (ticks : List (Tick Bool))
      → 0 < m.startup_delay
      → 0 < m.default_delay
      → 15 ≤ length ticks
      → let r = success_manage m name ok (job_moments ticks) in
        (r.ending ≡ returned)
        × (count_runs r.trace ≤ 4)
        × (is_working ticks ≡ true → count_runs r.trace ≡ 4)
  unfolding count_runs
  startup_job_succeeds [] s d l = absurd (omega arith)
  startup_job_succeeds (stops ∷ ticks) s d l =
      rw
        (manage-started (stops ∷ ticks) (finish name false ok) s (start-stops ticks)
          (finish-returned name false))
        (finish-returned name false, omega (arith, finish-count_runs name false), λ w. cc)
  startup_job_succeeds (calls done ∷ ticks) s d l =
      let e = job_loop-ending name idle 0 false ticks (omega arith) refl (omega arith) in
      rw (manage-started (calls done ∷ ticks) _ s (start-calls done ticks d) e) (
        e,
        job_loop-count_runs name idle 0 false ticks (omega arith),
        λ w.
            job_loop-exact name idle 0 false ticks (omega arith) refl refl (ground arith)
              (omega arith),
      )
