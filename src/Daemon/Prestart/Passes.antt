-- ===== src/Daemon/Prestart/Passes.antt =====
-- When the prestart pipeline completes, what it logs, and when it can only wait.
pub mod Retry
use rxdaemon.Prelude.{
  ℕ, suc, append-nil, String, ◌≡◌, ◌≢◌, ◌⊎◌, inl, inr, refl, ap, ◌∙◌, Bool, true, false, List, [],
  ◌∷◌, Option, none, some, arith, if◌then◌else◌, length, length-append, All,
}
use rxdaemon.Daemon.Prestart.{
  Stage, Pipeline, Step, stopped, ran, Round, cancelled, fired, Ending, completed, cancelled_ending,
  waiting, PassEnd, passed, restarts, returns, runs, pass, rounds, run_stages, run,
}

-- Every stage has run and returned nil.
abbrev AllOk : List Stage → List Step → Type 0
AllOk [] steps = Unit {0}
AllOk (s ∷ ss) [] = ⊥
AllOk (s ∷ ss) (stopped ∷ steps) = ⊥
AllOk (s ∷ ss) (ran none ∷ steps) = AllOk ss steps
AllOk (s ∷ ss) (ran (some e) ∷ steps) = ⊥

-- Some round of the schedule runs every stage without an error.
abbrev SomeAllOk : List Stage → List Round → Type 0
SomeAllOk stages [] = ⊥
SomeAllOk stages (cancelled ∷ rs) = SomeAllOk stages rs
SomeAllOk stages (fired steps ∷ rs) = AllOk stages steps ⊎ SomeAllOk stages rs

passed-AllOk :
    (stages : List Stage) (steps : List Step)
    → (pass true stages steps none).end ≡ passed none
    → AllOk stages steps
unfolding pass
passed-AllOk [] steps h = tt
passed-AllOk (s ∷ ss) [] h = cc
passed-AllOk (s ∷ ss) (stopped ∷ steps) h = cc
passed-AllOk (s ∷ ss) (ran none ∷ steps) h = passed-AllOk ss steps h
passed-AllOk (s ∷ ss) (ran (some e) ∷ steps) h = cc

not-passed-some :
    (stages : List Stage) (steps : List Step) (e : String)
    → (pass true stages steps none).end ≡ passed (some e)
    → ⊥
unfolding pass
not-passed-some [] steps e h = cc
not-passed-some (s ∷ ss) [] e h = cc
not-passed-some (s ∷ ss) (stopped ∷ steps) e h = cc
not-passed-some (s ∷ ss) (ran none ∷ steps) e h = not-passed-some ss steps e h
not-passed-some (s ∷ ss) (ran (some x) ∷ steps) e h = cc

after_pass-ending :
    (stages : List Stage) (steps : List Step) (rs : List Round) (e : PassEnd)
    → (pass true stages steps none).end ≡ e
    → ((rounds true stages true rs).ending ≡ completed → SomeAllOk stages rs)
    → (rounds true stages true (fired steps ∷ rs)).ending ≡ completed
    → AllOk stages steps ⊎ SomeAllOk stages rs
unfolding rounds
after_pass-ending stages steps rs (passed none) e ih h = inl (passed-AllOk stages steps e)
after_pass-ending stages steps rs (passed (some x)) e ih h =
    absurd (not-passed-some stages steps x e)
after_pass-ending stages steps rs restarts e ih h = inr (ih (rw (e, rounds) at h))
after_pass-ending stages steps rs returns e ih h = absurd (cc (rw (e, rounds) at h))
after_pass-ending stages steps rs runs e ih h = absurd (cc (rw (e, rounds) at h))

rounds-completed :
    (stages : List Stage) (rs : List Round)
    → (rounds true stages true rs).ending ≡ completed
    → SomeAllOk stages rs
unfolding rounds
rounds-completed stages [] h = cc
rounds-completed stages (cancelled ∷ rs) h = cc
rounds-completed stages (fired steps ∷ rs) h =
    after_pass-ending stages steps rs (pass true stages steps none).end refl
      (rounds-completed stages rs) h

-- What a pass in which no stage is cut short leaves in `err`: the result of its last stage.
abbrev last_result : Option String → List Step → Option String
last_result err [] = err
last_result err (stopped ∷ steps) = last_result err steps
last_result err (ran r ∷ steps) = last_result r steps

-- There is a step for every stage, and each is the return of the stage's function.
abbrev RunsAll : List Stage → List Step → Type 0
RunsAll [] [] = Unit {0}
RunsAll [] (x ∷ steps) = ⊥
RunsAll (s ∷ ss) [] = ⊥
RunsAll (s ∷ ss) (stopped ∷ steps) = ⊥
RunsAll (s ∷ ss) (ran r ∷ steps) = RunsAll ss steps

abbrev failures : List Step → ℕ
failures [] = 0
failures (ran (some e) ∷ steps) = suc (failures steps)
failures (x ∷ steps) = failures steps

pass-end :
    (stages : List Stage) (steps : List Step) (err : Option String)
    → RunsAll stages steps
    → ((pass false stages steps err).end ≡ passed (last_result err steps))
      × (length (pass false stages steps err).logs ≡ failures steps)
unfolding pass
pass-end [] [] err h = (refl, refl)
pass-end [] (x ∷ steps) err h = absurd h
pass-end (s ∷ ss) [] err h = absurd h
pass-end (s ∷ ss) (stopped ∷ steps) err h = absurd h
pass-end (s ∷ ss) (ran none ∷ steps) err h = pass-end ss steps none h
pass-end (s ∷ ss) (ran (some e) ∷ steps) err h =
    let ih = pass-end ss steps (some e) h in (ih.0, ap suc ih.1)

abbrev pub has_cancelled : List Round → Bool
has_cancelled [] = false
has_cancelled (cancelled ∷ rs) = true
has_cancelled (fired steps ∷ rs) = has_cancelled rs

unarmed :
    (restart : Bool) (stages : List Stage) (rs : List Round)
    → ((rounds restart stages false rs).ending
        ≡ (if has_cancelled rs then cancelled_ending else waiting))
      × ((rounds restart stages false rs).logs ≡ [])
unfolding rounds
unarmed restart stages [] = (refl, refl)
unarmed restart stages (cancelled ∷ rs) = (refl, refl)
unarmed restart stages (fired steps ∷ rs) = unarmed restart stages rs

abbrev ending_after : Option String → List Round → Ending
ending_after none rs = completed
ending_after (some e) rs = if has_cancelled rs then cancelled_ending else waiting

after_result :
    (stages : List Stage) (steps : List Step) (rs : List Round) (r : Option String)
    → (pass false stages steps none).end ≡ passed r
    → ((rounds false stages true (fired steps ∷ rs)).ending ≡ ending_after r rs)
      × ((rounds false stages true (fired steps ∷ rs)).logs ≡ (pass false stages steps none).logs)
unfolding rounds
after_result stages steps rs none e = rw (e, rounds) (refl, refl)
after_result stages steps rs (some x) e =
    let u = unarmed false stages rs in rw (e, rounds) (u.0, rw u.1 (append-nil _))

without_restart :
    (stages : List Stage) (steps : List Step) (rs : List Round)
    → RunsAll stages steps
    → (delay : ℕ)
    → ((run_stages false delay stages (fired steps ∷ rs)).0.ending
        ≡ ending_after (last_result none steps) rs)
      × (length (run_stages false delay stages (fired steps ∷ rs)).0.logs ≡ failures steps)
unfolding run_stages
without_restart [] [] rs h delay = (refl, refl)
without_restart [] (x ∷ steps) rs h delay = absurd h
without_restart (s ∷ ss) steps rs h delay =
    let e = pass-end (s ∷ ss) steps none h in
    let a = after_result (s ∷ ss) steps rs (last_result none steps) e.0 in
    (a.0, ap length a.1 ∙ e.1)

-- Without RestartOnError every stage runs whatever the others returned, and each error is logged
-- once. The pipeline completes if the last stage has returned nil; if it has returned an error, the
-- pipeline never runs again and waits for the context to be done.
run-without-restart :
    (p : Pipeline) (steps : List Step) (rs : List Round)
    → p.restart_on_error ≡ false
    → RunsAll p.stages steps
    → ((run p (fired steps ∷ rs)).0.ending ≡ ending_after (last_result none steps) rs)
      × (length (run p (fired steps ∷ rs)).0.logs ≡ failures steps)
unfolding run
run-without-restart p steps rs n h = rw n (without_restart p.stages steps rs h p.restart_delay)

run_stages-completed :
    (stages : List Stage) (delay : ℕ) (rs : List Round)
    → (run_stages true delay stages rs).0.ending ≡ completed
    → (stages ≡ []) ⊎ SomeAllOk stages rs
unfolding run_stages
run_stages-completed [] delay rs h = inl refl
run_stages-completed (s ∷ ss) delay rs h = inr (rounds-completed (s ∷ ss) rs h)

-- With RestartOnError the pipeline completes only if it has no stages, or after a round in which every
-- stage has returned nil.
run-with-restart :
    (p : Pipeline) (rs : List Round)
    → p.restart_on_error ≡ true
    → (run p rs).0.ending ≡ completed
    → (p.stages ≡ []) ⊎ SomeAllOk p.stages rs
unfolding run
run-with-restart p rs r h = run_stages-completed p.stages p.restart_delay rs (rw r at h)
