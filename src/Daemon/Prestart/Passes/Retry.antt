-- ===== src/Daemon/Prestart/Passes/Retry.antt =====
-- A prestart pipeline that starts again until every stage has passed.
use rxdaemon.Prelude.{
  ℕ, ◌≡◌, ◌≢◌, refl, ap, true, List, [], ◌∷◌, none, some, arith, length, length-append, All,
}
use rxdaemon.Daemon.Prestart.{
  Stage, Pipeline, Step, stopped, ran, Round, fired, completed, passed, restarts, pass, rounds,
  run_stages, run,
}
use rxdaemon.Daemon.Prestart.Passes.{AllOk}

AllOk-passed :
    (stages : List Stage) (steps : List Step)
    → AllOk stages steps
    → ((pass true stages steps none).end ≡ passed none) × ((pass true stages steps none).logs ≡ [])
unfolding pass
AllOk-passed [] steps h = (refl, refl)
AllOk-passed (s ∷ ss) [] h = absurd h
AllOk-passed (s ∷ ss) (stopped ∷ steps) h = absurd h
AllOk-passed (s ∷ ss) (ran none ∷ steps) h = AllOk-passed ss steps h
AllOk-passed (s ∷ ss) (ran (some e) ∷ steps) h = absurd h

-- A round in which some stage fails, after stages that returned nil.
abbrev FailsInOrder : List Stage → List Step → Type 0
FailsInOrder [] steps = ⊥
FailsInOrder (s ∷ ss) [] = ⊥
FailsInOrder (s ∷ ss) (stopped ∷ steps) = ⊥
FailsInOrder (s ∷ ss) (ran none ∷ steps) = FailsInOrder ss steps
FailsInOrder (s ∷ ss) (ran (some e) ∷ steps) = Unit {0}

FailsInOrder-pass :
    (stages : List Stage) (steps : List Step)
    → FailsInOrder stages steps
    → ((pass true stages steps none).end ≡ restarts)
      × (length (pass true stages steps none).logs ≡ 1)
unfolding pass
FailsInOrder-pass [] steps h = absurd h
FailsInOrder-pass (s ∷ ss) [] h = absurd h
FailsInOrder-pass (s ∷ ss) (stopped ∷ steps) h = absurd h
FailsInOrder-pass (s ∷ ss) (ran none ∷ steps) h = FailsInOrder-pass ss steps h
FailsInOrder-pass (s ∷ ss) (ran (some e) ∷ steps) h = (refl, refl)

-- Rounds that fail one after another.
abbrev AllFail : List Stage → List (List Step) → Type 0
AllFail stages fs = All (λ steps. FailsInOrder stages steps) fs

abbrev pub then_round : List (List Step) → List Step → List Round
then_round [] last = fired last ∷ []
then_round (f ∷ fs) last = fired f ∷ then_round fs last

rounds-retry :
    (stages : List Stage) (fs : List (List Step)) (last : List Step)
    → AllFail stages fs
    → AllOk stages last
    → ((rounds true stages true (then_round fs last)).ending ≡ completed)
      × (length (rounds true stages true (then_round fs last)).logs ≡ length fs)
unfolding rounds
rounds-retry stages [] last h o =
    let e = AllOk-passed stages last o in rw (e.0, rounds) (refl, ap length e.1)
rounds-retry stages (f ∷ fs) last h o =
    let e = FailsInOrder-pass stages f h.0 in
    let ih = rounds-retry stages fs last h.1 o in
    rw (e.0, rounds) (ih.0, omega (arith, e.1, ih.1, length-append {0}))

run_stages-retry :
    (stages : List Stage) (delay : ℕ) (fs : List (List Step)) (last : List Step)
    → AllFail stages fs
    → AllOk stages last
    → stages ≢ []
    → ((run_stages true delay stages (then_round fs last)).0.ending ≡ completed)
      × (length (run_stages true delay stages (then_round fs last)).0.logs ≡ length fs)
unfolding run_stages
run_stages-retry [] delay fs last f o n = absurd (n refl)
run_stages-retry (s ∷ ss) delay fs last f o n = rounds-retry (s ∷ ss) fs last f o

-- With RestartOnError a pipeline that has stages starts again after every round in which a stage
-- fails, and logs one entry for each, until a round in which every stage returns nil: then it
-- completes.
pub run-retry :
    (p : Pipeline) (fs : List (List Step)) (last : List Step)
    → p.restart_on_error ≡ true
    → p.stages ≢ []
    → AllFail p.stages fs
    → AllOk p.stages last
    → ((run p (then_round fs last)).0.ending ≡ completed)
      × (length (run p (then_round fs last)).0.logs ≡ length fs)
unfolding run
run-retry p fs last r n f o = rw r (run_stages-retry p.stages p.restart_delay fs last f o n)
