-- ===== src/Daemon/Prestart.antt =====
-- daemon_prestart.go: the pipeline of stages that runs before the services start. A schedule lists
-- what happens at each wait of the routine that Run starts. Durations are in nanoseconds.
pub mod Passes
use rxdaemon.Prelude.{
  ℕ, ◌*◌, ◌^◌, String, ◌≡◌, refl, Bool, true, false, List, [], ◌∷◌, ◌++◌, Option, none, some, arith,
  ◌==◌, if◌then◌else◌, length,
}
use rxdaemon.Log.{DaemonLog, error_field, string_field, level_error, level_warning}

-- What the function of a stage does, its context being all that the pipeline passes it, is in the
-- schedule.
pub record Stage : Type 0 where
  pub name : String

pub record PrestartConfig : Type 0 where
  pub restart_on_error : Bool
  pub restart_delay : ℕ

pub record Pipeline : Type 0 where
  pub restart_on_error : Bool
  pub restart_delay : ℕ
  pub stages : List Stage

unfoldable pub new_prestart_pipeline : PrestartConfig → List Stage → Pipeline
new_prestart_pipeline conf stages = record {
  restart_on_error = conf.restart_on_error;
  restart_delay = conf.restart_delay;
  stages = stages;
}

unfoldable pub add : Pipeline → Stage → Pipeline
add p stage = record p { stages = p.stages ++ stage ∷ [] }

-- Before each stage the context is looked at, and then the stage's function returns nil or an error.
pub data Step : Type 0 where
  stopped : Step
  ran : Option String → Step

-- At the `select` on the timer: the context is done, or the timer fires and the stages run.
pub data Round : Type 0 where
  cancelled : Round
  fired : List Step → Round

-- How a routine ends: all stages have run without an error, the context was done, or it still waits.
pub data Ending : Type 0 where
  completed cancelled_ending waiting : Ending

pub record Report : Type 0 where
  pub logs : List DaemonLog
  pub ending : Ending

unfoldable prestart_failed : Bool → String → Stage → DaemonLog
prestart_failed restart err stage = record {
  level = if restart then level_warning else level_error;
  message = "prestart failed";
  fields = error_field "error" err ∷ string_field "stage" stage.name ∷ [];
}

-- How a pass over the stages ends: with the last value of `err`, with the timer reset for a restart,
-- with a return because the context was done, or in a stage that still runs.
pub data PassEnd : Type 0 where
  passed : Option String → PassEnd
  restarts : PassEnd
  returns : PassEnd
  runs : PassEnd

pub record Pass : Type 0 where
  pub logs : List DaemonLog
  pub end : PassEnd

abbrev after_log : DaemonLog → Pass → Pass
after_log l p = record p { logs = l ∷ p.logs }

-- The loop `for _, stage := range p.Stages`; `err` is the variable above it.
unfoldable pass : Bool → List Stage → List Step → Option String → Pass
unfolding prestart_failed
pass restart [] steps err = record { logs = []; end = passed err }
pass restart (stage ∷ stages) [] err = record { logs = []; end = runs }
pass restart (stage ∷ stages) (stopped ∷ steps) err = record { logs = []; end = returns }
pass restart (stage ∷ stages) (ran none ∷ steps) err = pass restart stages steps none
pass restart (stage ∷ stages) (ran (some e) ∷ steps) err =
    let further = pass restart stages steps (some e) in
    after_log (prestart_failed restart e stage)
      (if restart then record { logs = []; end = restarts } else further)

-- The loop `for !done`. `armed` says whether the timer will fire: it does at first, and after a reset.
-- A round that would have the timer fire when it is not armed cannot happen, and is passed over.
unfoldable rounds : Bool → List Stage → Bool → List Round → Report
unfolding pass
rounds restart stages armed [] = record { logs = []; ending = waiting }
rounds restart stages armed (cancelled ∷ rs) = record { logs = []; ending = cancelled_ending }
rounds restart stages false (fired steps ∷ rs) = rounds restart stages false rs
rounds restart stages true (fired steps ∷ rs) =
    let p = pass restart stages steps none in
    let again = rounds restart stages true rs in
    let hung = rounds restart stages false rs in
    elim p.end [
      | passed none ↦ record { logs = p.logs; ending = completed }
      | passed (some e) ↦ record hung { logs = p.logs ++ hung.logs }
      | restarts ↦ record again { logs = p.logs ++ again.logs }
      | returns ↦ record { logs = p.logs; ending = cancelled_ending }
      | runs ↦ record { logs = p.logs; ending = waiting }
    ]

-- The routine of Run over the fields of the pipeline.
unfoldable run_stages : Bool → ℕ → List Stage → List Round → Report × ℕ
unfolding rounds
run_stages restart delay [] rs = (record { logs = []; ending = completed }, delay)
run_stages restart delay (s ∷ ss) rs =
    (rounds restart (s ∷ ss) true rs, if delay == 0 then 5 * 10 ^ 9 else delay)

-- What the routine of Run reports, and the restart delay that it has set in the pipeline.
unfoldable pub run : Pipeline → List Round → Report × ℕ
unfolding run_stages
run p rs = run_stages p.restart_on_error p.restart_delay p.stages rs
