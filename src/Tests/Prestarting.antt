-- ===== src/Tests/Prestarting.antt =====
-- Uses of the theorems on daemon_prestart.go.
use rxdaemon.Prelude.{◌≡◌, refl, List, [], ◌∷◌, none, some, true, false, length}
use rxdaemon.Daemon.Prestart.{Stage, Pipeline, Step, ran, completed, run}
use rxdaemon.Daemon.Prestart.Passes.Retry.{then_round, run-retry}

abbrev two_stages : List Stage
two_stages = record { name = "disk" } ∷ record { name = "network" } ∷ []

abbrev once : Pipeline
once = record { restart_on_error = false; restart_delay = 5; stages = two_stages }

abbrev again : Pipeline
again = record { restart_on_error = true; restart_delay = 5; stages = two_stages }

abbrev last_fails : List Step
last_fails = ran none ∷ ran (some "down") ∷ []

abbrev none_fails : List Step
none_fails = ran none ∷ ran none ∷ []

run-retry_example :
    ((run again (then_round (last_fails ∷ []) none_fails)).0.ending ≡ completed)
    × (length (run again (then_round (last_fails ∷ []) none_fails)).0.logs ≡ 1)
run-retry_example = run-retry again (last_fails ∷ []) none_fails refl (λ h. cc) (tt, tt) tt
