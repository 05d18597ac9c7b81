-- ===== src/Examples.antt =====
-- The programs under examples/: their services as runners, which a manager drives, their own manager, and
-- their main functions.
pub mod CustomManager
pub mod StartupJob
pub mod HelloWorld
pub mod Polling
pub mod Mains
pub mod PubSub
use rxdaemon.Prelude.{ℕ, String, Bool, true, false, List, [], ◌∷◌, Option, none, some}
use rxdaemon.States.{State}
use rxdaemon.Manager.{Outcome, ok, Moment, cancelled, elapsed, Method, method_of}

-- A service's methods, over what it keeps (S) and what a call meets (W).
abbrev Runner : Type 0 → Type 0 → Type 0
Runner S W = Method → W → S → S × Outcome

-- A wait of the manager ends by its context, or by its timer, and then a method is called.
pub data Tick (W : Type 0) : Type 0 where
  stops : Tick W
  calls : W → Tick W

-- What the service does in a state of the manager that has a method, and what it does else.
unfoldable pub serve : {S W : Type 0} → Runner S W → Option Method → W → S → S × Outcome
serve runner none w s = (s, ok)
serve runner (some method) w s = runner method w s

-- The moments of a manager that moves by `next` and calls the methods of `runner`.
unfoldable drive :
    {S W : Type 0}
    → (State → Outcome → State)
    → Runner S W
    → State
    → S
    → List (Tick W)
    → List Moment
unfolding serve method_of
drive next runner state s [] = []
drive next runner state s (stops ∷ ticks) = cancelled ∷ []
drive next runner state s (calls w ∷ ticks) =
    let done = serve runner (method_of state) w s in
    elapsed done.1 ∷ drive next runner (next state done.1) done.0 ticks
