-- ===== src/Examples/HelloWorld/Serving.antt =====
-- HelloWorldAPIService under the default manager.
use rxdaemon.Prelude.{
  ℕ, ◌∙◌, Option, String, ◌≡◌, refl, ◌≢◌, Bool, true, false, List, [], ◌∷◌, none, arith,
  Option-cases, inl, inr, if◌then◌else◌,
}
use rxdaemon.States.{State, exit, init, idle, run, stop, other}
use rxdaemon.Manager.{
  Outcome, ok, Moment, init_method, run_method, method_of, continuous_next, Event, called, updated,
  logged, reset, Managed, turn, finish, is_stop, after_events, returned, waits, transition_delay,
  RunContinuousManager, continuous_loop, continuous_manage,
}
use rxdaemon.Manager.Trace.{calm, is_calm, has_cancelled}
use rxdaemon.Manager.Continuous.{continuous_until_cancelled}
use rxdaemon.Examples.{Tick, stops, calls, serve, drive}
use rxdaemon.Examples.HelloWorld.{
  HelloWorldApiService, Server, without_entries, new_hello_world_service, Listening, served,
  not_served, hello_init, hello_idle, hello_stop, hello_run, run_server, hello_world,
}

-- The service has a server where its manager goes on to Idle, Run or Stop; before Init it has none.
abbrev Fitting : State → HelloWorldApiService → Type 0
Fitting init s = s.server ≡ none
Fitting idle s = s.server ≢ none
Fitting run s = s.server ≢ none
Fitting _ s = Unit {0}

-- A call of Init that returns no error, or a call of another method, or none.
abbrev fine : State → Outcome → Bool
fine init ok = true
fine init _ = false
fine _ _ = true

abbrev Fits : State → HelloWorldApiService × Outcome → Type 0
Fits state p =
    Fitting (continuous_next state p.1) p.0 × (is_calm p.1 ≡ true) × (fine state p.1 ≡ true)

init-Fits :
    (l : Listening) (s : HelloWorldApiService)
    → Fitting init s
    → Fits init (hello_world init_method l s)
unfolding hello_world continuous_next
init-Fits l s f = rw (f, hello_init) (λ e. cc, refl, refl)

run_server-Fits :
    (server : Server) (s : HelloWorldApiService) (l : Listening)
    → Fits run (without_entries (run_server server s l))
unfolding run_server continuous_next
run_server-Fits server s (served t err) = (tt, refl, refl)
run_server-Fits server s (not_served err) = (tt, refl, refl)

run-Fits :
    (l : Listening) (s : HelloWorldApiService)
    → Fitting run s
    → Fits run (hello_world run_method l s)
unfolding hello_world
run-Fits l s f = elim (Option-cases s.server) [
  | inl n ↦ absurd (f n)
  | inr (server, e) ↦ rw (e, hello_run) (run_server-Fits server s l)
]

serve-Fits :
    (state : State) (l : Listening) (s : HelloWorldApiService)
    → Fitting state s
    → Fits state (serve hello_world (method_of state) l s)
unfolding serve method_of continuous_next
serve-Fits init l s f = init-Fits l s f
serve-Fits idle l s f = unfold hello_world in (f, refl, refl)
serve-Fits run l s f = run-Fits l s f
serve-Fits stop l s f = unfold hello_world in (refl, refl, refl)
serve-Fits exit l s f = (tt, refl, refl)
serve-Fits (other n) l s f = (tt, refl, refl)

-- Every call of Init in the trace returns nil.
unfoldable pub inits_succeed : List Event → Bool
inits_succeed [] = true
inits_succeed (called init_method ok ∷ es) = inits_succeed es
inits_succeed (called init_method o ∷ es) = false
inits_succeed (called m o ∷ es) = inits_succeed es
inits_succeed (updated u ∷ es) = inits_succeed es
inits_succeed (logged e ∷ es) = inits_succeed es
inits_succeed (reset d ∷ es) = inits_succeed es

turn-inits_succeed :
    (name : String) (state : State) (o : Outcome) (rest : Managed)
    → fine state o ≡ true
    → inits_succeed rest.trace ≡ true
    → inits_succeed (turn name state o rest).trace ≡ true
unfolding turn inits_succeed
turn-inits_succeed name state o rest f h = ground arith

finish-inits_succeed :
    (name : String) (stopped : Bool) (o : Outcome)
    → inits_succeed (finish name stopped o).trace ≡ true
unfolding finish inits_succeed
finish-inits_succeed name stopped o = ground arith

-- The moments of the default manager, from a state of the manager and of the service on.
unfoldable pub hello_moments : State → HelloWorldApiService → List (Tick Listening) → List Moment
unfolding drive
hello_moments state s ticks = drive continuous_next hello_world state s ticks

hello_moments-calm :
    (state : State) (s : HelloWorldApiService) (ticks : List (Tick Listening))
    → Fitting state s
    → calm (hello_moments state s ticks) ≡ true
unfolding hello_moments calm
hello_moments-calm state s [] f = refl
hello_moments-calm state s (stops ∷ ticks) f = refl
hello_moments-calm state s (calls l ∷ ticks) f =
    let (fits, c, g) = serve-Fits state l s f in
    let done = serve hello_world (method_of state) l s in
    rw c (hello_moments-calm (continuous_next state done.1) done.0 ticks fits)

-- The server of every Run listens until it is shut down.
abbrev pub all_served : List (Tick Listening) → Bool
all_served [] = true
all_served (stops ∷ ticks) = all_served ticks
all_served (calls (served by_timer err) ∷ ticks) = all_served ticks
all_served (calls (not_served err) ∷ ticks) = false

-- How many goroutines the calls of Run leave waiting.
unfoldable pub left_waiting : State → HelloWorldApiService → List (Tick Listening) → ℕ
left_waiting state s [] = s.waiting
left_waiting state s (stops ∷ ticks) = s.waiting
left_waiting state s (calls l ∷ ticks) =
    let done = serve hello_world (method_of state) l s in
    left_waiting (continuous_next state done.1) done.0 ticks

-- A call that is served leaves none, where Run has a server.
serve-waiting :
    (state : State) (t : Bool) (err : Option String) (s : HelloWorldApiService)
    → Fitting state s
    → (serve hello_world (method_of state) (served t err) s).0.waiting ≡ s.waiting
unfolding serve method_of hello_world
serve-waiting init t err s f = rw (f, hello_init) refl
serve-waiting idle t err s f = unfold hello_idle in refl
serve-waiting run t err s f = elim (Option-cases s.server) [
  | inl n ↦ absurd (f n)
  | inr (server, e) ↦ rw (e, hello_run) (unfold run_server in refl)
]
serve-waiting stop t err s f = unfold hello_stop in refl
serve-waiting exit t err s f = refl
serve-waiting (other n) t err s f = refl

left_waiting-zero :
    (state : State) (s : HelloWorldApiService) (ticks : List (Tick Listening))
    → all_served ticks ≡ true
    → Fitting state s
    → s.waiting ≡ 0
    → left_waiting state s ticks ≡ 0
unfolding left_waiting
left_waiting-zero state s [] a f w = w
left_waiting-zero state s (stops ∷ ticks) a f w = w
left_waiting-zero state s (calls (not_served err) ∷ ticks) a f w = cc
left_waiting-zero state s (calls (served t err) ∷ ticks) a f w =
    let done = serve hello_world (method_of state) (served t err) s in
    left_waiting-zero (continuous_next state done.1) done.0 ticks a
      (serve-Fits state (served t err) s f).0 (serve-waiting state t err s f ∙ w)

module _ (m : RunContinuousManager) (name : String) (final : Outcome) where
  loop-inits_succeed :
      (state : State) (stopped : Bool) (s : HelloWorldApiService) (ticks : List (Tick Listening))
      → Fitting state s
      → inits_succeed
          (continuous_loop m name final state stopped (hello_moments state s ticks)).trace
        ≡ true
  unfolding continuous_loop hello_moments inits_succeed
  loop-inits_succeed exit stopped s ticks f = finish-inits_succeed name stopped final
  loop-inits_succeed state stopped s [] f = refl
  loop-inits_succeed state stopped s (stops ∷ ticks) f = finish-inits_succeed name stopped final
  loop-inits_succeed state stopped s (calls l ∷ ticks) f =
      let (fits, c, g) = serve-Fits state l s f in
      let done = serve hello_world (method_of state) l s in
      let next = continuous_next state done.1 in
      turn-inits_succeed name state done.1
        (after_events (reset (transition_delay m next) ∷ [])
          (continuous_loop m name final next (is_stop state) (hello_moments next done.0 ticks)))
        g (loop-inits_succeed next (is_stop state) done.0 ticks fits)

  -- Under the default manager, let the server of every Run listen until the goroutine of that Run
  -- shuts it down, by its timer or because the context is done, and whatever Shutdown returns. No call
  -- of Run leaves its goroutine behind; no method panics, so that Run always has a server; no call of
  -- Init finds one; and if the last Stop does not panic either, Manage returns once a wait is cancelled
  -- and goes on until then.
  pub hello_world_serves :
      (ticks : List (Tick Listening))
      → all_served ticks ≡ true
      → is_calm final ≡ true
      → let ms = hello_moments init new_hello_world_service ticks in
        let r = continuous_manage m name final ms in
        (left_waiting init new_hello_world_service ticks ≡ 0)
        × (calm ms ≡ true)
        × (inits_succeed r.trace ≡ true)
        × (r.ending ≡ (if has_cancelled ms then returned else waits))
  unfolding continuous_manage new_hello_world_service
  hello_world_serves ticks a f =
      let ms = hello_moments init new_hello_world_service ticks in
      let c = hello_moments-calm init new_hello_world_service ticks refl in
      (
        left_waiting-zero init new_hello_world_service ticks a refl refl,
        c,
        loop-inits_succeed init false new_hello_world_service ticks refl,
        continuous_until_cancelled m name final ms f c,
      )
