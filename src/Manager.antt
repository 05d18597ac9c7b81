-- ===== src/Manager.antt =====
-- service_manager.go and service_manager_option.go: the managers that move a service through its
-- lifecycle. Each wait of a manager is resolved by a `Moment`, so a list of moments stands for all
-- that the context, the timer and the service's runner do. Durations are in nanoseconds and not
-- negative.
pub mod Trace
pub mod Turn
pub mod Continuous
pub mod Updates
pub mod Success
pub mod Recovery
use rxdaemon.Prelude.{
  ℕ, ◌*◌, ◌^◌, String, Bool, true, false, List, [], ◌∷◌, ◌++◌, Option, none, some, or_else,
  if◌then◌else◌, ◌==◌, concat,
}
use rxdaemon.States.{State, exit, init, idle, run, stop, other, StateUpdate}

-- What a method of the runner does: it returns nil or an error, or it panics.
pub data Outcome : Type 0 where
  ok : Outcome
  fails panics : String → Outcome

-- What a `select` of a manager sees: the context is done, or the timer has fired, and then what the
-- method does that the manager calls next.
pub data Moment : Type 0 where
  cancelled : Moment
  elapsed : Outcome → Moment

pub data Method : Type 0 where
  init_method idle_method run_method stop_method : Method

pub data Event : Type 0 where
  updated : StateUpdate → Event
  called : Method → Outcome → Event
  logged : String → Event
  reset : ℕ → Event

-- Manage returns, panics, or waits for a further moment.
pub data Ending : Type 0 where
  returned : Ending
  panicked : String → Ending
  waits : Ending

pub record Managed : Type 0 where
  pub trace : List Event
  pub ending : Ending

abbrev pub after_events : List Event → Managed → Managed
after_events es r = record r { trace = es ++ r.trace }

abbrev pub seconds : ℕ → ℕ
seconds n = n * 10 ^ 9

abbrev milliseconds : ℕ → ℕ
milliseconds n = n * 10 ^ 6

pub record RunContinuousManager : Type 0 where
  pub default_delay : ℕ
  pub startup_delay : ℕ
  pub state_timeouts : State → Option ℕ

abbrev ManagerOption : Type 0
ManagerOption = RunContinuousManager → RunContinuousManager

unfoldable with_init_delay : ℕ → ManagerOption
with_init_delay delay m = record m { startup_delay = delay }

-- Each given timeout replaces the one for its state.
unfoldable with_transition_timeouts : (State → Option ℕ) → ManagerOption
with_transition_timeouts t m = record m { state_timeouts = λ s. or_else (t s) (m.state_timeouts s) }

unfoldable pub apply_options {ℓ} : {A : Type ℓ} → List (A → A) → A → A
apply_options [] a = a
apply_options (opt ∷ opts) a = apply_options opts (opt a)

unfoldable pub new_default_manager : List ManagerOption → RunContinuousManager
unfolding apply_options
new_default_manager opts = apply_options opts (record {
  default_delay = milliseconds 100;
  startup_delay = milliseconds 100;
  state_timeouts = λ s. none;
})

-- A call of a method, and the log of its error.
unfoldable call_events : Method → Outcome → List Event
call_events method ok = called method ok ∷ []
call_events method (fails e) = called method (fails e) ∷ logged e ∷ []
call_events method (panics e) = called method (panics e) ∷ []

module _ (name : String) where
  abbrev pub update : State → Event
  update state = updated (record { name = name; state = state })

  -- What follows the loop of either manager: Stop, unless it ran last, and the final update.
  unfoldable pub finish : Bool → Outcome → Managed
  unfolding call_events
  finish true o = record { trace = update exit ∷ []; ending = returned }
  finish false ok = record {
    trace = call_events stop_method ok ++ update exit ∷ [];
    ending = returned;
  }
  finish false (fails e) = record {
    trace = call_events stop_method (fails e) ++ update exit ∷ [];
    ending = returned;
  }
  finish false (panics e) = record {
    trace = call_events stop_method (panics e);
    ending = panicked e;
  }

-- The method that the `switch state` calls, if the state has one.
unfoldable pub method_of : State → Option Method
method_of init = some init_method
method_of idle = some idle_method
method_of run = some run_method
method_of stop = some stop_method
method_of exit = none
method_of (other n) = none

abbrev pub is_stop : State → Bool
is_stop stop = true
is_stop _ = false

-- The state that RunContinuousManager moves to; a panic does not get here.
unfoldable pub continuous_next : State → Outcome → State
continuous_next init ok = idle
continuous_next init _ = stop
continuous_next idle ok = run
continuous_next idle _ = stop
continuous_next run _ = stop
continuous_next stop _ = init
continuous_next exit _ = exit
continuous_next (other n) _ = other n

unfoldable pub transition_delay : RunContinuousManager → State → ℕ
transition_delay m state = elim (m.state_timeouts state) [ none ↦ m.default_delay | some t ↦ t ]

abbrev panic_of : Option Method → Outcome → Option String
panic_of (some method) (panics e) = some e
panic_of _ _ = none

abbrev turn_events : Option Method → Outcome → List Event
turn_events none o = []
turn_events (some method) o = call_events method o

-- One turn of a loop after the timer: the method of the state is called, and if it does not panic
-- the loop goes on with `rest`.
unfoldable pub turn : String → State → Outcome → Managed → Managed
unfolding method_of call_events
turn name state o rest =
    after_events (update name state ∷ turn_events (method_of state) o)
      (elim (panic_of (method_of state) o) [
        | some e ↦ record { trace = []; ending = panicked e }
        | none ↦ rest
      ])

module _ (m : RunContinuousManager) (name : String) (final : Outcome) where
  -- The `for state != StateExit` loop of RunContinuousManager.Manage and what follows it. `final`
  -- is what the last call of Stop does, where there is one.
  unfoldable pub continuous_loop : State → Bool → List Moment → Managed
  unfolding finish turn continuous_next transition_delay
  continuous_loop exit stopped ms = finish name stopped final
  continuous_loop state stopped [] = record { trace = update name state ∷ []; ending = waits }
  continuous_loop state stopped (cancelled ∷ ms) =
      after_events (update name state ∷ []) (finish name stopped final)
  continuous_loop state stopped (elapsed o ∷ ms) =
      let next = continuous_next state o in
      let rest = continuous_loop next (is_stop state) ms in
      turn name state o (after_events (reset (transition_delay m next) ∷ []) rest)

  unfoldable pub continuous_manage : List Moment → Managed
  unfolding continuous_loop
  continuous_manage ms = continuous_loop init false ms

pub record RunUntilSuccessManager : Type 0 where
  pub startup_delay : ℕ
  pub default_delay : ℕ

unfoldable pub new_run_until_success_manager : ℕ → ℕ → RunUntilSuccessManager
new_run_until_success_manager default_delay startup_delay = record {
  startup_delay = startup_delay;
  default_delay = default_delay;
}

-- The state that RunUntilSuccessManager moves to in its loop.
unfoldable pub success_next : State → Outcome → State
success_next init ok = idle
success_next init _ = stop
success_next idle ok = run
success_next idle _ = stop
success_next run ok = exit
success_next run _ = stop
success_next stop _ = init
success_next exit _ = exit
success_next (other n) _ = other n

-- The deferred `recover`: a panic is logged, and Manage returns.
unfoldable pub recovered : Managed → Managed
recovered r = elim r.ending [
  | panicked e ↦ record {
    trace = r.trace ++ logged (concat ("recovered from a panic: " ∷ e ∷ [])) ∷ [];
    ending = returned;
  }
  | returned ↦ r
  | waits ↦ r
]

module _ (name : String) (final : Outcome) where
  -- The loop of RunUntilSuccessManager.Manage and what follows it.
  unfoldable pub success_loop : State → Bool → List Moment → Managed
  unfolding finish turn success_next
  success_loop exit stopped ms = finish name stopped final
  success_loop state stopped [] = record { trace = update name state ∷ []; ending = waits }
  success_loop state stopped (cancelled ∷ ms) =
      after_events (update name state ∷ []) (finish name stopped final)
  success_loop state stopped (elapsed o ∷ ms) =
      turn name state o (success_loop (success_next state o) (is_stop state) ms)

-- `time.NewTicker` and `Ticker.Reset` panic on a duration that is not positive.
abbrev ticker_panic : String → Managed
ticker_panic e = record { trace = []; ending = panicked e }

module _ (m : RunUntilSuccessManager) (name : String) (final : Outcome) where
  -- The first `select`: whatever Init returns, the loop begins in the idle state.
  unfoldable pub success_start : List Moment → Managed
  unfolding success_loop call_events
  success_start [] = record { trace = []; ending = waits }
  success_start (cancelled ∷ ms) = success_loop name final exit false ms
  success_start (elapsed o ∷ ms) =
      after_events (call_events init_method o) (elim (panic_of (some init_method) o) [
        | some e ↦ record { trace = []; ending = panicked e }
        | none ↦
            if m.default_delay == 0
            then ticker_panic "non-positive interval for Ticker.Reset"
            else after_events (reset m.default_delay ∷ []) (success_loop name final idle false ms)
      ])

  unfoldable pub success_manage : List Moment → Managed
  unfolding success_start recovered
  success_manage ms = recovered (
      if m.startup_delay == 0
      then ticker_panic "non-positive interval for NewTicker"
      else success_start ms)
