-- ===== src/Examples/Polling.antt =====
-- APIPollingService of examples/multi_service/polling_service.go. What the API answers is given.
pub mod Counting
pub mod Leaving
pub mod MultiRpc
use rxdaemon.Prelude.{
  ℕ, suc, ◌+◌, ◌≤◌, ◌<◌, String, ◌≡◌, refl, ◌∙◌, Bool, true, false, List, [], ◌∷◌, ◌++◌, map,
  Option, none, some, arith, ltb, ltb→lt, ltb→ge, if◌then◌else◌, if-true, if-false, length, concat,
  Bool-cases, inl, inr,
}
use rxdaemon.Manager.{Outcome, ok, fails}

-- What a request leads to: no answer, an answer whose body cannot be read, one that is no JSON object, or
-- the object, as it is printed.
pub data Answer : Type 0 where
  unreachable : Answer
  not_read not_json : String → Answer
  object : String → Answer

-- What a `select` of Idle or Run receives.
pub data Event : Type 0 where
  context_done : Event
  states_come : Event
  timer_fires : Answer → Event

-- The requests that a call of Run makes, failed ones included; `polls`, how many of them are answered with
-- an object, which is what pollCount counts; what Run logs; and how it ends, if it does.
pub record Polled : Type 0 where
  pub requests : ℕ
  pub polls : ℕ
  pub logs : List String
  pub ending : Option Outcome

abbrev max_poll_count : ℕ
max_poll_count = 5

abbrev ends_with : List String → Outcome → Polled
ends_with logs o = record { requests = 0; polls = 0; logs = logs; ending = some o }

abbrev one_request : Polled → Polled
one_request r = record r { requests = suc r.requests }

abbrev one_poll : String → Polled → Polled
one_poll body r = record r {
  requests = suc r.requests;
  polls = suc r.polls;
  logs = concat ("received response from the API: " ∷ body ∷ []) ∷ r.logs;
}

-- A request, where `retry` goes on with the same count and `further` with the next one.
unfoldable pub request : Answer → Polled → Polled → Polled
request unreachable retry further = one_request retry
request (not_read err) retry further = one_request (ends_with [] (fails err))
request (not_json err) retry further = one_request (ends_with [] (fails err))
request (object body) retry further = one_poll body further

-- The loop of Run.
unfoldable poll_loop : ℕ → ℕ → List Event → Polled
unfolding request
poll_loop max count [] = record { requests = 0; polls = 0; logs = []; ending = none }
poll_loop max count (context_done ∷ events) = ends_with [] ok
poll_loop max count (states_come ∷ events) = ends_with [] ok
poll_loop max count (timer_fires answer ∷ events) =
    let retry = poll_loop max count events in
    let further = poll_loop max (count + 1) events in
    if ltb max count
    then ends_with ("reached maximum poll count, stopping" ∷ []) ok
    else request answer retry further

unfoldable pub poll_run : List Event → Polled
unfolding poll_loop
poll_run events =
    let r = poll_loop max_poll_count 0 events in
    record r { logs = "entered run state" ∷ "starting to poll" ∷ r.logs }

-- The loop of Idle ends with the first thing that its `select` receives; it has no timer.
unfoldable poll_idle : List Event → List String × Option Outcome
poll_idle [] = ("entered idle state" ∷ [], none)
poll_idle (context_done ∷ events) = ("entered idle state" ∷ [], some ok)
poll_idle (states_come ∷ events) =
    ("entered idle state" ∷ "Hello World API has entered Run state" ∷ [], some ok)
poll_idle (timer_fires answer ∷ events) = poll_idle events

abbrev poll_init : List String × Outcome
poll_init = ("initializing" ∷ [], ok)

abbrev poll_stop : List String × Outcome
poll_stop = ("stopping" ∷ [], ok)
