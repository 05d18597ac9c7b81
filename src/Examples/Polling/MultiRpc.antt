-- ===== src/Examples/Polling/MultiRpc.antt =====
-- APIPollingService of examples/multi_service_rpc/polling_service.go.
use rxdaemon.Prelude.{
  ℕ, suc, ◌+◌, String, ◌≡◌, refl, ap, Bool, List, [], ◌∷◌, map, Option, none, some, ltb,
  if◌then◌else◌, concat, Bool-cases, inl, inr,
}
use rxdaemon.Manager.{Outcome, ok, fails}
use rxdaemon.Log.{level_info, level_debug}
use rxdaemon.Examples.HelloWorld.{Entry}
use rxdaemon.Examples.Polling.{
  Answer, unreachable, not_read, not_json, object, Event, context_done, states_come, timer_fires,
  Polled, request, max_poll_count, poll_loop, poll_run,
}

pub record RpcPolled : Type 0 where
  pub requests : ℕ
  pub polls : ℕ
  pub logs : List Entry
  pub ending : Option Outcome

abbrev rpc_ends_with : List Entry → Outcome → RpcPolled
rpc_ends_with logs o = record { requests = 0; polls = 0; logs = logs; ending = some o }

abbrev received_entry : String → Entry
received_entry status = (level_info, concat ("received response from the API: " ∷ status ∷ []))

-- A request to which the API answers, if it does, with the given status code.
unfoldable rpc_request : String → Answer → RpcPolled → RpcPolled → RpcPolled
rpc_request status unreachable retry further = record retry { requests = suc retry.requests }
rpc_request status (not_read err) retry further =
    record (rpc_ends_with (received_entry status ∷ []) (fails err)) { requests = 1 }
rpc_request status (not_json err) retry further =
    record (rpc_ends_with (received_entry status ∷ []) (fails err)) { requests = 1 }
rpc_request status (object body) retry further = record further {
  requests = suc further.requests;
  polls = suc further.polls;
  logs =
      received_entry status ∷ (level_debug, concat ("response body: " ∷ body ∷ [])) ∷ further.logs;
}

-- The loop of Run. Each event comes with the status code of the answer, if the timer leads to one.
unfoldable rpc_poll_loop : ℕ → ℕ → List (String × Event) → RpcPolled
unfolding rpc_request
rpc_poll_loop max count [] = record { requests = 0; polls = 0; logs = []; ending = none }
rpc_poll_loop max count ((status, context_done) ∷ events) = rpc_ends_with [] ok
rpc_poll_loop max count ((status, states_come) ∷ events) = rpc_ends_with [] ok
rpc_poll_loop max count ((status, timer_fires answer) ∷ events) =
    let retry = rpc_poll_loop max count events in
    let further = rpc_poll_loop max (count + 1) events in
    if ltb max count
    then rpc_ends_with ((level_info, "reached maximum poll count, stopping") ∷ []) ok
    else rpc_request status answer retry further

unfoldable rpc_poll_run : List (String × Event) → RpcPolled
unfolding rpc_poll_loop
rpc_poll_run events =
    let r = rpc_poll_loop max_poll_count 0 events in
    record r {
      logs = (level_debug, "entered run state") ∷ (level_info, "starting to poll") ∷ r.logs;
    }

unfoldable rpc_poll_idle : List Event → List Entry × Option Outcome
rpc_poll_idle [] = ((level_debug, "entered idle state") ∷ [], none)
rpc_poll_idle (context_done ∷ events) = ((level_debug, "entered idle state") ∷ [], some ok)
rpc_poll_idle (states_come ∷ events) = (
  (level_debug, "entered idle state") ∷ (level_debug, "leaving the entered Idle state") ∷ [],
  some ok,
)
rpc_poll_idle (timer_fires answer ∷ events) = rpc_poll_idle events

-- Init and Stop return nil whether the context is done or not.
unfoldable rpc_poll_init : Bool → List Entry × Outcome
rpc_poll_init done = ((level_debug, "entered init state") ∷ [], ok)

unfoldable rpc_poll_stop : Bool → List Entry × Outcome
rpc_poll_stop done = ((level_debug, "entered stop state") ∷ [], ok)

abbrev event_of : String × Event → Event
event_of (status, event) = event

-- Apart from what they log, the two do the same.
abbrev Agrees : RpcPolled → Polled → Type 0
Agrees r p = (r.requests ≡ p.requests) × (r.polls ≡ p.polls) × (r.ending ≡ p.ending)

request-Agrees :
    (status : String) (answer : Answer) (retry further : RpcPolled) (retry' further' : Polled)
    → Agrees retry retry'
    → Agrees further further'
    → Agrees (rpc_request status answer retry further) (request answer retry' further')
unfolding rpc_request request
request-Agrees status unreachable retry further retry' further' r f = (ap suc r.0, r.1, r.2)
request-Agrees status (not_read err) retry further retry' further' r f = (refl, refl, refl)
request-Agrees status (not_json err) retry further retry' further' r f = (refl, refl, refl)
request-Agrees status (object body) retry further retry' further' r f =
    (ap suc f.0, ap suc f.1, f.2)

poll_loop-Agrees :
    (max count : ℕ) (events : List (String × Event))
    → Agrees (rpc_poll_loop max count events) (poll_loop max count (map event_of events))
unfolding rpc_poll_loop poll_loop
poll_loop-Agrees max count [] = (refl, refl, refl)
poll_loop-Agrees max count ((status, context_done) ∷ events) = (refl, refl, refl)
poll_loop-Agrees max count ((status, states_come) ∷ events) = (refl, refl, refl)
poll_loop-Agrees max count ((status, timer_fires answer) ∷ events) =
    elim (Bool-cases (ltb max count)) [
      | inl y ↦ rw (y, rpc_poll_loop, poll_loop) (refl, refl, refl)
      | inr n ↦
          rw (n, rpc_poll_loop, poll_loop)
            (request-Agrees status answer (rpc_poll_loop max count events)
              (rpc_poll_loop max (count + 1) events) (poll_loop max count (map event_of events))
              (poll_loop max (count + 1) (map event_of events)) (poll_loop-Agrees max count events)
              (poll_loop-Agrees max (count + 1) events))
    ]

-- A call of Run makes as many requests and polls as one of the service of examples/multi_service would,
-- and ends as that does.
rpc_poll_run-Agrees :
    (events : List (String × Event)) → Agrees (rpc_poll_run events) (poll_run (map event_of events))
unfolding rpc_poll_run poll_run
rpc_poll_run-Agrees events = poll_loop-Agrees max_poll_count 0 events
