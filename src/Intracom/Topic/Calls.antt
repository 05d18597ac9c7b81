-- ===== src/Intracom/Topic/Calls.antt =====
-- intracom/topic.go with several callers at once: each call of Subscribe, Unsubscribe or Close is
-- several steps, between which others run.
use rxdaemon.Prelude.{
  ℕ, ◌≡◌, ◌≢◌, Bool, true, false, Option, none, some, if◌then◌else◌, update, List,
}
use rxdaemon.Intracom.Channel.{Chan, Moment, taken_by}
use rxdaemon.Intracom.Broadcast.{
  Broadcaster, Request, close_request, Response, start, handle_request, publish, published,
  is_stuck, is_crashed,
}

-- Where a caller stands. Subscribe and Unsubscribe: the flag was found unset, the request is sent, the
-- response is there. Close: the flag was set by it, the request is sent, the response is there, both
-- channels are closed. Any of them: the flag was found set, or the context was done first.
pub data Pc : Type 0 where
  idle refused timed_out : Pc
  checked : Request → Pc
  waiting : Pc
  answered : Response → Pc
  closing close_waiting close_answered close_done : Pc

-- What can panic: a send to the closed request channel, by Subscribe or Unsubscribe or by Close; a
-- second close of a channel; a publisher's send to the closed publish channel; the call of a
-- subscriber's nil policy.
pub data Crash : Type 0 where
  sent_to_closed close_sent_to_closed closed_twice published_to_closed nil_policy : Crash

-- The topic, its two channels, which are open or not, the one request that the request channel has
-- room for with its caller, whether the loop of the broadcaster runs, whether it waits for ever in a
-- Send to a subscriber, and where the callers stand.
pub record System {ℓ} (A : Type ℓ) : Type ℓ where
  pub bc : Broadcaster A
  pub closed : Bool
  pub requests_open : Bool
  pub publish_open : Bool
  pub queue : Option (ℕ × Request)
  pub running : Bool
  pub stuck : Bool
  pub pc : ℕ → Pc
  pub crash : Option Crash

-- A caller's context may be done while its request is not sent or not answered.
abbrev pub gives_up : Pc → Bool
gives_up (checked r) = true
gives_up waiting = true
gives_up _ = false

-- The response reaches a caller that still waits.
abbrev pub on_response : Response → Pc → Pc
on_response response waiting = answered response
on_response response close_waiting = close_answered
on_response response pc = pc

module _ {ℓ} {A : Type ℓ} where
  abbrev pub move_to : ℕ → Pc → System A → System A
  move_to i pc s = record s { pc = update s.pc i pc }

  abbrev pub crashes : Crash → System A → System A
  crashes c s = record s { crash = some c }

  unfoldable pub new_system : Bool → A → System A
  unfolding start
  new_system aware zero_value = record {
    bc = start aware zero_value;
    closed = false;
    requests_open = true;
    publish_open = true;
    queue = none;
    running = true;
    stuck = false;
    pc = λ i. idle;
    crash = none;
  }

  -- `if t.closed.Swap(true)`, and what follows.
  unfoldable pub swap_closed : ℕ → System A → System A
  swap_closed i s =
      if s.closed then move_to i refused s else record (move_to i closing s) { closed = true }

  -- The broadcaster takes the request of caller `i`.
  unfoldable pub serve_request : ℕ → Request → System A → System A
  unfolding handle_request
  serve_request i r s = record s {
    bc = (handle_request r s.bc).0;
    queue = none;
    pc = update s.pc i (on_response (handle_request r s.bc).1 (s.pc i));
  }

  -- `close(t.requestC)` and `close(t.publishC)`.
  unfoldable pub shut : ℕ → System A → System A
  shut i s = record (move_to i close_done s) { requests_open = false; publish_open = false }

  pub data Move (s t : System A) : Type ℓ where
    check_closed : (i : ℕ) → s.pc i ≡ idle → s.closed ≡ true → t ≡ move_to i refused s → Move s t
    check_open :
        (i : ℕ) (r : Request)
        → r ≢ close_request
        → s.pc i ≡ idle
        → s.closed ≡ false
        → t ≡ move_to i (checked r) s
        → Move s t
    send :
        (i : ℕ) (r : Request)
        → s.pc i ≡ checked r
        → s.requests_open ≡ true
        → s.queue ≡ none
        → t ≡ record (move_to i waiting s) { queue = some (i, r) }
        → Move s t
    send_panics :
        (i : ℕ) (r : Request)
        → s.pc i ≡ checked r
        → s.requests_open ≡ false
        → t ≡ crashes sent_to_closed s
        → Move s t
    give_up : (i : ℕ) → gives_up (s.pc i) ≡ true → t ≡ move_to i timed_out s → Move s t
    swap : (i : ℕ) → s.pc i ≡ idle → t ≡ swap_closed i s → Move s t
    close_send :
        (i : ℕ)
        → s.pc i ≡ closing
        → s.requests_open ≡ true
        → s.queue ≡ none
        → t ≡ record (move_to i close_waiting s) { queue = some (i, close_request) }
        → Move s t
    close_send_panics :
        (i : ℕ)
        → s.pc i ≡ closing
        → s.requests_open ≡ false
        → t ≡ crashes close_sent_to_closed s
        → Move s t
    serve :
        (i : ℕ) (r : Request)
        → s.running ≡ true
        → s.stuck ≡ false
        → s.queue ≡ some (i, r)
        → t ≡ serve_request i r s
        → Move s t
    ends_on_requests :
        s.requests_open ≡ false
        → s.stuck ≡ false
        → s.queue ≡ none
        → t ≡ record s { running = false }
        → Move s t
    ends_on_messages :
        s.publish_open ≡ false
        → s.stuck ≡ false
        → s.bc.receiving ≡ true
        → t ≡ record s { running = false }
        → Move s t
    shut_channels :
        (i : ℕ) → s.pc i ≡ close_answered → s.requests_open ≡ true → t ≡ shut i s → Move s t
    shut_panics :
        (i : ℕ)
        → s.pc i ≡ close_answered
        → s.requests_open ≡ false
        → t ≡ crashes closed_twice s
        → Move s t
    publishes :
        (env : ℕ → List Moment) (message : A) (b : Broadcaster A)
        → s.running ≡ true
        → s.stuck ≡ false
        → s.publish_open ≡ true
        → publish env message s.bc ≡ published b
        → t ≡ record s { bc = b }
        → Move s t
    -- A Send to a subscriber never returns.
    publish_sticks :
        (env : ℕ → List Moment) (message : A) (chans : ℕ → Chan A)
        → s.running ≡ true
        → s.stuck ≡ false
        → s.publish_open ≡ true
        → publish env message s.bc ≡ is_stuck chans
        → t ≡ record s { bc = record s.bc { chans = chans }; stuck = true }
        → Move s t
    publish_crashes :
        (env : ℕ → List Moment) (message : A)
        → s.running ≡ true
        → s.stuck ≡ false
        → s.publish_open ≡ true
        → publish env message s.bc ≡ is_crashed
        → t ≡ crashes nil_policy s
        → Move s t
    publish_panics : s.publish_open ≡ false → t ≡ crashes published_to_closed s → Move s t
    receives :
        (at : Moment) (c : ℕ)
        → t ≡ record s {
          bc = record s.bc { chans = update s.bc.chans c (taken_by at (s.bc.chans c)) };
        }
        → Move s t

-- A crash ends the program: nothing moves after it.
pub data Reach {ℓ} {A : Type ℓ} (s : System A) : System A → Type ℓ where
  here : Reach s s
  next : {t u : System A} → Reach s t → t.crash ≡ none → Move t u → Reach s u
