-- ===== src/Examples/Polling/Counting.antt =====
-- How often a call of Run of APIPollingService polls.
use rxdaemon.Prelude.{
  ℕ, zero, suc, none, ◌+◌, ◌-◌, ◌≤◌, ◌<◌, String, ◌≡◌, refl, ◌∙◌, ap, true, false, List, [], ◌∷◌,
  map, some, arith, ltb, ltb→lt, ltb→ge, length, Bool-cases, inl, inr,
}
use rxdaemon.Manager.{ok}
use rxdaemon.Examples.Polling.{
  Answer, unreachable, not_read, not_json, object, Event, context_done, states_come, timer_fires,
  Polled, request, max_poll_count, poll_loop, poll_run,
}

request-polls :
    (answer : Answer) (retry further : Polled) (n : ℕ)
    → retry.polls ≤ suc n
    → further.polls ≤ n
    → (request answer retry further).polls ≤ suc n
unfolding request
request-polls unreachable retry further n r f = r
request-polls (not_read err) retry further n r f = omega arith
request-polls (not_json err) retry further n r f = omega arith
request-polls (object body) retry further n r f = omega arith

module _ (max : ℕ) where
  -- After the timer, with the maximum passed or not.
  poll_loop-stops :
      (count : ℕ) (answer : Answer) (events : List Event)
      → ltb max count ≡ true
      → ((poll_loop max count (timer_fires answer ∷ events)).polls ≡ 0)
        × ((poll_loop max count (timer_fires answer ∷ events)).ending ≡ some ok)
  unfolding poll_loop
  poll_loop-stops count answer events h = rw h (refl, refl)

  poll_loop-goes :
      (count : ℕ) (answer : Answer) (events : List Event)
      → ltb max count ≡ false
      → poll_loop max count (timer_fires answer ∷ events)
        ≡ request answer (poll_loop max count events) (poll_loop max (count + 1) events)
  unfolding poll_loop
  poll_loop-goes count answer events h = rw h refl

  poll_loop-polls :
      (count : ℕ) (events : List Event) → (poll_loop max count events).polls ≤ max + 1 - count
  unfolding poll_loop
  poll_loop-polls count [] = omega arith
  poll_loop-polls count (context_done ∷ events) = omega arith
  poll_loop-polls count (states_come ∷ events) = omega arith
  poll_loop-polls count (timer_fires answer ∷ events) = elim (Bool-cases (ltb max count)) [
    | inl y ↦ omega (arith, (poll_loop-stops count answer events y).0)
    | inr n ↦ omega (
      arith,
      ltb→ge max count n,
      ap (λ (r : Polled). r.polls) (poll_loop-goes count answer events n),
      request-polls answer (poll_loop max count events) (poll_loop max (count + 1) events)
          (max - count) (omega (arith, ltb→ge max count n, poll_loop-polls count events))
          (omega (arith, ltb→ge max count n, poll_loop-polls (count + 1) events)),
    )
  ]

  pub answers : List String → List Event
  answers bodies = map (λ body. timer_fires (object body)) bodies

  poll_loop-exact :
      (count : ℕ) (bodies : List String)
      → max + 1 - count < length bodies
      → ((poll_loop max count (answers bodies)).polls ≡ max + 1 - count)
        × ((poll_loop max count (answers bodies)).ending ≡ some ok)
  unfolding answers request
  poll_loop-exact count [] l = absurd (omega arith)
  poll_loop-exact count (body ∷ bodies) l = elim (Bool-cases (ltb max count)) [
    | inl y ↦
        let (polls, ending) = poll_loop-stops count (object body) (answers bodies) y in
        (omega (arith, polls, ltb→lt max count y), ending)
    | inr n ↦
        let goes = poll_loop-goes count (object body) (answers bodies) n in
        let (polls, ending) =
          poll_loop-exact (count + 1) bodies (omega (arith, ltb→ge max count n)) in
        (
          omega (arith, polls, ltb→ge max count n, ap (λ (r : Polled). r.polls) goes),
          ap (λ (r : Polled). r.ending) goes ∙ ending,
        )
  ]

  -- Each of these requests is answered.
  poll_loop-answers :
      (count : ℕ) (bodies : List String)
      → (poll_loop max count (answers bodies)).requests
        ≡ (poll_loop max count (answers bodies)).polls
  unfolding answers request poll_loop
  poll_loop-answers count [] = refl
  poll_loop-answers count (body ∷ bodies) = elim (Bool-cases (ltb max count)) [
    | inl y ↦ rw y refl
    | inr n ↦ rw n (ap suc (poll_loop-answers (count + 1) bodies))
  ]

-- The timer fires, and the API cannot be reached, over and over.
unfoldable pub failures : ℕ → List Event
failures zero = []
failures (suc n) = timer_fires unreachable ∷ failures n

poll_loop-failures : (n : ℕ) → (poll_loop 5 0 (failures n)).requests ≡ n
unfolding failures poll_loop request
poll_loop-failures zero = refl
poll_loop-failures (suc n) = ap suc (poll_loop-failures n)

poll_loop-unended : (n : ℕ) → (poll_loop 5 0 (failures n)).ending ≡ none
unfolding failures poll_loop request
poll_loop-unended zero = refl
poll_loop-unended (suc n) = poll_loop-unended n

-- Whatever happens, at most 6 of the requests of a call of Run are answered with an object, one more
-- than maxPollCount; where each request is answered with an object and nothing else happens, 6 requests
-- are made and Run then returns nil. Requests that fail are not counted: while the API cannot be
-- reached, Run makes a request each time that its timer fires, without a limit, and does not end.
pub poll_run_at_most :
    (events : List Event) (bodies : List String) (n : ℕ)
    → ((poll_run events).polls ≤ suc max_poll_count)
      × (suc max_poll_count < length bodies
          → ((poll_run (answers max_poll_count bodies)).polls ≡ suc max_poll_count)
            × ((poll_run (answers max_poll_count bodies)).requests ≡ suc max_poll_count)
            × ((poll_run (answers max_poll_count bodies)).ending ≡ some ok))
      × ((poll_run (failures n)).requests ≡ n)
      × ((poll_run (failures n)).ending ≡ none)
unfolding poll_run
poll_run_at_most events bodies n = (
  omega (arith, poll_loop-polls 5 0 events),
  λ l.
      let (polls, ending) = poll_loop-exact 5 0 bodies (omega arith) in
      (omega (arith, polls), omega (arith, polls, poll_loop-answers 5 0 bodies), ending),
  poll_loop-failures n,
  poll_loop-unended n,
)
