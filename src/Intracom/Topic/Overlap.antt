-- ===== src/Intracom/Topic/Overlap.antt =====
-- What a call of Close meets, and what it does to a call that overlaps with it.
use rxdaemon.Prelude.{
  ℕ, ◌≡◌, ◌≢◌, refl, sym, subst, Bool, true, false, none, some, [], arith, ◌∙◌, Option-cases,
  if-false, inl, inr,
}
use rxdaemon.Intracom.Broadcast.{Request, close_request, handle_request}
use rxdaemon.Intracom.Topic.Closing.{close_once}
use rxdaemon.Intracom.Topic.Calls.{
  Pc, idle, refused, checked, closing, close_waiting, close_done, sent_to_closed,
  published_to_closed, System, move_to, crashes, new_system, swap_closed, serve_request, shut, Move,
  check_closed, check_open, send, send_panics, give_up, swap, close_send, close_send_panics, serve,
  ends_on_requests, ends_on_messages, shut_channels, shut_panics, publishes, publish_sticks,
  publish_crashes, publish_panics, receives, Reach, here, next,
}

-- A Close that has set the flag and waits to send its request, or for the answer.
abbrev pub is_unanswered : Pc → Bool
is_unanswered closing = true
is_unanswered close_waiting = true
is_unanswered _ = false

module _ {ℓ} {A : Type ℓ} where
  unfoldable closed_by : ℕ → System A → System A
  unfolding serve_request shut
  closed_by i s = shut i (
      serve_request i close_request
        (record (move_to i close_waiting s) { queue = some (i, close_request) }))

  -- A caller whose Close has set the flag finishes, when the channels are open, the broadcaster runs
  -- and no request is on its way.
  closing-closed_by :
      (i : ℕ) (s t : System A)
      → Reach s t
      → t.crash ≡ none
      → t.pc i ≡ closing
      → t.requests_open ≡ true
      → t.running ≡ true
      → t.stuck ≡ false
      → t.queue ≡ none
      → Reach s (closed_by i t)
  unfolding closed_by handle_request
  closing-closed_by i s t r c e o w k q =
      let a = next r c (close_send i e o q refl) in
      let b = next a c (serve i close_request w k refl refl) in
      next b c (shut_channels i (ground arith) o refl)

  closed_by_lem :
      (i : ℕ) (t : System A)
      → ((closed_by i t).pc i ≡ close_done)
        × ((closed_by i t).requests_open ≡ false)
        × ((closed_by i t).publish_open ≡ false)
        × ((closed_by i t).bc.subscribers ≡ [])
        × ((closed_by i t).crash ≡ t.crash)
  unfolding closed_by handle_request
  closed_by_lem i t = (ground arith, refl, refl, refl, refl)

  closed_by-other : (i j : ℕ) (t : System A) → j ≢ i → (closed_by i t).pc j ≡ t.pc j
  unfolding closed_by
  closed_by-other i j t n = ground arith

  serve_request-closing :
      (i j : ℕ) (r : Request) (t : System A)
      → t.pc i ≡ closing
      → (serve_request j r t).pc i ≡ closing
  unfolding serve_request
  serve_request-closing i j r t e = ground arith

  -- `s` can lead to `u`, where the Close of `i` is done, both channels are closed, no subscriber is left
  -- and nothing has panicked.
  abbrev pub Finished : ℕ → System A → System A → Type ℓ
  Finished i s u =
      Reach s u
      × (u.pc i ≡ close_done)
      × (u.requests_open ≡ false)
      × (u.publish_open ≡ false)
      × (u.bc.subscribers ≡ [])
      × (u.crash ≡ none)

  closing-Finished :
      (i : ℕ) (s t : System A)
      → Reach s t
      → t.crash ≡ none
      → t.pc i ≡ closing
      → t.requests_open ≡ true
      → t.running ≡ true
      → t.stuck ≡ false
      → t.queue ≡ none
      → Finished i s (closed_by i t)
  closing-Finished i s t r c e o w k q =
      let (a, b, d, f, g) = closed_by_lem i t in
      (closing-closed_by i s t r c e o w k q, a, b, d, f, g ∙ c)

  -- The broadcaster waits for ever, and the Close of `i` has no answer.
  abbrev Waits : ℕ → System A → Type 0
  Waits i s = (s.stuck ≡ true) × (is_unanswered (s.pc i) ≡ true)

  swap-Waits : (i j : ℕ) (s : System A) → Waits i s → s.pc j ≡ idle → Waits i (swap_closed j s)
  unfolding swap_closed
  swap-Waits i j s w e = (ground (arith, w.0), ground (arith, w.1))

  Move-Waits : {s t : System A} (i : ℕ) → Move s t → Waits i s → Waits i t
  unfolding shut
  Move-Waits {s = s} i (check_closed j e c d) w = subst (Waits i) (sym d) (w.0, ground (arith, w.1))
  Move-Waits {s = s} i (check_open j r n e c d) w =
      subst (Waits i) (sym d) (w.0, ground (arith, w.1))
  Move-Waits {s = s} i (send j r e o q d) w = subst (Waits i) (sym d) (w.0, ground (arith, w.1))
  Move-Waits {s = s} i (send_panics j r e o d) w = subst (Waits i) (sym d) w
  Move-Waits {s = s} i (give_up j g d) w = subst (Waits i) (sym d) (w.0, ground (arith, w.1))
  Move-Waits {s = s} i (swap j e d) w = subst (Waits i) (sym d) (swap-Waits i j s w e)
  Move-Waits {s = s} i (close_send j e o q d) w = subst (Waits i) (sym d) (w.0, ground (arith, w.1))
  Move-Waits {s = s} i (close_send_panics j e o d) w = subst (Waits i) (sym d) w
  Move-Waits {s = s} i (serve j r a k q d) w = cc (k, w.0)
  Move-Waits {s = s} i (ends_on_requests o k q d) w = cc (k, w.0)
  Move-Waits {s = s} i (ends_on_messages o k q d) w = cc (k, w.0)
  Move-Waits {s = s} i (shut_channels j e o d) w =
      subst (Waits i) (sym d) (w.0, ground (arith, w.1))
  Move-Waits {s = s} i (shut_panics j e o d) w = subst (Waits i) (sym d) w
  Move-Waits {s = s} i (publishes env message b a k o p d) w = cc (k, w.0)
  Move-Waits {s = s} i (publish_sticks env message chans a k o p d) w = cc (k, w.0)
  Move-Waits {s = s} i (publish_crashes env message a k o p d) w = cc (k, w.0)
  Move-Waits {s = s} i (publish_panics o d) w = subst (Waits i) (sym d) w
  Move-Waits {s = s} i (receives at c d) w = subst (Waits i) (sym d) w

  Reach-Waits : {s t : System A} (i : ℕ) → Reach s t → Waits i s → Waits i t
  Reach-Waits i here w = w
  Reach-Waits i (next r c m) w = Move-Waits i m (Reach-Waits i r w)

  -- Let a Close have set the flag and not yet sent its request, in a state that calls, messages and
  -- receives can lead to without a panic. If the broadcaster does not wait for ever in a Send to a
  -- subscriber, that Close can finish: some continuation ends with both channels closed, no subscriber
  -- left, no panic, and the call done. If the broadcaster does, the Close never gets its answer, whatever
  -- follows.
  pub close_finishes :
      (aware : Bool) (zero_value : A) (i : ℕ) (t : System A)
      → Reach (new_system aware zero_value) t
      → t.crash ≡ none
      → t.pc i ≡ closing
      → (t.stuck ≡ false → (u : System A) × Finished i t u)
        × (t.stuck ≡ true → (u : System A) → Reach t u → is_unanswered (u.pc i) ≡ true)
  unfolding serve_request
  close_finishes aware zero_value i t r c e = (
    λ k.
        let (o, _, w) = (close_once aware zero_value t r).1 i (rw e refl) in
        elim (Option-cases t.queue) [
          | inl q ↦ (closed_by i t, closing-Finished i t t here c e o w k q)
          | inr ((j, p), q) ↦ (
            closed_by i (serve_request j p t),
            closing-Finished i t (serve_request j p t) (next here c (serve j p w k q refl)) c
                (serve_request-closing i j p t e) o w k refl,
          )
        ],
    λ k u a. (Reach-Waits i a (k, rw e refl)).1,
  )

  -- A Close from its first step to its last, in a topic where nothing else is going on.
  closed_by_start :
      (i : ℕ) (s t : System A)
      → Reach s t
      → t.crash ≡ none
      → t.pc i ≡ idle
      → t.closed ≡ false
      → t.requests_open ≡ true
      → t.running ≡ true
      → t.stuck ≡ false
      → t.queue ≡ none
      → Finished i s (closed_by i (swap_closed i t))
  unfolding swap_closed
  closed_by_start i s t r c e f o w k q =
      let d =
        if-false t.closed (move_to i refused t) (record (move_to i closing t) { closed = true })
          f in
      subst (λ u. Finished i s (closed_by i u)) (sym d)
        (closing-Finished i s (record (move_to i closing t) { closed = true })
          (next r c (swap i e (sym d))) c (ground arith) o w k q)

  after_check : Request → Bool → A → System A
  after_check r aware zero_value = move_to 0 (checked r) (new_system aware zero_value)

  after_check-closed_by :
      (r : Request) (aware : Bool) (zero_value : A)
      → r ≢ close_request
      → Finished 1
          (new_system aware zero_value)
          (closed_by 1 (swap_closed 1 (after_check r aware zero_value)))
  unfolding after_check new_system
  after_check-closed_by r aware zero_value n =
      closed_by_start 1 (new_system aware zero_value) (after_check r aware zero_value)
        (next here refl (check_open 0 r n refl refl refl)) refl refl refl refl refl refl refl

  after_check-other :
      (r : Request) (aware : Bool) (zero_value : A)
      → (closed_by 1 (swap_closed 1 (after_check r aware zero_value))).pc 0 ≡ checked r
  unfolding after_check swap_closed new_system
  after_check-other r aware zero_value =
      closed_by-other 1 0 (swap_closed 1 (after_check r aware zero_value)) (λ h. omega arith)

  -- Whatever Subscribe or Unsubscribe asks for, its send to the request channel can panic: it finds the
  -- flag unset, another caller's Close runs to its end, and then it sends to the closed channel.
  pub overlap_panics :
      (r : Request) (aware : Bool) (zero_value : A)
      → r ≢ close_request
      → (t : System A) × Reach (new_system aware zero_value) t
        × (t.crash ≡ some sent_to_closed)
        × (t.pc 0 ≡ checked r)
        × (t.pc 1 ≡ close_done)
  overlap_panics r aware zero_value n =
      let s = closed_by 1 (swap_closed 1 (after_check r aware zero_value)) in
      let (reached, finished, shut_requests, _, _, calm) =
        after_check-closed_by r aware zero_value n in
      let mine = after_check-other r aware zero_value in
      (
        crashes sent_to_closed s,
        next reached calm (send_panics 0 r mine shut_requests refl),
        refl,
        mine,
        finished,
      )

  -- A publisher that holds the publish channel can panic: it sends once a Close has run to its end.
  publish_panics_after_close :
      (aware : Bool) (zero_value : A)
      → (t : System A) × Reach (new_system aware zero_value) t
        × (t.crash ≡ some published_to_closed)
  unfolding new_system
  publish_panics_after_close aware zero_value =
      let s = new_system aware zero_value in
      let (reached, _, _, shut_messages, _, calm) =
        closed_by_start 1 s s here refl refl refl refl refl refl refl in
      (
        crashes published_to_closed (closed_by 1 (swap_closed 1 s)),
        next reached calm (publish_panics shut_messages refl),
        refl,
      )
