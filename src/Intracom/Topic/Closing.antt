-- ===== src/Intracom/Topic/Closing.antt =====
-- What holds of a topic whatever its callers do, and what goes wrong when a call overlaps with Close.
use rxdaemon.Prelude.{
  ℕ, ◌≡◌, ◌≢◌, refl, sym, subst, Bool, true, false, Option, some, arith, update, Bool-cases, inl,
  inr, if-true, if-false,
}
use mathlib.Core.Option.{some-injective}
use rxdaemon.Intracom.Channel.{Chan, taken_by}
use rxdaemon.Intracom.Broadcast.{Broadcaster, Request, close_request, Response, handle_request}
use rxdaemon.Intracom.Topic.Calls.{
  Pc, idle, refused, timed_out, checked, waiting, closing, close_waiting, close_answered,
  close_done, Crash, sent_to_closed, close_sent_to_closed, closed_twice, published_to_closed,
  nil_policy, System, gives_up, on_response, move_to, crashes, new_system, swap_closed,
  serve_request, shut, Move, check_closed, check_open, send, send_panics, give_up, swap, close_send,
  close_send_panics, serve, ends_on_requests, ends_on_messages, shut_channels, shut_panics,
  publishes, publish_sticks, publish_crashes, publish_panics, receives, Reach, here, next,
}

-- The caller is one whose Close has set the flag.
abbrev pub is_closer : Pc → Bool
is_closer closing = true
is_closer close_waiting = true
is_closer close_answered = true
is_closer close_done = true
is_closer _ = false

-- Its Close has not closed the channels yet.
abbrev pub is_closing : Pc → Bool
is_closing closing = true
is_closing close_waiting = true
is_closing close_answered = true
is_closing _ = false

-- At most one caller closes the topic, none before the flag is set, and the channels are open while
-- one is at it. Nothing that Close does has panicked.
pub record Inv {ℓ} {A : Type ℓ} (s : System A) : Type ℓ where
  quiet : (i : ℕ) → s.closed ≡ false → is_closer (s.pc i) ≡ false
  single : (i j : ℕ) → is_closer (s.pc i) ≡ true → is_closer (s.pc j) ≡ true → i ≡ j
  unset : s.closed ≡ false → s.requests_open ≡ true
  alive : s.requests_open ≡ true → (s.publish_open ≡ true) × (s.running ≡ true)
  unshut : (i : ℕ) → is_closing (s.pc i) ≡ true → s.requests_open ≡ true
  safe : (s.crash ≢ some close_sent_to_closed) × (s.crash ≢ some closed_twice)

on_response-is_closer : (r : Response) (p : Pc) → is_closer (on_response r p) ≡ is_closer p
on_response-is_closer r p = ground arith

on_response-is_closing : (r : Response) (p : Pc) → is_closing (on_response r p) ≡ is_closing p
on_response-is_closing r p = ground arith

gives_up-not-is_closer : (p : Pc) → gives_up p ≡ true → is_closer p ≡ false
gives_up-not-is_closer p h = ground arith

is_closing→is_closer : (p : Pc) → is_closing p ≡ true → is_closer p ≡ true
is_closing→is_closer p h = ground arith

module _ {ℓ} {A : Type ℓ} where
  -- A caller that is no closer, before and after.
  move-Inv :
      (s : System A) (i : ℕ) (p : Pc)
      → Inv s
      → is_closer (s.pc i) ≡ false
      → is_closer p ≡ false
      → is_closing p ≡ false
      → Inv (move_to i p s)
  move-Inv s i p v b a c = record {
    quiet = λ j q. ground (arith, v.quiet j q);
    single = λ j k x y. ground (arith, v.single j k);
    unshut = λ j x. ground (arith, v.unshut j);
    unset = v.unset;
    alive = v.alive;
    safe = v.safe;
  }

  -- A closer that goes on with its Close.
  closer-Inv :
      (s : System A) (i : ℕ) (p : Pc)
      → Inv s
      → is_closing (s.pc i) ≡ true
      → is_closer (s.pc i) ≡ true
      → is_closer p ≡ true
      → Inv (move_to i p s)
  closer-Inv s i p v b a c = record {
    quiet = λ j q. ground (arith, v.quiet j q, v.quiet i q);
    single = λ j k x y. ground (arith, v.single j k, v.single i k, v.single j i);
    unshut = λ j x. ground (arith, v.unshut j, v.unshut i b);
    unset = v.unset;
    alive = v.alive;
    safe = v.safe;
  }

  -- Neither the broadcaster nor the queue matters.
  rest-Inv :
      (s : System A) (b : Broadcaster A) (q : Option (ℕ × Request))
      → Inv s
      → Inv (record s { bc = b; queue = q })
  rest-Inv s b q v = record {
    quiet = v.quiet;
    single = v.single;
    unset = v.unset;
    alive = v.alive;
    unshut = v.unshut;
    safe = v.safe;
  }

  stuck-Inv :
      (s : System A) (chans : ℕ → Chan A)
      → Inv s
      → Inv (record s { bc = record s.bc { chans = chans }; stuck = true })
  stuck-Inv s chans v = record {
    quiet = v.quiet;
    single = v.single;
    unset = v.unset;
    alive = v.alive;
    unshut = v.unshut;
    safe = v.safe;
  }

  end-Inv : (s : System A) → Inv s → s.requests_open ≡ false → Inv (record s { running = false })
  end-Inv s v e = record {
    quiet = v.quiet;
    single = v.single;
    unset = v.unset;
    alive = λ q. cc;
    unshut = v.unshut;
    safe = v.safe;
  }

  crash-Inv :
      (s : System A) (c : Crash)
      → Inv s
      → c ≢ close_sent_to_closed
      → c ≢ closed_twice
      → Inv (crashes c s)
  crash-Inv s c v n m = record {
    quiet = v.quiet;
    single = v.single;
    unset = v.unset;
    alive = v.alive;
    unshut = v.unshut;
    safe = (λ e. n (some-injective _ _ e), λ e. m (some-injective _ _ e));
  }

  serve-Inv : (i : ℕ) (r : Request) (s : System A) → Inv s → Inv (serve_request i r s)
  unfolding serve_request
  serve-Inv i r s v =
      let res = (handle_request r s.bc).1 in
      let p = on_response res (s.pc i) in
      let c = on_response-is_closer res (s.pc i) in
      let d = on_response-is_closing res (s.pc i) in
      record {
        quiet = λ j q. ground (arith, v.quiet j q, v.quiet i q, c);
        single = λ j k x y. ground (arith, v.single j k, v.single i k, v.single j i, c);
        unset = v.unset;
        alive = v.alive;
        unshut = λ j x. ground (arith, v.unshut j, v.unshut i, d);
        safe = v.safe;
      }

  swap-Inv : (i : ℕ) (s : System A) → Inv s → s.pc i ≡ idle → Inv (swap_closed i s)
  unfolding swap_closed
  swap-Inv i s v e = elim (Bool-cases s.closed) [
    | inl y ↦
        subst Inv (sym (if-true s.closed _ _ y)) (move-Inv s i refused v (rw e refl) refl refl)
    | inr n ↦ subst Inv (sym (if-false s.closed _ _ n)) (record {
      quiet = λ j q. cc;
      single = λ j k x y. ground (arith, v.quiet j n, v.quiet k n);
      unset = λ q. cc;
      alive = v.alive;
      unshut = λ j x. v.unset n;
      safe = v.safe;
    })
  ]

  shut-Inv : (i : ℕ) (s : System A) → Inv s → s.pc i ≡ close_answered → Inv (shut i s)
  unfolding shut
  shut-Inv i s v e = record {
    quiet = λ j q. ground (arith, v.quiet j q, v.quiet i q);
    single = λ j k x y. ground (arith, v.single j k, v.single i k, v.single j i);
    unset = λ q. ground (arith, v.quiet i q);
    alive = λ q. cc;
    unshut = λ j x. ground (arith, is_closing→is_closer (s.pc j), v.single j i);
    safe = v.safe;
  }

  Move-Inv : {s t : System A} → Move s t → Inv s → Inv t
  Move-Inv {s = s} (check_closed i e c d) v =
      subst Inv (sym d) (move-Inv s i refused v (rw e refl) refl refl)
  Move-Inv {s = s} (check_open i r n e c d) v =
      subst Inv (sym d) (move-Inv s i (checked r) v (rw e refl) refl refl)
  Move-Inv {s = s} (send i r e o q d) v = subst Inv (sym d) (
      rest-Inv (move_to i waiting s) s.bc (some (i, r))
        (move-Inv s i waiting v (rw e refl) refl refl))
  Move-Inv {s = s} (send_panics i r e o d) v =
      subst Inv (sym d) (crash-Inv s sent_to_closed v (λ h. cc) (λ h. cc))
  Move-Inv {s = s} (give_up i g d) v =
      subst Inv (sym d) (move-Inv s i timed_out v (gives_up-not-is_closer (s.pc i) g) refl refl)
  Move-Inv {s = s} (swap i e d) v = subst Inv (sym d) (swap-Inv i s v e)
  Move-Inv {s = s} (close_send i e o q d) v = subst Inv (sym d) (
      rest-Inv (move_to i close_waiting s) s.bc (some (i, close_request))
        (closer-Inv s i close_waiting v (rw e refl) (rw e refl) refl))
  Move-Inv {s = s} (close_send_panics i e o d) v = absurd (ground (arith, v.unshut i))
  Move-Inv {s = s} (serve i r w k q d) v = subst Inv (sym d) (serve-Inv i r s v)
  Move-Inv {s = s} (ends_on_requests o k q d) v = subst Inv (sym d) (end-Inv s v o)
  Move-Inv {s = s} (ends_on_messages o k q d) v =
      subst Inv (sym d) (end-Inv s v (ground (arith, v.alive)))
  Move-Inv {s = s} (shut_channels i e o d) v = subst Inv (sym d) (shut-Inv i s v e)
  Move-Inv {s = s} (shut_panics i e o d) v = absurd (ground (arith, v.unshut i))
  Move-Inv {s = s} (publishes env message b w k o p d) v =
      subst Inv (sym d) (rest-Inv s b s.queue v)
  Move-Inv {s = s} (publish_sticks env message chans w k o p d) v =
      subst Inv (sym d) (stuck-Inv s chans v)
  Move-Inv {s = s} (publish_crashes env message w k o p d) v =
      subst Inv (sym d) (crash-Inv s nil_policy v (λ h. cc) (λ h. cc))
  Move-Inv {s = s} (publish_panics o d) v =
      subst Inv (sym d) (crash-Inv s published_to_closed v (λ h. cc) (λ h. cc))
  Move-Inv {s = s} (receives at c d) v = subst Inv (sym d) (
      rest-Inv s (record s.bc { chans = update s.bc.chans c (taken_by at (s.bc.chans c)) }) s.queue
        v)

  new_system-Inv : (aware : Bool) (zero_value : A) → Inv (new_system aware zero_value)
  unfolding new_system
  new_system-Inv aware zero_value = record {
    quiet = λ i q. refl;
    single = λ i j x y. cc;
    unset = λ q. refl;
    alive = λ q. (refl, refl);
    unshut = λ i x. refl;
    safe = (λ e. cc, λ e. cc);
  }

  Reach-Inv : {s t : System A} → Reach s t → Inv s → Inv t
  Reach-Inv here v = v
  Reach-Inv (next r c m) v = Move-Inv m (Reach-Inv r v)

  -- In every state that calls of Subscribe, Unsubscribe and Close, messages and receives can lead to,
  -- in whatever order: two calls of Close that have both set the flag are the same call; while it has
  -- not closed the channels, both are open and the broadcaster runs; and no Close has panicked, neither
  -- by a send to a closed channel nor by closing a channel twice.
  pub close_once :
      (aware : Bool) (zero_value : A) (t : System A)
      → Reach (new_system aware zero_value) t
      → ((i j : ℕ) → is_closer (t.pc i) ≡ true → is_closer (t.pc j) ≡ true → i ≡ j)
        × ((i : ℕ)
            → is_closing (t.pc i) ≡ true
            → (t.requests_open ≡ true) × (t.publish_open ≡ true) × (t.running ≡ true))
        × (t.crash ≢ some close_sent_to_closed)
        × (t.crash ≢ some closed_twice)
  close_once aware zero_value t r =
      let v = Reach-Inv r (new_system-Inv aware zero_value) in
      (
        v.single,
        λ i c. (v.unshut i c, (v.alive (v.unshut i c)).0, (v.alive (v.unshut i c)).1),
        v.safe.0,
        v.safe.1,
      )
