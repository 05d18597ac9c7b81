-- ===== src/Intracom/Broadcast/Delivery.antt =====
-- What one message leads to when each subscriber's Send returns.
use rxdaemon.Prelude.{
  ℕ, String, ◌≡◌, refl, ap, ◌∙◌, Bool, true, false, List, [], ◌∷◌, Option, some, arith, ◌==◌,
  if◌then◌else◌, All, All-map, All-both, Dict, lookup, insert, update,
}
use rxdaemon.Intracom.Channel.{Chan, Moment}
use rxdaemon.Intracom.Policy.{
  Handled, returned, blocked, panicked, chan_of, handle, push_or, drop_newest,
  drop_oldest_after_timeout,
}
use rxdaemon.Intracom.Errors.{Err}
use rxdaemon.Intracom.Subscriber.{
  SubscriberConfig, Subscriber, new_subscriber, subscriber_policy, send,
}
use rxdaemon.Intracom.Broadcast.{
  Broadcaster, deliver, Delivered, delivered, stuck, crashed, is_stuck, waits, Published, publish,
  published, is_crashed, handle_request, handle_subscribe, subscribe, start, enable, add_subscriber,
}
use rxdaemon.Intracom.Broadcast.Invariant.{IsValid, Other, Apart}

abbrev pub has_returned {ℓ} : {A : Type ℓ} → Handled A → Bool
has_returned (returned err ch) = true
has_returned (blocked ch) = false
has_returned (panicked ch) = false

module _ {ℓ} {A : Type ℓ} (env : ℕ → List Moment) (message : A) where
  abbrev pub Returns : (ℕ → Chan A) → String × Subscriber → Type 0
  Returns chans (k, s) = has_returned (send s (chans s.ch) message (env s.ch)) ≡ true

  -- The heap in which each subscriber's own Send has changed its channel.
  abbrev pub served : Dict Subscriber → (ℕ → Chan A) → ℕ → Chan A
  served [] chans c = chans c
  served ((k, s) ∷ subs) chans c =
      if c == s.ch then chan_of (send s (chans s.ch) message (env s.ch)) else served subs chans c

  served-update :
      (subs : Dict Subscriber) (chans : ℕ → Chan A) (a : ℕ) (ch : Chan A) (c : ℕ)
      → All (Other a) subs
      → served subs (update chans a ch) c ≡ (if c == a then ch else served subs chans c)
  served-update [] chans a ch c o = refl
  served-update ((k, s) ∷ subs) chans a ch c o =
      ground (arith, o.0, served-update subs chans a ch c o.1)

  Returns-update :
      (subs : Dict Subscriber) (chans : ℕ → Chan A) (a : ℕ) (ch : Chan A)
      → All (Other a) subs
      → All (Returns chans) subs
      → All (Returns (update chans a ch)) subs
  Returns-update subs chans a ch o r =
      All-map subs (λ e p. ground (arith, p.0, p.1)) (All-both (Other a) (Returns chans) subs o r)

  -- A channel written before the others are served, or after it, is the same.
  served-first :
      (k : String) (s : Subscriber) (subs : Dict Subscriber) (chans : ℕ → Chan A)
      → All (Other s.ch) subs
      → served subs (update chans s.ch (chan_of (send s (chans s.ch) message (env s.ch))))
        ≡ served ((k, s) ∷ subs) chans
  served-first k s subs chans o =
      λ i c. served-update subs chans s.ch (chan_of (send s (chans s.ch) message (env s.ch))) c o i

  Handled-cases :
      (h : Handled A) → has_returned h ≡ true → (err : Option Err) × (h ≡ returned err (chan_of h))
  Handled-cases (returned err ch) h = (err, refl)
  Handled-cases (blocked ch) h = cc
  Handled-cases (panicked ch) h = cc

  pub deliver-served :
      (subs : Dict Subscriber) (chans : ℕ → Chan A)
      → Apart subs
      → All (Returns chans) subs
      → deliver env message subs chans ≡ delivered (served subs chans)
  unfolding deliver
  deliver-served [] chans p r = refl
  deliver-served ((k, s) ∷ subs) chans p r =
      let (err, e) = Handled-cases (send s (chans s.ch) message (env s.ch)) r.0 in
      let ch = chan_of (send s (chans s.ch) message (env s.ch)) in
      rw (e, deliver)
        (deliver-served subs (update chans s.ch ch) p.1 (Returns-update subs chans s.ch ch p.0 r.1)
          ∙ ap delivered (served-first k s subs chans p.0))

  abbrev pub publishing : Broadcaster A → Delivered A → Published A
  publishing b d = elim d [
    | delivered chans ↦ published (record b { chans = chans; last_message = message })
    | stuck chans ↦ is_stuck chans
    | crashed ↦ is_crashed
  ]

  received : (t : Bool) (x : Published A) → t ≡ true → (if t then x else waits) ≡ x
  received t x h = rw h refl

  pub publish-receiving :
      (b : Broadcaster A)
      → b.receiving ≡ true
      → publish env message b ≡ publishing b (deliver env message b.subscribers b.chans)
  unfolding publish
  publish-receiving b r =
      received b.receiving (publishing b (deliver env message b.subscribers b.chans)) r

  -- If a valid broadcaster receives messages and each subscriber's Send returns, then so does the
  -- delivery of a message: each subscriber's channel is what its own Send made of it, every other
  -- channel is as it was, and the message is the last one.
  pub publish-delivers :
      (b : Broadcaster A)
      → IsValid b
      → b.receiving ≡ true
      → All (Returns b.chans) b.subscribers
      → publish env message b
        ≡ published (record b { chans = served b.subscribers b.chans; last_message = message })
  unfolding publish
  publish-delivers b v r h =
      publish-receiving b r ∙ rw (deliver-served b.subscribers b.chans v.apart h) refl

  -- A subscriber with the policy that drops the newest message never keeps the topic waiting.
  pub drop_newest-Returns :
      (chans : ℕ → Chan A) (k : String) (s : Subscriber)
      → s.buffer_policy ≡ some drop_newest
      → Returns chans (k, s)
  unfolding send handle push_or
  drop_newest-Returns chans k s h = rw h (ground arith)

  -- If a topic's first subscription has the policy that drops the oldest message after a timeout, its
  -- first message ends the program, whatever else the configuration says: the policy is nil.
  publish-nil_policy :
      (conf : SubscriberConfig) (aware timer : Bool) (zero_value : A)
      → conf.buffer_policy ≡ some (drop_oldest_after_timeout timer)
      → publish env message (handle_request (subscribe conf) (start aware zero_value)).0
        ≡ is_crashed
  unfolding publish deliver handle_request handle_subscribe send enable add_subscriber start
      new_subscriber subscriber_policy lookup insert
  publish-nil_policy conf true timer z p = rw p refl
  publish-nil_policy conf false timer z p = rw p refl
