-- ===== src/Intracom/Broadcast/Requests.antt =====
-- What the requests of a topic do: subscribing, subscribing again, unsubscribing and closing.
use rxdaemon.Prelude.{
  ℕ, String, ◌≡◌, ◌≢◌, refl, ◌∙◌, Bool, true, false, ◌&&◌, ◌||◌, [], ◌∷◌, none, some, arith, ◌==◌,
  ltb, str_eq, if◌then◌else◌, All, All-map, All-both, Dict, lookup, update, concat, All-lookup,
  lookup-insert, lookup-delete, Bool-cases, inl, inr,
}
use rxdaemon.Intracom.Errors.{text}
use rxdaemon.Intracom.Channel.{make}
use rxdaemon.Intracom.Subscriber.{SubscriberConfig, Subscriber, new_subscriber, close}
use rxdaemon.Intracom.Broadcast.{
  Broadcaster, subscribe, unsubscribe, close_request, subscribed, unsubscribed, enable, disable,
  add_subscriber, first_chan, handle_subscribe, close_chan, remove_subscriber, handle_unsubscribe,
  close_all, handle_close, handle_request,
}
use rxdaemon.Intracom.Broadcast.Invariant.{IsValid, Live, Other, Apart, close-open}

module _ {ℓ} {A : Type ℓ} (b : Broadcaster A) where
  pub subscribers-enable : (enable b).subscribers ≡ b.subscribers
  unfolding enable
  subscribers-enable = ground arith

  pub chans-enable : (enable b).chans ≡ b.chans
  unfolding enable
  chans-enable = ground arith

  closed-enable : (enable b).closed ≡ b.closed
  unfolding enable
  closed-enable = ground arith

  pub subscribers-disable : (disable b).subscribers ≡ b.subscribers
  unfolding disable
  subscribers-disable = ground arith

  pub chans-disable : (disable b).chans ≡ b.chans
  unfolding disable
  chans-disable = ground arith

  closed-disable : (disable b).closed ≡ b.closed
  unfolding disable
  closed-disable = ground arith

-- Some subscriber has the channel `c`.
abbrev pub held : ℕ → Dict Subscriber → Bool
held c [] = false
held c ((k, sub) ∷ subs) = c == sub.ch || held c subs

module _ {ℓ} {A : Type ℓ} (conf : SubscriberConfig) (b : Broadcaster A) where
  subscribers-added :
      (k : String)
      → lookup k (enable (add_subscriber conf b)).subscribers ≡ (
          if str_eq conf.consumer_group k
          then some (new_subscriber b.next conf)
          else lookup k b.subscribers)
  unfolding add_subscriber
  subscribers-added k =
      rw (subscribers-enable (add_subscriber conf b))
        (lookup-insert conf.consumer_group k (new_subscriber b.next conf) b.subscribers)

  chans-added :
      (c : ℕ)
      → (enable (add_subscriber conf b)).chans c
        ≡ (if c == b.next then first_chan conf.buffer_size b.last_message else b.chans c)
  unfolding add_subscriber
  chans-added c = rw (chans-enable (add_subscriber conf b)) refl

  -- A subscription of a group that has none is answered with a new channel, which holds the last
  -- message, or the zero value where nothing was published yet, if its buffer has room; the group is then filed with that channel, and every other
  -- group and channel is as it was.
  pub subscribe-new :
      (k : String) (c : ℕ)
      → lookup conf.consumer_group b.subscribers ≡ none
      → c ≢ b.next
      → let (b', response) = handle_request (subscribe conf) b in
        (response ≡ subscribed b.next none)
        × (lookup k b'.subscribers ≡ (
            if str_eq conf.consumer_group k
            then some (new_subscriber b.next conf)
            else lookup k b.subscribers))
        × ((b'.chans b.next).buffer ≡ (if ltb 0 conf.buffer_size then b.last_message ∷ [] else []))
        × (b'.chans c ≡ b.chans c)
  unfolding handle_request handle_subscribe first_chan make
  subscribe-new k c n h =
      rw (n, handle_subscribe)
        (
          refl,
          subscribers-added k,
          ground (arith, chans-added b.next),
          ground (arith, chans-added c),
        )

  -- A subscription of a group that has a channel is answered with that channel and files no other; if
  -- the configuration says that this is an error, the answer holds one and nothing changes at all.
  pub subscribe-again :
      (sub : Subscriber)
      → lookup conf.consumer_group b.subscribers ≡ some sub
      → let (b', response) = handle_request (subscribe conf) b in
        (response
          ≡ subscribed sub.ch (
              if conf.err_if_exists
              then some (
                  text
                    (concat ("consumer group '" ∷ conf.consumer_group ∷ "' already exists" ∷ [])))
              else none))
        × (b'.subscribers ≡ b.subscribers)
        × (b'.chans ≡ b.chans)
        × (b' ≡ (if conf.err_if_exists then b else enable b))
  unfolding handle_request handle_subscribe
  subscribe-again sub e =
      rw (e, handle_subscribe)
        (elim (Bool-cases conf.err_if_exists) [
          | inl y ↦ rw y (refl, refl, refl, refl)
          | inr n ↦ rw n (refl, subscribers-enable b, chans-enable b, refl)
        ])

module _ {ℓ} {A : Type ℓ} (b : Broadcaster A) (valid : IsValid b) (consumer : String)
    (sub : Subscriber) (found : lookup consumer b.subscribers ≡ some sub) where
  removed-lookup :
      (k : String)
      → lookup k (disable (remove_subscriber consumer sub b)).subscribers
        ≡ (if str_eq consumer k then none else lookup k b.subscribers)
  unfolding remove_subscriber
  removed-lookup k =
      rw (subscribers-disable (remove_subscriber consumer sub b))
        (lookup-delete consumer k b.subscribers)

  removed-closed :
      (c : ℕ) → (disable (remove_subscriber consumer sub b)).closed c ≡ (c == sub.ch || b.closed c)
  unfolding remove_subscriber close_chan close
  removed-closed c =
      let l = All-lookup (Live b.closed b.next) consumer sub b.subscribers valid.live found in
      rw (closed-disable (remove_subscriber consumer sub b)) (rw l.1 (ground arith))

  -- Let a group have a subscriber in a valid broadcaster. Unsubscribing it with the subscriber's
  -- channel removes the group and closes that channel, and no other group or channel; with another
  -- channel it is an error, and the groups and what is closed stay as they are.
  pub unsubscribe-known :
      (ch c : ℕ) (k : String)
      → let (b', response) = handle_request (unsubscribe consumer ch) b in
        let ok = sub.ch == ch in
        (response
          ≡ unsubscribed (
              if ok
              then none
              else some
                  (text (concat ("consumer group channel'" ∷ consumer ∷ "' does not match" ∷ [])))))
        × (lookup k b'.subscribers
            ≡ (if ok && str_eq consumer k then none else lookup k b.subscribers))
        × (b'.closed c ≡ (ok && c == ch || b.closed c))
  unfolding handle_request handle_unsubscribe
  unsubscribe-known ch c k =
      let l = All-lookup (Live b.closed b.next) consumer sub b.subscribers valid.live found in
      rw (found, handle_unsubscribe)
        (elim (Bool-cases (sub.ch == ch)) [
          | inl y ↦
              rw y
                (rw (close-open sub l.1) (refl, removed-lookup k, ground (arith, removed-closed c)))
          | inr n ↦ rw n (refl, refl, refl)
        ])

-- Every channel of a list of open subscribers is closed in the end, and no other one.
closed-close_all :
    (closed : ℕ → Bool) (next : ℕ) (subs : Dict Subscriber) (c : ℕ)
    → All (Live closed next) subs
    → Apart subs
    → close_all subs closed c ≡ (held c subs || closed c)
unfolding close_all close_chan close
closed-close_all closed next [] c a p = refl
closed-close_all closed next ((k, sub) ∷ subs) c a p = rw a.0.1 (
    closed-close_all (update closed sub.ch true) next subs c
      (All-map subs (λ e l. (l.0.0, l.0.1, ground (arith, l.0.2, l.1), l.0.3))
        (All-both (Live closed next) (Other sub.ch) subs a.1 p.0))
      p.1
    ∙ ground arith)

-- In a valid broadcaster a request to close closes the channel of each subscriber, and no other
-- one, and leaves no subscriber; nothing is received from then on.
close-all_channels {ℓ} :
    {A : Type ℓ} (b : Broadcaster A)
    → IsValid b
    → (c : ℕ)
    → let b' = (handle_request close_request b).0 in
      (b'.closed c ≡ (held c b.subscribers || b.closed c))
      × (b'.subscribers ≡ [])
      × (b'.receiving ≡ false)
unfolding handle_request handle_close
close-all_channels b v c =
    (closed-close_all b.closed b.next b.subscribers c v.live v.apart, refl, refl)
