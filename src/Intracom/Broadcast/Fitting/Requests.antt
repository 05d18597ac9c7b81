-- ===== src/Intracom/Broadcast/Fitting/Requests.antt =====
-- The three requests keep each channel within its capacity.
use rxdaemon.Prelude.{
  ℕ, String, refl, sym, subst, arith, ◌==◌, ltb, length-drop, All-insert, All-delete, lookup,
  update, update-same, Bool-cases, Option-cases, inl, inr,
}
use rxdaemon.Intracom.Channel.{Chan, Moment, make, taken_by}
use rxdaemon.Intracom.Policy.Bounds.{Fits}
use rxdaemon.Intracom.Subscriber.{SubscriberConfig, Subscriber, new_subscriber, close}
use rxdaemon.Intracom.Broadcast.{
  Broadcaster, Request, subscribe, unsubscribe, close_request, enable, disable, add_subscriber,
  first_chan, handle_subscribe, remove_subscriber, handle_unsubscribe, handle_close, handle_request,
}
use rxdaemon.Intracom.Broadcast.Requests.{
  subscribers-enable, chans-enable, subscribers-disable, chans-disable,
}
use rxdaemon.Intracom.Broadcast.Invariant.{fresh-Other}
use rxdaemon.Intracom.Broadcast.Fitting.{AllFit, AllFit-update, IsSound}

module _ {ℓ} {A : Type ℓ} where
  first_chan-Fits : (size : ℕ) (last : A) → Fits size (first_chan size last)
  unfolding first_chan make
  first_chan-Fits size last = elim (Bool-cases (ltb 0 size)) [
    | inl y ↦ rw y (record { capacity_is = refl; within = ground arith })
    | inr n ↦ rw n (record { capacity_is = refl; within = omega arith })
  ]

  pub taken_by-Fits : (c : ℕ) (at : Moment) (ch : Chan A) → Fits c ch → Fits c (taken_by at ch)
  unfolding taken_by
  taken_by-Fits c at ch f = record {
    capacity_is = f.capacity_is;
    within = omega (arith, f.within, length-drop at.taken ch.buffer);
  }

  add_subscriber-AllFit :
      (conf : SubscriberConfig) (b : Broadcaster A)
      → IsSound b
      → AllFit (add_subscriber conf b).chans (add_subscriber conf b).subscribers
  unfolding add_subscriber
  add_subscriber-AllFit conf b s =
      let new = first_chan conf.buffer_size b.last_message in
      All-insert (λ e. Fits e.1.buffer_size (update b.chans b.next new e.1.ch)) conf.consumer_group
        (new_subscriber b.next conf) b.subscribers
        (AllFit-update b.chans b.next new b.subscribers
          (fresh-Other b.closed b.next b.subscribers s.0.live) s.1)
        (subst (λ c. Fits conf.buffer_size c) (sym (update-same b.chans b.next new))
          (first_chan-Fits conf.buffer_size b.last_message))

  AllFit-enable :
      (b : Broadcaster A)
      → AllFit b.chans b.subscribers
      → AllFit (enable b).chans (enable b).subscribers
  AllFit-enable b f = rw (chans-enable b, subscribers-enable b) f

  AllFit-disable :
      (b : Broadcaster A)
      → AllFit b.chans b.subscribers
      → AllFit (disable b).chans (disable b).subscribers
  AllFit-disable b f = rw (chans-disable b, subscribers-disable b) f

  handle_subscribe-AllFit :
      (conf : SubscriberConfig) (b : Broadcaster A)
      → IsSound b
      → AllFit (handle_subscribe conf b).0.chans (handle_subscribe conf b).0.subscribers
  unfolding handle_subscribe
  handle_subscribe-AllFit conf b s =
      elim (Option-cases (lookup conf.consumer_group b.subscribers)) [
        | inl n ↦
            rw (n, handle_subscribe)
              (AllFit-enable (add_subscriber conf b) (add_subscriber-AllFit conf b s))
        | inr (sub, e) ↦
            rw (e, handle_subscribe)
              (elim (Bool-cases conf.err_if_exists) [
                | inl y ↦ rw y s.1
                | inr n ↦ rw n (AllFit-enable b s.1)
              ])
      ]

  remove_subscriber-AllFit :
      (consumer : String) (sub : Subscriber) (b : Broadcaster A)
      → AllFit b.chans b.subscribers
      → AllFit
          (remove_subscriber consumer sub b).chans
          (remove_subscriber consumer sub b).subscribers
  unfolding remove_subscriber
  remove_subscriber-AllFit consumer sub b f =
      All-delete (λ e. Fits e.1.buffer_size (b.chans e.1.ch)) consumer b.subscribers f

  handle_unsubscribe-AllFit :
      (consumer : String) (ch : ℕ) (b : Broadcaster A)
      → AllFit b.chans b.subscribers
      → AllFit
          (handle_unsubscribe consumer ch b).0.chans
          (handle_unsubscribe consumer ch b).0.subscribers
  unfolding handle_unsubscribe
  handle_unsubscribe-AllFit consumer ch b f = elim (Option-cases (lookup consumer b.subscribers)) [
    | inl n ↦ rw (n, handle_unsubscribe) (AllFit-disable b f)
    | inr (sub, e) ↦
        let r = remove_subscriber-AllFit consumer sub b f in
        rw (e, handle_unsubscribe)
          (elim (Bool-cases (sub.ch == ch)) [
            | inl y ↦ rw y (elim (Option-cases (close sub).1) [
              | inl n ↦ rw n (AllFit-disable (remove_subscriber consumer sub b) r)
              | inr (err, c) ↦ rw c r
            ])
            | inr n ↦ rw n f
          ])
  ]

  pub handle_request-AllFit :
      (r : Request) (b : Broadcaster A)
      → IsSound b
      → AllFit (handle_request r b).0.chans (handle_request r b).0.subscribers
  unfolding handle_request handle_close
  handle_request-AllFit (subscribe conf) b s = handle_subscribe-AllFit conf b s
  handle_request-AllFit (unsubscribe consumer ch) b s = handle_unsubscribe-AllFit consumer ch b s.1
  handle_request-AllFit close_request b s = tt
