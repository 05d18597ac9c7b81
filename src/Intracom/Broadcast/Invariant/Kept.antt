-- ===== src/Intracom/Broadcast/Invariant/Kept.antt =====
-- Every turn of the broadcaster keeps its invariant.
use rxdaemon.Prelude.{
  ℕ, String, ◌≡◌, refl, ◌∙◌, Bool, some, arith, ◌==◌, All-map, All-both, lookup, delete, All-delete,
  All-lookup, delete-Distinct, Bool-cases, Option-cases, inl, inr,
}
use rxdaemon.Intracom.Subscriber.{SubscriberConfig, Subscriber}
use rxdaemon.Intracom.Broadcast.{
  Broadcaster, Request, subscribe, unsubscribe, close_request, start, add_subscriber,
  handle_subscribe, remove_subscriber, handle_unsubscribe, handle_close, handle_request,
}
use rxdaemon.Intracom.Broadcast.Invariant.{
  Live, Other, IsValid, Apart-delete, delete-Other, is_empty-insert, is_empty-delete,
  close_chan-other, close-open, Parts, enable-IsValid, disable-IsValid, add-Parts, parts,
}

module _ {ℓ} {A : Type ℓ} where
  subscribe-IsValid :
      (conf : SubscriberConfig) (b : Broadcaster A)
      → IsValid b
      → IsValid (handle_subscribe conf b).0
  unfolding handle_subscribe
  subscribe-IsValid conf b v = elim (Option-cases (lookup conf.consumer_group b.subscribers)) [
    | inl n ↦
        rw (n, handle_subscribe)
          (enable-IsValid (add_subscriber conf b) (add-Parts conf b v)
            (λ a h. unfold add_subscriber in is_empty-insert conf.consumer_group _ b.subscribers))
    | inr (sub, e) ↦
        rw (e, handle_subscribe)
          (elim (Bool-cases conf.err_if_exists) [
            | inl y ↦ rw y v
            | inr n ↦ rw n (enable-IsValid b (parts b v) (λ a h. ground (arith, v.aware a)))
          ])
  ]

  remove-Parts :
      (consumer : String) (sub : Subscriber) (b : Broadcaster A)
      → IsValid b
      → lookup consumer b.subscribers ≡ some sub
      → Parts (remove_subscriber consumer sub b)
  unfolding remove_subscriber
  remove-Parts consumer sub b v h = record {
    live =
        All-map (delete consumer b.subscribers)
          (λ e p. (p.0.0, p.0.1, close_chan-other sub b.closed e.1.ch p.1 ∙ p.0.2, p.0.3))
          (All-both (Live b.closed b.next) (Other sub.ch) (delete consumer b.subscribers)
            (All-delete (Live b.closed b.next) consumer b.subscribers v.live)
            (delete-Other consumer sub b.subscribers v.apart h));
    keyed = delete-Distinct consumer b.subscribers v.keyed;
    apart = Apart-delete consumer b.subscribers v.apart;
    linked = v.linked;
  }

  unsubscribe-IsValid :
      (consumer : String) (ch : ℕ) (b : Broadcaster A)
      → IsValid b
      → IsValid (handle_unsubscribe consumer ch b).0
  unfolding handle_unsubscribe
  unsubscribe-IsValid consumer ch b v = elim (Option-cases (lookup consumer b.subscribers)) [
    | inl n ↦
        rw (n, handle_unsubscribe)
          (disable-IsValid b (parts b v) (λ a h. ground (arith, v.aware a)))
    | inr (sub, e) ↦
        let l = All-lookup (Live b.closed b.next) consumer sub b.subscribers v.live e in
        rw (e, handle_unsubscribe)
          (elim (Bool-cases (sub.ch == ch)) [
            | inl y ↦ rw y (
                rw (close-open sub l.1) (
                  disable-IsValid (remove_subscriber consumer sub b)
                    (remove-Parts consumer sub b v e)
                    (λ a h. is_empty-delete consumer b.subscribers (ground (arith, v.aware a)))))
            | inr n ↦ rw n v
          ])
  ]

  close-IsValid : (b : Broadcaster A) → IsValid b → IsValid (handle_close b).0
  unfolding handle_close
  close-IsValid b v = record { live = tt; keyed = tt; apart = tt; linked = refl; aware = λ a. refl }

  -- Every request keeps a broadcaster valid: its subscribers are open, are filed under their
  -- groups, and share no channel, and if it is aware of subscribers it receives messages exactly
  -- while it has one.
  pub handle_request-IsValid :
      (r : Request) (b : Broadcaster A) → IsValid b → IsValid (handle_request r b).0
  unfolding handle_request
  handle_request-IsValid (subscribe conf) b v = subscribe-IsValid conf b v
  handle_request-IsValid (unsubscribe consumer ch) b v = unsubscribe-IsValid consumer ch b v
  handle_request-IsValid close_request b v = close-IsValid b v

  pub start-IsValid : (aware : Bool) (zero_value : A) → IsValid (start aware zero_value)
  unfolding start
  start-IsValid aware zero_value = record {
    live = tt;
    keyed = tt;
    apart = tt;
    linked = refl;
    aware = λ a. ground arith;
  }
