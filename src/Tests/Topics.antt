-- ===== src/Tests/Topics.antt =====
-- Uses of the theorems on intracom/broadcast_sync.go.
use rxdaemon.Prelude.{ℕ, ◌≡◌, refl, [], ◌∷◌, none, some, true, lookup, insert}
use rxdaemon.Intracom.Channel.{quiet}
use rxdaemon.Intracom.Policy.{drop_newest}
use rxdaemon.Intracom.Subscriber.{SubscriberConfig, new_subscriber}
use rxdaemon.Intracom.Broadcast.{
  Broadcaster, subscribe, unsubscribe, unsubscribed, start, enable, add_subscriber, handle_request,
  handle_subscribe, publish, published,
}
use mathlib.Core.List.{Permᴰ}
use rxdaemon.Prelude.{Dict}
use rxdaemon.Intracom.Subscriber.{Subscriber}
use rxdaemon.Intracom.Broadcast.Order.{publish_any_order}
use rxdaemon.Intracom.Broadcast.Invariant.{IsValid}
use rxdaemon.Intracom.Broadcast.Invariant.Kept.{handle_request-IsValid, start-IsValid}
use rxdaemon.Intracom.Broadcast.Fitting.{AllFit}
use rxdaemon.Intracom.Broadcast.Reachable.{request, here, next, start-IsSound}
use rxdaemon.Intracom.Broadcast.Requests.{unsubscribe-known}
use rxdaemon.Intracom.Broadcast.Delivery.{served, publish-delivers, drop_newest-Returns}

abbrev pub conf : SubscriberConfig
conf = record {
  consumer_group = "a";
  err_if_exists = true;
  buffer_size = 1;
  buffer_policy = some drop_newest;
  drop_timeout = 0;
}

abbrev empty : Broadcaster ℕ
empty = start true 0

empty-IsValid : IsValid empty
empty-IsValid = start-IsValid true 0

-- A broadcaster with the one subscriber "a".
abbrev one : Broadcaster ℕ
one = (handle_request (subscribe conf) empty).0

one-IsValid : IsValid one
one-IsValid = handle_request-IsValid (subscribe conf) empty empty-IsValid

unsubscribe-known_example :
    let b' = (handle_request (unsubscribe "a" 0) one).0 in
    ((handle_request (unsubscribe "a" 0) one).1 ≡ unsubscribed none)
    × (lookup "a" b'.subscribers ≡ none)
    × (b'.closed 0 ≡ true)
unfolding handle_request handle_subscribe lookup insert start enable add_subscriber new_subscriber
unsubscribe-known_example =
    unsubscribe-known one one-IsValid "a" (new_subscriber 0 conf) refl 0 0 "a"

publish-delivers_example :
    publish (λ c. quiet ∷ []) 7 one
    ≡ published (record one {
      chans = served (λ c. quiet ∷ []) 7 one.subscribers one.chans;
      last_message = 7;
    })
unfolding handle_request handle_subscribe lookup insert start enable add_subscriber new_subscriber
publish-delivers_example =
    publish-delivers (λ c. quiet ∷ []) 7 one one-IsValid refl
      (drop_newest-Returns (λ c. quiet ∷ []) 7 one.chans "a" (new_subscriber 0 conf) refl, tt)

start-IsSound_example : IsValid one × AllFit one.chans one.subscribers
start-IsSound_example = start-IsSound true 0 one (next here (request (subscribe conf) empty))

abbrev second : SubscriberConfig
second = record conf { consumer_group = "b" }

abbrev two : Broadcaster ℕ
two = (handle_request (subscribe second) one).0

two-IsValid : IsValid two
two-IsValid = handle_request-IsValid (subscribe second) one one-IsValid

abbrev backwards : Dict Subscriber
backwards = ("b", new_subscriber 1 second) ∷ ("a", new_subscriber 0 conf) ∷ []

abbrev two_told : Broadcaster ℕ
two_told = record two {
  chans = served (λ c. quiet ∷ []) 7 two.subscribers two.chans;
  last_message = 7;
}

two_told_lem : publish (λ c. quiet ∷ []) 7 two ≡ published two_told
unfolding handle_request handle_subscribe lookup insert start enable add_subscriber new_subscriber
two_told_lem =
    publish-delivers (λ c. quiet ∷ []) 7 two two-IsValid refl
      (
        drop_newest-Returns (λ c. quiet ∷ []) 7 two.chans "a" (new_subscriber 0 conf) refl,
        (drop_newest-Returns (λ c. quiet ∷ []) 7 two.chans "b" (new_subscriber 1 second) refl, tt),
      )

publish_any_order_example :
    publish (λ c. quiet ∷ []) 7 (record two { subscribers = backwards })
    ≡ published (record two_told { subscribers = backwards })
unfolding handle_request handle_subscribe lookup insert start enable add_subscriber new_subscriber
publish_any_order_example =
    publish_any_order (λ c. quiet ∷ []) 7 two two_told backwards two-IsValid (Permᴰ.swap refl refl)
      two_told_lem
