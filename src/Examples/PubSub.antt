-- ===== src/Examples/PubSub.antt =====
-- The program examples/pubsub/main.go: a topic of numbers with one subscriber and one publisher.
use rxdaemon.Prelude.{
  ℕ, zero, suc, ◌+◌, ◌<◌, ◌≡◌, refl, ◌∙◌, ap, Bool, true, false, List, [], ◌∷◌, Option, none, some,
  arith, lt→ltb, lookup,
}
use rxdaemon.Intracom.Errors.{Err}
use rxdaemon.Intracom.Policy.{drop_none}
use rxdaemon.Intracom.Subscriber.{SubscriberConfig}
use rxdaemon.Intracom.Broadcast.{start}
use rxdaemon.Intracom.Broadcast.Requests.{subscribe-new}
use rxdaemon.Intracom.Topic.{
  TopicConfig, Topic, new_topic, topic_subscribe, answered, channel_of, err_of,
}

abbrev pubsub_topic : TopicConfig
pubsub_topic = record { name = "pubsub-topic"; err_if_exists = true; subscriber_aware = true }

abbrev pubsub_group : SubscriberConfig
pubsub_group = record {
  consumer_group = "group1";
  err_if_exists = false;
  buffer_size = 10;
  buffer_policy = some drop_none;
  drop_timeout = 0;
}

-- The topic of a new registry, and the subscription to it.
unfoldable pubsub_subscribed : Topic ℕ × Option ℕ × Option Err
unfolding topic_subscribe new_topic
pubsub_subscribed = topic_subscribe answered pubsub_group (new_topic pubsub_topic 0)

-- The publisher sends `i`, `i + 1`, …, `left` numbers in all, unless its context is done first; each
-- `select` is decided by one entry of the list.
unfoldable publisher : ℕ → ℕ → List Bool → List ℕ
publisher zero i context_done = []
publisher (suc left) i [] = []
publisher (suc left) i (true ∷ more) = []
publisher (suc left) i (false ∷ more) = i ∷ publisher left (i + 1) more

unfoldable pubsub_publisher : List Bool → List ℕ
unfolding publisher
pubsub_publisher context_done = publisher 100 0 context_done

-- A new topic's first subscriber, if it asks for room for a message, finds one in its channel before
-- anything is published: the zero value of the message type.
subscribe-zero_value {ℓ} :
    {A : Type ℓ} (conf : TopicConfig) (group : SubscriberConfig) (zero_value : A)
    → 0 < group.buffer_size
    → let (t, ch, err) = topic_subscribe answered group (new_topic conf zero_value) in
      (ch ≡ some 0) × (err ≡ none) × ((t.bc.chans 0).buffer ≡ zero_value ∷ [])
unfolding topic_subscribe new_topic start lookup
subscribe-zero_value conf group zero_value h =
    let (r, _, c, _) =
      subscribe-new group (start conf.subscriber_aware zero_value) "" 1 refl
        (λ e. omega (arith, e)) in
    (ap (λ r. channel_of r) r, ap (λ r. err_of r) r, c ∙ rw (lt→ltb 0 group.buffer_size h) refl)
