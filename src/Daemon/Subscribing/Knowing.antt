-- ===== src/Daemon/Subscribing/Knowing.antt =====
-- What a watcher of states comes to where its registry knows the states topic and the topic answers.
use rxdaemon.Prelude.{ℕ, String, ◌≡◌, refl, ◌∙◌, true, none, some, arith, ◌==◌, lookup}
use rxdaemon.States.{ServiceStates}
use rxdaemon.Intracom.Broadcast.{subscribe, unsubscribe, subscribed, handle_request}
use rxdaemon.Intracom.Subscriber.{SubscriberConfig}
use rxdaemon.Intracom.Errors.{Err}
use rxdaemon.Intracom.Broadcast.{Response}
use rxdaemon.Prelude.{update-same, List, ◌∷◌, String, ap, if-false, if-true, false, Option}
use rxdaemon.States.{internal_service_states}
use rxdaemon.States.Watch.{Received, Watched}
use rxdaemon.Intracom.Topic.{
  Topic, answered, topic_subscribe, topic_unsubscribe, channel_of, err_of,
}
use rxdaemon.Intracom.Registry.{
  Intracom, Typed, Tick, retry, subscribed_to, set_topic, subscribe_found, create_subscription,
  await_topic, remove_subscription,
}
use rxdaemon.Daemon.Start.{states_tag}
use rxdaemon.Daemon.Context.{Arrays, ServiceContext}
use rxdaemon.Daemon.Subscribing.{states_group, Meets, after_subscribing, removal, watcher}

-- What a watcher meets whose subscription finds the topic at the first look and is answered, and whose
-- removal is answered.
abbrev pub meets :
    Arrays
    → Intracom ServiceStates
    → List (Tick ServiceStates)
    → List Received
    → Intracom ServiceStates
    → Meets
meets arrays ic more received at_end = record {
  arrays = arrays;
  registry = ic;
  ticks = retry ic ∷ more;
  wait = answered;
  received = received;
  registry_at_end = at_end;
  wait_at_end = answered;
}

-- The registry after a subscription of a group to the topic at `a`.
abbrev pub subscribed_in : String → ℕ → Intracom ServiceStates → Intracom ServiceStates
subscribed_in consumer a ic =
    set_topic a (topic_subscribe answered (states_group consumer) (ic.heap a).topic).0 ic

-- The registry is open and knows the open states topic at `a`.
pub record Knows (a : ℕ) (ic : Intracom ServiceStates) : Type 0 where
  pub is_open : ic.closed ≡ false
  pub filed : lookup internal_service_states ic.topics ≡ some a
  pub typed : ((ic.heap a).tag == states_tag) ≡ true
  pub topic_open : (ic.heap a).topic.closed ≡ false

topic_subscribe-open :
    (conf : SubscriberConfig) (t : Topic ServiceStates)
    → t.closed ≡ false
    → topic_subscribe answered conf t ≡ (
      record t { bc = (handle_request (subscribe conf) t.bc).0 },
      channel_of (handle_request (subscribe conf) t.bc).1,
      err_of (handle_request (subscribe conf) t.bc).1,
    )
unfolding topic_subscribe
topic_subscribe-open conf t h = if-false t.closed _ _ h

await_topic-filed :
    (conf : SubscriberConfig) (a : ℕ) (ic : Intracom ServiceStates)
    (more : List (Tick ServiceStates))
    → Knows a ic
    → await_topic states_tag answered internal_service_states 0 conf (retry ic ∷ more)
      ≡ subscribe_found states_tag answered internal_service_states conf ic a
unfolding await_topic
await_topic-filed conf a ic more k = if-false ic.closed _ _ k.is_open ∙ rw (k.filed) refl

subscribe_found-typed :
    (conf : SubscriberConfig) (a : ℕ) (ic : Intracom ServiceStates)
    → Knows a ic
    → let done = topic_subscribe answered conf (ic.heap a).topic in
      subscribe_found states_tag answered internal_service_states conf ic a
      ≡ subscribed_to (set_topic a done.0 ic) done.1 done.2
unfolding subscribe_found
subscribe_found-typed conf a ic k = if-true ((ic.heap a).tag == states_tag) _ _ k.typed

create_subscription-filed :
    (conf : SubscriberConfig) (a : ℕ) (ic : Intracom ServiceStates)
    (more : List (Tick ServiceStates))
    → Knows a ic
    → let done = topic_subscribe answered conf (ic.heap a).topic in
      create_subscription states_tag answered internal_service_states 0 conf ic (retry ic ∷ more)
      ≡ subscribed_to (set_topic a done.0 ic) done.1 done.2
unfolding create_subscription
create_subscription-filed conf a ic more k =
    if-false ic.closed _ _ k.is_open
    ∙ await_topic-filed conf a ic more k
    ∙ subscribe_found-typed conf a ic k

-- A watcher whose group's request is answered with a channel.
pub watcher-subscribed :
    (arrays : Arrays) (a ch : ℕ) (ic at_end : Intracom ServiceStates)
    (more : List (Tick ServiceStates)) (received : List Received) (sc : ServiceContext)
    (consumer : String) (loop : List Received → Watched)
    → Knows a ic
    → (handle_request (subscribe (states_group consumer)) (ic.heap a).topic.bc).1
      ≡ subscribed ch none
    → let w = meets arrays ic more received at_end in
      watcher w sc consumer loop
      ≡ after_subscribing w sc consumer loop
          (subscribed_to (subscribed_in consumer a ic) (some ch) none)
unfolding watcher
watcher-subscribed arrays a ch ic at_end more received sc consumer loop k e =
    let w = meets arrays ic more received at_end in
    let conf = states_group consumer in
    let t = topic_subscribe-open conf (ic.heap a).topic k.topic_open in
    ap (λ s. after_subscribing w sc consumer loop s)
      (create_subscription-filed conf a ic more k
        ∙ ap
            (λ (d : Topic ServiceStates × Option ℕ × Option Err).
              subscribed_to (subscribed_in consumer a ic) d.1 d.2)
            t
        ∙ ap
            (λ (r : Response).
              subscribed_to (subscribed_in consumer a ic) (channel_of r) (err_of r))
            e)

pub subscribed_in-Knows :
    (consumer : String) (a : ℕ) (ic : Intracom ServiceStates)
    → Knows a ic
    → Knows a (subscribed_in consumer a ic)
subscribed_in-Knows consumer a ic k = record {
  is_open = k.is_open;
  filed = k.filed;
  typed = ground (arith, k.typed);
  topic_open =
      ap (λ (h : Typed ServiceStates). h.topic.closed) (update-same ic.heap a _)
      ∙ ap (λ (d : Topic ServiceStates × Option ℕ × Option Err). d.0.closed)
          (topic_subscribe-open (states_group consumer) (ic.heap a).topic k.topic_open)
      ∙ k.topic_open;
}

-- What the broadcaster of the topic becomes by a subscription.
pub subscribed_in-bc :
    (consumer : String) (a : ℕ) (ic : Intracom ServiceStates)
    → Knows a ic
    → ((subscribed_in consumer a ic).heap a).topic.bc
      ≡ (handle_request (subscribe (states_group consumer)) (ic.heap a).topic.bc).0
subscribed_in-bc consumer a ic k =
    ap (λ (h : Typed ServiceStates). h.topic.bc) (update-same ic.heap a _)
    ∙ ap (λ (d : Topic ServiceStates × Option ℕ × Option Err). d.0.bc)
        (topic_subscribe-open (states_group consumer) (ic.heap a).topic k.topic_open)

topic_unsubscribe-open :
    (consumer : String) (ch : ℕ) (t : Topic ServiceStates)
    → t.closed ≡ false
    → (topic_unsubscribe answered consumer ch t).0.bc
      ≡ (handle_request (unsubscribe consumer ch) t.bc).0
unfolding topic_unsubscribe
topic_unsubscribe-open consumer ch t h =
    ap (λ (d : Topic ServiceStates × Option Err). d.0.bc) (if-false t.closed _ _ h)

remove_subscription-filed :
    (consumer : String) (a ch : ℕ) (ic : Intracom ServiceStates)
    → Knows a ic
    → let done = topic_unsubscribe answered consumer ch (ic.heap a).topic in
      remove_subscription states_tag answered internal_service_states consumer ch ic
      ≡ (set_topic a done.0 ic, done.1)
unfolding remove_subscription
remove_subscription-filed consumer a ch ic k =
    rw (k.filed, remove_subscription) (if-true ((ic.heap a).tag == states_tag) _ _ k.typed)

-- The removal of a group with its channel.
pub removal-answered :
    (consumer : String) (a ch : ℕ) (ic : Intracom ServiceStates)
    → Knows a ic
    → let left =
        (remove_subscription states_tag answered internal_service_states consumer ch ic).0 in
      (left.heap a).topic.bc ≡ (handle_request (unsubscribe consumer ch) (ic.heap a).topic.bc).0
removal-answered consumer a ch ic k =
    ap (λ (d : Intracom ServiceStates × Option Err). (d.0.heap a).topic.bc)
      (remove_subscription-filed consumer a ch ic k)
    ∙ ap (λ (h : Typed ServiceStates). h.topic.bc) (update-same ic.heap a _)
    ∙ topic_unsubscribe-open consumer ch (ic.heap a).topic k.topic_open

-- The channel of a watcher that is subscribed, and what it leaves once it has ended.
pub subscribed-run :
    (w : Meets) (sc : ServiceContext) (consumer : String) (loop : List Received → Watched)
    (ic : Intracom ServiceStates) (ch : ℕ)
    → (loop w.received).ended ≡ true
    → w.wait_at_end ≡ answered
    → (after_subscribing w sc consumer loop (subscribed_to ic (some ch) none)).left
      ≡ some
          (remove_subscription states_tag answered internal_service_states consumer ch
            w.registry_at_end).0
unfolding after_subscribing removal
subscribed-run w sc consumer loop ic ch e h = rw (e, h, removal) refl

pub subscribed-channel :
    (w : Meets) (sc : ServiceContext) (consumer : String) (loop : List Received → Watched)
    (ic : Intracom ServiceStates) (ch : ℕ)
    → (after_subscribing w sc consumer loop (subscribed_to ic (some ch) none)).channel ≡ some ch
unfolding after_subscribing
subscribed-channel w sc consumer loop ic ch = refl
