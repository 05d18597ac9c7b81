-- ===== src/Daemon/Subscribing.antt =====
-- service_context.go: WatchAllServices, WatchAnyServices and WatchAllStates as whole routines, from the
-- subscription to the states topic to its removal.
pub mod Knowing
pub mod Sharing
pub mod Latest
use rxdaemon.Prelude.{
  ℕ, suc, String, ◌≡◌, ◌≢◌, refl, sym, ap, subst, ◌∙◌, Bool, true, false, List, [], ◌∷◌, Option,
  none, some, arith, ◌==◌, str_eq, eq_refl, if◌then◌else◌, if-true, if-false, concat, lookup, ltb,
}
use rxdaemon.States.{
  State, ServiceStates, ServiceAction, ServiceFilter, internal_service_states,
  internal_states_consumer, internal_all_states_consumer,
}
use rxdaemon.States.Watch.{
  Received, Watched, watch_all_services, watch_any_services, watch_all_states,
}
use rxdaemon.Log.{DaemonLog, level_error}
use rxdaemon.Intracom.Errors.{
  Err, base, error_text, subscribe_error, creating_subscription, intracom_closed,
}
use rxdaemon.Intracom.Policy.{drop_oldest}
use rxdaemon.Intracom.Subscriber.{SubscriberConfig, Subscriber, new_subscriber}
use rxdaemon.Intracom.Broadcast.{
  Broadcaster, subscribe, unsubscribe, subscribed, unsubscribed, handle_request, handle_subscribe,
}
use rxdaemon.Intracom.Broadcast.Invariant.{IsValid}
use rxdaemon.Intracom.Broadcast.Invariant.Kept.{handle_request-IsValid}
use rxdaemon.Intracom.Broadcast.Requests.{subscribe-new, subscribe-again, unsubscribe-known}
use rxdaemon.Intracom.Topic.{Wait}
use rxdaemon.Intracom.Registry.{
  Intracom, Tick, Subscribed, still_waiting, failed, subscribed_to, create_subscription,
  remove_subscription,
}
use rxdaemon.Daemon.Context.{Arrays, ServiceContext, log}
use rxdaemon.Daemon.Start.{states_tag}

-- The configuration of the subscription.
unfoldable pub states_group : String → SubscriberConfig
states_group consumer = record {
  consumer_group = consumer;
  err_if_exists = false;
  buffer_size = 1;
  buffer_policy = some drop_oldest;
  drop_timeout = 0;
}

-- What a watcher meets: the arrays of the fields, the registry when it starts, how the loop and the
-- selects of its subscription go, what it then receives, the registry when it ends, and how the
-- selects of the removal go.
pub record Meets : Type 0 where
  pub arrays : Arrays
  pub registry : Intracom ServiceStates
  pub ticks : List (Tick ServiceStates)
  pub wait : Wait
  pub received : List Received
  pub registry_at_end : Intracom ServiceStates
  pub wait_at_end : Wait

-- What a watcher does: the channel that it receives from, once subscribed; what it sends and whether it
-- has ended, which closes the channel that it sends on; what it logs; and the registry that its deferred
-- removal leaves, if it comes to that.
pub record WatcherRun : Type 0 where
  pub channel : Option ℕ
  pub watched : Watched
  pub logs : List DaemonLog
  pub left : Option (Intracom ServiceStates)

abbrev subscribe_failure : Meets → ServiceContext → Err → WatcherRun
subscribe_failure w sc err = record {
  channel = none;
  watched = record { sent = []; ended = true };
  logs =
      log w.arrays sc level_error
        (concat ("failed to subscribe to internal states: " ∷ error_text err ∷ [])) []
      ∷ [];
  left = none;
}

-- `defer intracom.RemoveSubscription`
unfoldable removal : Meets → String → Option ℕ → Bool → Option (Intracom ServiceStates)
unfolding remove_subscription
removal w consumer (some ch) true =
    some
      (remove_subscription states_tag w.wait_at_end internal_service_states consumer ch
        w.registry_at_end).0
removal w consumer none true = none
removal w consumer sub false = none

module _ (w : Meets) (sc : ServiceContext) (consumer : String)
    (loop : List Received → Watched) where
  unfoldable after_subscribing : Subscribed ServiceStates → WatcherRun
  unfolding removal
  after_subscribing still_waiting = record {
    channel = none;
    watched = record { sent = []; ended = false };
    logs = [];
    left = none;
  }
  after_subscribing (failed err) = subscribe_failure w sc err
  after_subscribing (subscribed_to ic sub (some err)) = subscribe_failure w sc err
  after_subscribing (subscribed_to ic sub none) =
      let watched = loop w.received in
      record {
        channel = sub;
        watched = watched;
        logs = [];
        left = removal w consumer sub watched.ended;
      }

  -- The routine of a watcher with the given consumer group and loop. `maxWait` is -1, which is as 0.
  unfoldable pub watcher : WatcherRun
  unfolding after_subscribing create_subscription states_group
  watcher = after_subscribing (
      create_subscription states_tag w.wait internal_service_states 0 (states_group consumer)
        w.registry w.ticks)

unfoldable pub all_services_watcher :
    Meets → ServiceContext → ServiceAction → State → List String → WatcherRun
unfolding watcher watch_all_services internal_states_consumer
all_services_watcher w sc action target services =
    watcher w sc (internal_states_consumer action target sc.fqcn)
      (watch_all_services action target services)

unfoldable any_services_watcher :
    Meets → ServiceContext → ServiceAction → State → List String → WatcherRun
unfolding watcher watch_any_services internal_states_consumer
any_services_watcher w sc action target services =
    watcher w sc (internal_states_consumer action target sc.fqcn)
      (watch_any_services action target services)

unfoldable all_states_watcher : Meets → ServiceContext → ServiceFilter → WatcherRun
unfolding watcher watch_all_states internal_all_states_consumer
all_states_watcher w sc filter =
    watcher w sc (internal_all_states_consumer sc.fqcn) (watch_all_states filter)

-- A watcher on a closed registry sends nothing, closes its channel, and logs the error once.
watcher-closed :
    (w : Meets) (sc : ServiceContext) (consumer : String) (loop : List Received → Watched)
    → w.registry.closed ≡ true
    → watcher w sc consumer loop
      ≡ subscribe_failure w sc (
          subscribe_error internal_service_states consumer creating_subscription
            (base intracom_closed))
unfolding watcher create_subscription after_subscribing states_group
watcher-closed w sc consumer loop c =
    ap (λ s. after_subscribing w sc consumer loop s) (if-true w.registry.closed _ _ c)
