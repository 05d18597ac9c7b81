-- ===== src/Daemon/Subscribing/Sharing.antt =====
-- Watchers of one service context that share a consumer group.
use rxdaemon.Prelude.{
  ℕ, suc, String, ◌≡◌, refl, sym, subst, ◌∙◌, true, none, some, arith, ◌==◌, eq_refl, lookup,
}
use rxdaemon.States.{State, ServiceAction, ServiceStates, internal_states_consumer}
use rxdaemon.Intracom.Subscriber.{Subscriber, new_subscriber}
use rxdaemon.Intracom.Broadcast.{
  Broadcaster, subscribe, unsubscribe, subscribed, unsubscribed, handle_request,
}
use rxdaemon.Intracom.Broadcast.Invariant.{IsValid}
use rxdaemon.Intracom.Broadcast.Invariant.Kept.{handle_request-IsValid}
use rxdaemon.Intracom.Broadcast.Requests.{subscribe-new, subscribe-again, unsubscribe-known}
use rxdaemon.Prelude.{List, String, ap}
use rxdaemon.States.{internal_service_states}
use rxdaemon.States.Watch.{Received, watch_all_services}
use rxdaemon.Intracom.Topic.{answered}
use rxdaemon.Intracom.Registry.{Intracom, Tick, remove_subscription}
use rxdaemon.Daemon.Start.{states_tag}
use rxdaemon.Daemon.Context.{Arrays, ServiceContext}
use rxdaemon.Daemon.Subscribing.Knowing.{
  meets, subscribed_in, Knows, watcher-subscribed, subscribed_in-Knows, subscribed_in-bc,
  removal-answered, subscribed-run, subscribed-channel,
}
use rxdaemon.Daemon.Subscribing.{states_group, WatcherRun, all_services_watcher}

same : (n : ℕ) → (n == n) ≡ true
same n = ground arith

-- Unsubscribing a group with its own channel.
unsubscribe-own :
    (b : Broadcaster ServiceStates) (consumer : String) (sub : Subscriber)
    → IsValid b
    → lookup consumer b.subscribers ≡ some sub
    → let (b', response) = handle_request (unsubscribe consumer sub.ch) b in
      (response ≡ unsubscribed none)
      × (b'.closed sub.ch ≡ true)
      × (lookup consumer b'.subscribers ≡ none)
unsubscribe-own b consumer sub v e =
    let (r, l, c) = unsubscribe-known b v consumer sub e sub.ch sub.ch consumer in
    (
      r ∙ rw (same sub.ch) refl,
      c ∙ rw (same sub.ch) refl,
      l ∙ rw (same sub.ch) (rw (eq_refl consumer) refl),
    )

-- Two subscriptions of a watcher's group, and its removal, as the broadcaster sees them.
requests-share :
    (action : ServiceAction) (target : State) (sc : ServiceContext) (b : Broadcaster ServiceStates)
    → IsValid b
    → lookup (internal_states_consumer action target sc.fqcn) b.subscribers ≡ none
    → let consumer = internal_states_consumer action target sc.fqcn in
      let (b', first) = handle_request (subscribe (states_group consumer)) b in
      let (b'', second) = handle_request (subscribe (states_group consumer)) b' in
      let (b''', removed) = handle_request (unsubscribe consumer b.next) b'' in
      (first ≡ subscribed b.next none)
      × (second ≡ subscribed b.next none)
      × (b''.subscribers ≡ b'.subscribers)
      × (removed ≡ unsubscribed none)
      × (b'''.closed b.next ≡ true)
      × (lookup consumer b'''.subscribers ≡ none)
unfolding states_group new_subscriber
requests-share action target sc b v absent =
    let consumer = internal_states_consumer action target sc.fqcn in
    let conf = states_group consumer in
    let b' = (handle_request (subscribe conf) b).0 in
    let b'' = (handle_request (subscribe conf) b').0 in
    let one = subscribe-new conf b consumer (suc b.next) absent (λ e. omega (arith, e)) in
    let sub = new_subscriber b.next conf in
    let there : lookup consumer b'.subscribers ≡ some sub = one.1 ∙ rw (eq_refl consumer) refl in
    let two = subscribe-again conf b' sub there in
    let there' : lookup consumer b''.subscribers ≡ some sub =
      subst (λ subs. lookup consumer subs ≡ some sub) (sym two.1) there in
    let valid =
      handle_request-IsValid (subscribe conf) b' (handle_request-IsValid (subscribe conf) b v) in
    let three = unsubscribe-own b'' consumer sub valid there' in
    (one.0, two.0, two.1, three.0, three.1, three.2)

-- Let the states topic be open, in an open registry, and let a context start two watchers of the same
-- action and target, for any services, where its group is not subscribed. If both are subscribed before
-- the first of them ends, both receive from one channel; and when the first ends, its removal closes that
-- channel and takes the group out of the topic, so that the second has no subscription left.
pub watchers-share :
    (arrays arrays' : Arrays) (a : ℕ) (ic at_end : Intracom ServiceStates)
    (more more' : List (Tick ServiceStates)) (received received' : List Received)
    (sc : ServiceContext) (action : ServiceAction) (target : State)
    (services services' : List String)
    → Knows a ic
    → IsValid (ic.heap a).topic.bc
    → lookup (internal_states_consumer action target sc.fqcn) (ic.heap a).topic.bc.subscribers
      ≡ none
    → (watch_all_services action target services received).ended ≡ true
    → let consumer = internal_states_consumer action target sc.fqcn in
      let ch = (ic.heap a).topic.bc.next in
      let ic' = subscribed_in consumer a ic in
      let ic'' = subscribed_in consumer a ic' in
      let first =
        all_services_watcher (meets arrays ic more received ic'') sc action target services in
      let second =
        all_services_watcher
          (meets arrays' ic' more' received' at_end)
          sc
          action
          target
          services' in
      (first.channel ≡ some ch)
      × (second.channel ≡ some ch)
      × (left : Intracom ServiceStates) × (first.left ≡ some left)
      × ((left.heap a).topic.bc.closed ch ≡ true)
      × (lookup consumer (left.heap a).topic.bc.subscribers ≡ none)
unfolding all_services_watcher
watchers-share arrays arrays' a ic at_end more more' received received' sc action target services
      services' k v absent ended =
    let consumer = internal_states_consumer action target sc.fqcn in
    let b = (ic.heap a).topic.bc in
    let ch = b.next in
    let ic' = subscribed_in consumer a ic in
    let ic'' = subscribed_in consumer a ic' in
    let w = meets arrays ic more received ic'' in
    let w' = meets arrays' ic' more' received' at_end in
    let loop = watch_all_services action target services in
    let loop' = watch_all_services action target services' in
    let k' = subscribed_in-Knows consumer a ic k in
    let k'' = subscribed_in-Knows consumer a ic' k' in
    let (r1, r2, _, _, c, l) = requests-share action target sc b v absent in
    let bc' = subscribed_in-bc consumer a ic k in
    let bc'' =
      subscribed_in-bc consumer a ic' k'
      ∙ ap
          (λ (b : Broadcaster ServiceStates).
            (handle_request (subscribe (states_group consumer)) b).0)
          bc' in
    let one = watcher-subscribed arrays a ch ic ic'' more received sc consumer loop k r1 in
    let two =
      watcher-subscribed arrays' a ch ic' at_end more' received' sc consumer loop' k' (rw bc' r2) in
    let gone =
      removal-answered consumer a ch ic'' k''
      ∙ ap (λ (b : Broadcaster ServiceStates). (handle_request (unsubscribe consumer ch) b).0)
          bc'' in
    (
      ap (λ (r : WatcherRun). r.channel) one ∙ subscribed-channel w sc consumer loop ic' ch,
      ap (λ (r : WatcherRun). r.channel) two ∙ subscribed-channel w' sc consumer loop' ic'' ch,
      (remove_subscription states_tag answered internal_service_states consumer ch ic'').0,
      ap (λ (r : WatcherRun). r.left) one ∙ subscribed-run w sc consumer loop ic' ch ended refl,
      ap (λ (b : Broadcaster ServiceStates). b.closed ch) gone ∙ c,
      ap (λ (b : Broadcaster ServiceStates). lookup consumer b.subscribers) gone ∙ l,
    )
