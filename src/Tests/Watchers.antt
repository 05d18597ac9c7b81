-- ===== src/Tests/Watchers.antt =====
-- Uses of the theorems on the log watcher and the watchers of services.
use rxdaemon.Prelude.{
  ℕ, ◌+◌, ◌≤◌, ◌≡◌, ◌≢◌, refl, Bool, [], ◌∷◌, none, arith, true, false, lookup, length,
}
use rxdaemon.States.{entered, run, ServiceStates, internal_states_consumer}
use rxdaemon.Intracom.Broadcast.{Broadcaster, subscribe, handle_request, start}
use rxdaemon.Intracom.Broadcast.Invariant.Kept.{start-IsValid}
use rxdaemon.Intracom.Broadcast.Invariant.{IsValid}
use rxdaemon.Daemon.LogWatcher.{LogWatcher, new_watcher, sends, closes, Reach, here, next}
use rxdaemon.Daemon.LogWatcher.Accounts.{count, held, log_watcher-IsAccounted}
use rxdaemon.Daemon.LogWatcher.Drains.{log_watcher_drains, no_workers}
use rxdaemon.Daemon.Context.{ServiceContext}
use rxdaemon.Daemon.Subscribing.{states_group}
use rxdaemon.Prelude.{String, ◌++◌, All}
use rxdaemon.States.{StateUpdate, init}
use rxdaemon.States.Publish.{states_watcher, current}
use rxdaemon.Intracom.Subscriber.{new_subscriber}
use rxdaemon.Intracom.Policy.Window.{quiets}
use rxdaemon.Intracom.Broadcast.{enable, add_subscriber, handle_subscribe, publish, published}
use rxdaemon.Prelude.{insert, some}
use rxdaemon.Intracom.Broadcast.Reachable as Topic
use rxdaemon.Daemon.Subscribing.Latest.{watchers-current}
use rxdaemon.Daemon.Subscribing.Knowing.{Knows, subscribed_in, meets}
use rxdaemon.Daemon.Subscribing.Sharing.{watchers-share}
use rxdaemon.Daemon.Subscribing.{all_services_watcher}
use rxdaemon.Daemon.Context.{Arrays}
use rxdaemon.Daemon.Start.{states_tag, states_topic}
use rxdaemon.States.Watch.{done, watch, watch_all_services}
use rxdaemon.Intracom.Topic.{new_topic}
use rxdaemon.Intracom.Registry.{Intracom, new, create_topic}

-- One entry, 5, is sent.
abbrev one_sent : ℕ → LogWatcher ℕ
one_sent limit = record (new_watcher limit) { queue = 5 ∷ []; sent = 5 ∷ [] }

one_sent_reached : (limit : ℕ) → Reach (new_watcher limit) (one_sent limit)
unfolding new_watcher
one_sent_reached limit = next here refl (sends 5 refl (omega arith) refl)

-- And the channel is closed.
abbrev then_closed : LogWatcher ℕ
then_closed = record (one_sent 2) { is_open = false }

then_closed_reached : Reach (new_watcher 2) then_closed
unfolding new_watcher
then_closed_reached = next (one_sent_reached 2) refl (closes refl refl)

log_watcher-IsAccounted_example :
    ((p : ℕ → Bool)
      → count p (one_sent 2).sent
        ≡ count p (one_sent 2).queue
          + count p (held (one_sent 2).holding)
          + count p (one_sent 2).writing
          + count p (one_sent 2).written)
    × (length (one_sent 2).writing ≤ 2)
    × ((one_sent 2).done ≡ true
        → ((one_sent 2).queue ≡ [])
          × ((one_sent 2).holding ≡ none)
          × ((one_sent 2).is_open ≡ false))
log_watcher-IsAccounted_example = log_watcher-IsAccounted 2 (one_sent 2) (one_sent_reached 2)

log_watcher_drains_example :
    (u : LogWatcher ℕ) × Reach then_closed u
    × (u.done ≡ true)
    × (u.writing ≡ [])
    × ((p : ℕ → Bool) → count p u.written ≡ count p then_closed.sent)
unfolding new_watcher
log_watcher_drains_example =
    log_watcher_drains 2 then_closed (omega arith) then_closed_reached refl refl

no_workers_example :
    ((one_sent 0).writing ≡ [])
    × ((one_sent 0).written ≡ [])
    × ((one_sent 0).sent ≢ [] → (one_sent 0).done ≡ false)
no_workers_example = no_workers (one_sent 0) (one_sent_reached 0)

abbrev context : ServiceContext
context = record {
  context = 0;
  name = "clock";
  fqcn = "clock";
  fields = record { array = 0; len = 0; cap = 0 };
}

abbrev no_subscribers : Broadcaster ServiceStates
no_subscribers = start false []

-- A registry with the states topic.
abbrev no_topics : Intracom ServiceStates
no_topics = new "ic" (record { tag = 0; topic = new_topic states_topic [] })

abbrev with_states : Intracom ServiceStates
with_states = (create_topic states_tag [] states_topic no_topics).0

with_states-Knows : Knows 0 with_states
unfolding new create_topic insert lookup new_topic
with_states-Knows = record { is_open = refl; filed = refl; typed = refl; topic_open = refl }

with_states-IsValid : IsValid (with_states.heap 0).topic.bc
unfolding new create_topic lookup new_topic
with_states-IsValid = start-IsValid false []

abbrev fields_of : Arrays
fields_of = record { cells = λ k. []; next = 1 }

-- The context of the first watcher is done.
watchers-share_example :
    let consumer = internal_states_consumer entered run "clock" in
    let ch = (with_states.heap 0).topic.bc.next in
    let ic' = subscribed_in consumer 0 with_states in
    let ic'' = subscribed_in consumer 0 ic' in
    let first =
      all_services_watcher
        (meets fields_of with_states [] (done ∷ []) ic'')
        context
        entered
        run
        ("api" ∷ []) in
    let second =
      all_services_watcher (meets fields_of ic' [] [] ic'') context entered run ("web" ∷ []) in
    (first.channel ≡ some ch)
    × (second.channel ≡ some ch)
    × (left : Intracom ServiceStates) × (first.left ≡ some left)
    × ((left.heap 0).topic.bc.closed ch ≡ true)
    × (lookup consumer (left.heap 0).topic.bc.subscribers ≡ none)
unfolding new create_topic lookup new_topic start watch_all_services watch
watchers-share_example =
    watchers-share fields_of fields_of 0 with_states
      (subscribed_in (internal_states_consumer entered run "clock") 0
        (subscribed_in (internal_states_consumer entered run "clock") 0 with_states))
      [] [] (done ∷ []) [] context entered run ("api" ∷ []) ("web" ∷ []) with_states-Knows
      with_states-IsValid refl refl

-- The states topic with one watcher, and the updates of one service.
abbrev one_watcher : Broadcaster ServiceStates
one_watcher = (handle_request (subscribe (states_group "clock")) no_subscribers).0

abbrev first_update : StateUpdate
first_update = record { name = "api"; state = init }

abbrev second_update : StateUpdate
second_update = record { name = "api"; state = run }

watchers-current_example :
    (map : ServiceStates) × (b' : Broadcaster ServiceStates) × (states_watcher
        ("api" ∷ [])
        (first_update ∷ second_update ∷ [])
      ≡ states_watcher ("api" ∷ []) (first_update ∷ []) ++ map ∷ [])
    × (publish (λ c. quiets) map one_watcher ≡ published b')
    × All (λ e. (b'.chans e.1.ch).buffer ≡ map ∷ []) one_watcher.subscribers
    × ((j : String) → lookup j map ≡ current ("api" ∷ []) (first_update ∷ second_update ∷ []) j)
unfolding handle_request handle_subscribe lookup insert start enable add_subscriber new_subscriber
    states_group
watchers-current_example =
    watchers-current false one_watcher ("api" ∷ []) (first_update ∷ []) second_update
      (Topic.next Topic.here (Topic.request (subscribe (states_group "clock")) no_subscribers)) refl
      (refl, tt)
