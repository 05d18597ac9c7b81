-- ===== src/Intracom/Topic.antt =====
-- intracom/topic.go: a topic, the client's side of the requests of its broadcaster.
pub mod Calls
pub mod Closing
pub mod Overlap
pub mod Sound
use rxdaemon.Prelude.{ℕ, String, Bool, true, false, Option, none, some, if◌then◌else◌}
use rxdaemon.Intracom.Errors.{Err, text}
use rxdaemon.Intracom.Subscriber.{SubscriberConfig}
use rxdaemon.Intracom.Broadcast.{
  Broadcaster, Request, subscribe, unsubscribe, close_request, Response, subscribed, unsubscribed,
  closed_response, start, handle_request,
}

pub record TopicConfig : Type 0 where
  pub name : String
  pub err_if_exists : Bool
  pub subscriber_aware : Bool

-- The broadcaster is SyncBroadcaster, the one that NewTopic starts when it is given no option.
pub record Topic {ℓ} (A : Type ℓ) : Type ℓ where
  pub name : String
  pub bc : Broadcaster A
  pub closed : Bool

-- How the two selects of a request are decided: the context is done before the request is taken, or
-- after that but before the response, or the response comes.
pub data Wait : Type 0 where
  not_taken not_answered answered : Wait

-- The channel and the error of a response.
abbrev pub channel_of : Response → Option ℕ
channel_of (subscribed ch err) = some ch
channel_of (unsubscribed err) = none
channel_of closed_response = none

abbrev pub err_of : Response → Option Err
err_of (subscribed ch err) = err
err_of (unsubscribed err) = err
err_of closed_response = none

module _ {ℓ} {A : Type ℓ} where
  unfoldable pub new_topic : TopicConfig → A → Topic A
  unfolding start
  new_topic conf zero_value = record {
    name = conf.name;
    bc = start conf.subscriber_aware zero_value;
    closed = false;
  }

  -- The broadcaster has handled a request.
  abbrev requested : Request → Topic A → Topic A
  requested r t = record t { bc = (handle_request r t.bc).0 }

  unfoldable pub topic_subscribe :
      Wait → SubscriberConfig → Topic A → Topic A × Option ℕ × Option Err
  unfolding handle_request
  topic_subscribe wait conf t =
      if t.closed
      then (t, none, some (text "cannot subscribe, topic already closed"))
      else elim wait [
        | not_taken ↦ (t, none, some (text "subscribe request timed out 1"))
        | not_answered ↦
            (requested (subscribe conf) t, none, some (text "subscribe response timed out 2"))
        | answered ↦
            let response = (handle_request (subscribe conf) t.bc).1 in
            (requested (subscribe conf) t, channel_of response, err_of response)
      ]

  unfoldable pub topic_unsubscribe : Wait → String → ℕ → Topic A → Topic A × Option Err
  unfolding handle_request
  topic_unsubscribe wait consumer ch t =
      if t.closed then (t, some (text "cannot unsubscribe, topic already closed")) else elim wait [
        | not_taken ↦ (t, some (text "unsubscribe request timed out"))
        | not_answered ↦
            (requested (unsubscribe consumer ch) t, some (text "unsubscribe response timed out"))
        | answered ↦ (
          requested (unsubscribe consumer ch) t,
          err_of (handle_request (unsubscribe consumer ch) t.bc).1,
        )
      ]

  -- Close waits for the broadcaster, so this is where it gets to the request.
  unfoldable pub topic_close : Topic A → Topic A × Option Err
  unfolding handle_request
  topic_close t =
      if t.closed
      then (t, some (text "topic already closed"))
      else (record (requested close_request t) { closed = true }, none)
