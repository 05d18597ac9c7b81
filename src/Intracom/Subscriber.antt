-- ===== src/Intracom/Subscriber.antt =====
-- intracom/subscriber.go and subscriber_config.go. Channels live in a heap, and a subscriber holds the
-- address of its own. Buffer sizes are not negative.
use rxdaemon.Prelude.{ℕ, String, Bool, true, false, List, Option, none, some, if◌then◌else◌}
use rxdaemon.Intracom.Errors.{Err, text}
use rxdaemon.Intracom.Channel.{Chan, Moment}
use rxdaemon.Intracom.Policy.{
  Policy, drop_none, drop_oldest, drop_newest, drop_oldest_after_timeout, drop_newest_after_timeout,
  Handled, returned, panicked, handle,
}

-- The policy may be nil.
pub record SubscriberConfig : Type 0 where
  pub consumer_group : String
  pub err_if_exists : Bool
  pub buffer_size : ℕ
  pub buffer_policy : Option Policy
  pub drop_timeout : ℕ

pub record Subscriber : Type 0 where
  pub consumer_group : String
  pub buffer_size : ℕ
  pub buffer_policy : Option Policy
  pub drop_timeout : ℕ
  pub ch : ℕ
  pub closed : Bool

-- The `switch` of newSubscriber: its first case sets the timer of a copy, and no policy.
unfoldable pub subscriber_policy : Option Policy → Option Policy
subscriber_policy none = none
subscriber_policy (some (drop_oldest_after_timeout timer)) = none
subscriber_policy (some (drop_newest_after_timeout timer)) = some (drop_newest_after_timeout true)
subscriber_policy (some drop_none) = some drop_none
subscriber_policy (some drop_oldest) = some drop_oldest
subscriber_policy (some drop_newest) = some drop_newest

-- `ch` is the address of the new channel.
unfoldable pub new_subscriber : ℕ → SubscriberConfig → Subscriber
unfolding subscriber_policy
new_subscriber ch conf = record {
  consumer_group = conf.consumer_group;
  buffer_size = conf.buffer_size;
  buffer_policy = subscriber_policy conf.buffer_policy;
  drop_timeout = conf.drop_timeout;
  ch = ch;
  closed = false;
}

abbrev already_closed : Err
already_closed = text "subscriber already closed"

-- Send, to a subscriber whose channel is given; a call of a nil policy panics.
unfoldable pub send {ℓ} : {A : Type ℓ} → Subscriber → Chan A → A → List Moment → Handled A
send s ch message ms =
    if s.closed
    then returned (some already_closed) ch
    else elim s.buffer_policy [ none ↦ panicked ch | some policy ↦ handle policy ch message ms ]

-- Close: whether the channel is closed by it, and what it returns.
unfoldable pub close : Subscriber → Bool × Option Err
close s = if s.closed then (false, some already_closed) else (true, none)
