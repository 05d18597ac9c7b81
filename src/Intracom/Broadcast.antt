-- ===== src/Intracom/Broadcast.antt =====
-- intracom/broadcast_sync.go and request.go: the routine that owns a topic's subscribers. It takes
-- messages and requests one at a time, so its loop is a step function over them.
pub mod Invariant
pub mod Requests
pub mod Delivery
pub mod Order
pub mod Fitting
pub mod Reachable
use rxdaemon.Prelude.{
  ℕ, suc, String, ◌≡◌, refl, Bool, true, false, not, ◌&&◌, ◌||◌, List, [], ◌∷◌, ◌++◌, Option, none,
  some, ◌==◌, ltb, if◌then◌else◌, length, Dict, lookup, insert, delete, update, concat,
}
use rxdaemon.Intracom.Errors.{Err, text}
use rxdaemon.Intracom.Channel.{Chan, Moment, make}
use rxdaemon.Intracom.Policy.{Handled, returned, blocked, panicked}
use rxdaemon.Intracom.Subscriber.{SubscriberConfig, Subscriber, new_subscriber, send, close}

-- The variables of Broadcast, and the heap of channels: `closed` says which of them are closed, and
-- addresses from `next` on are free. `receiving` says whether `recv` is the publish channel; if not it
-- is nil, and no message is received.
pub record Broadcaster {ℓ} (A : Type ℓ) : Type ℓ where
  pub subscriber_aware : Bool
  pub subscribers : Dict Subscriber
  pub receiving : Bool
  pub broadcasting : Bool
  pub last_message : A
  pub chans : ℕ → Chan A
  pub closed : ℕ → Bool
  pub next : ℕ

pub data Request : Type 0 where
  subscribe : SubscriberConfig → Request
  unsubscribe : (consumer : String) (ch : ℕ) → Request
  close_request : Request

-- The channel of a response, if there is one, and its error.
pub data Response : Type 0 where
  subscribed : ℕ → Option Err → Response
  unsubscribed : Option Err → Response
  closed_response : Response

-- `sub.Close()`, as far as the heap of channels shows it.
unfoldable close_chan : Subscriber → (ℕ → Bool) → ℕ → Bool
unfolding close
close_chan sub closed = if (close sub).0 then update closed sub.ch true else closed

unfoldable pub close_all : Dict Subscriber → (ℕ → Bool) → ℕ → Bool
unfolding close_chan
close_all [] closed = closed
close_all ((name, sub) ∷ subs) closed = close_all subs (close_chan sub closed)

-- How `for _, sub := range subscribers` ends: it is done, or the routine is stuck in a Send, or a
-- Send panics, which ends the program.
pub data Delivered {ℓ} (A : Type ℓ) : Type ℓ where
  delivered : (ℕ → Chan A) → Delivered A
  stuck : (ℕ → Chan A) → Delivered A
  crashed : Delivered A

-- What a publisher's send to the topic leads to: it waits while nothing is received.
pub data Published {ℓ} (A : Type ℓ) : Type ℓ where
  published : Broadcaster A → Published A
  waits : Published A
  is_stuck : (ℕ → Chan A) → Published A
  is_crashed : Published A

module _ {ℓ} {A : Type ℓ} where
  -- The state at the start; `zero_value` is the zero value of the message type.
  unfoldable pub start : Bool → A → Broadcaster A
  start aware zero_value = record {
    subscriber_aware = aware;
    subscribers = [];
    receiving = not aware;
    broadcasting = not aware;
    last_message = zero_value;
    chans = λ k. make 0;
    closed = λ k. false;
    next = 0;
  }

  -- `if b.SubscriberAware && !broadcasting && len(subscribers) > 0`
  unfoldable pub enable : Broadcaster A → Broadcaster A
  enable b =
      if b.subscriber_aware && not b.broadcasting && ltb 0 (length b.subscribers)
      then record b { receiving = true; broadcasting = true }
      else b

  -- `if b.SubscriberAware && broadcasting && len(subscribers) < 1`
  unfoldable disable : Broadcaster A → Broadcaster A
  disable b =
      if b.subscriber_aware && b.broadcasting && ltb (length b.subscribers) 1
      then record b { receiving = false; broadcasting = false }
      else b

  -- The new channel holds the last message if it has room for one.
  unfoldable first_chan : ℕ → A → Chan A
  unfolding make
  first_chan size last = if ltb 0 size then record (make size) { buffer = last ∷ [] } else make size

  unfoldable pub add_subscriber : SubscriberConfig → Broadcaster A → Broadcaster A
  unfolding new_subscriber first_chan
  add_subscriber conf b = record b {
    subscribers = insert conf.consumer_group (new_subscriber b.next conf) b.subscribers;
    chans = update b.chans b.next (first_chan conf.buffer_size b.last_message);
    closed = update b.closed b.next false;
    next = suc b.next;
  }

  unfoldable pub handle_subscribe : SubscriberConfig → Broadcaster A → Broadcaster A × Response
  unfolding enable add_subscriber
  handle_subscribe conf b = elim (lookup conf.consumer_group b.subscribers) [
    | none ↦ (enable (add_subscriber conf b), subscribed b.next none)
    | some sub ↦
        if conf.err_if_exists
        then (
          b,
          subscribed sub.ch (
              some (
                text
                  (concat ("consumer group '" ∷ conf.consumer_group ∷ "' already exists" ∷ [])))),
        )
        else (enable b, subscribed sub.ch none)
  ]

  unfoldable remove_subscriber : String → Subscriber → Broadcaster A → Broadcaster A
  unfolding close_chan
  remove_subscriber consumer sub b = record b {
    subscribers = delete consumer b.subscribers;
    closed = close_chan sub b.closed;
  }

  unfoldable handle_unsubscribe : String → ℕ → Broadcaster A → Broadcaster A × Response
  unfolding disable remove_subscriber close
  handle_unsubscribe consumer ch b = elim (lookup consumer b.subscribers) [
    | none ↦ (disable b, unsubscribed none)
    | some sub ↦
        if sub.ch == ch
        then elim (close sub).1 [
          | some e ↦ (remove_subscriber consumer sub b, unsubscribed (some e))
          | none ↦ (disable (remove_subscriber consumer sub b), unsubscribed none)
        ]
        else (
          b,
          unsubscribed (
              some
                (text (concat ("consumer group channel'" ∷ consumer ∷ "' does not match" ∷ [])))),
        )
  ]

  unfoldable handle_close : Broadcaster A → Broadcaster A × Response
  unfolding close_all
  handle_close b = (
    record b {
      receiving = false;
      broadcasting = false;
      subscribers = [];
      closed = close_all b.subscribers b.closed;
    },
    closed_response,
  )

  unfoldable pub handle_request : Request → Broadcaster A → Broadcaster A × Response
  unfolding handle_subscribe handle_unsubscribe handle_close
  handle_request (subscribe conf) b = handle_subscribe conf b
  handle_request (unsubscribe consumer ch) b = handle_unsubscribe consumer ch b
  handle_request close_request b = handle_close b

  -- `env ch` is what surrounds the selects on channel `ch`. An error of Send is passed over.
  unfoldable deliver : (ℕ → List Moment) → A → Dict Subscriber → (ℕ → Chan A) → Delivered A
  unfolding send
  deliver env message [] chans = delivered chans
  deliver env message ((name, sub) ∷ subs) chans =
      elim (send sub (chans sub.ch) message (env sub.ch)) [
        | returned err ch ↦ deliver env message subs (update chans sub.ch ch)
        | blocked ch ↦ stuck (update chans sub.ch ch)
        | panicked ch ↦ crashed
      ]

  unfoldable pub publish : (ℕ → List Moment) → A → Broadcaster A → Published A
  unfolding deliver
  publish env message b =
      if b.receiving
      then elim (deliver env message b.subscribers b.chans) [
        | delivered chans ↦ published (record b { chans = chans; last_message = message })
        | stuck chans ↦ is_stuck chans
        | crashed ↦ is_crashed
      ]
      else waits
