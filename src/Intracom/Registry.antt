-- ===== src/Intracom/Registry.antt =====
-- intracom/intracom.go: the registry of topics. The topics are objects that callers share, so they
-- live in a heap. A Go type is known by a number, `any` by 0, and messages of all types are of one
-- type A; a type assertion compares the numbers.
pub mod Topics
pub mod Waiting
pub mod Sections
pub mod Held
pub mod Races
use rxdaemon.Prelude.{
  ℕ, suc, String, Bool, true, false, List, [], ◌∷◌, Option, none, some, ◌==◌, ltb, if◌then◌else◌,
  Dict, lookup, insert, delete, update,
}
use rxdaemon.Intracom.Errors.{
  Base, Err, base, intracom_error, subscribe_error, topic_error, invalid_intracom_nil,
  intracom_closed, topic_not_found, topic_already_exists, topic_does_not_exist, invalid_topic_type,
  max_timeout_reached, closing_topic, removing_topic, creating_topic, removing_subscription,
  creating_subscription,
}
use rxdaemon.Intracom.Subscriber.{SubscriberConfig}
use rxdaemon.Intracom.Topic.{
  TopicConfig, Topic, Wait, new_topic, topic_subscribe, topic_unsubscribe, topic_close,
}

-- A topic and the type of its messages.
pub record Typed {ℓ} (A : Type ℓ) : Type ℓ where
  pub tag : ℕ
  pub topic : Topic A

pub record Intracom {ℓ} (A : Type ℓ) : Type ℓ where
  pub name : String
  pub topics : Dict ℕ
  pub heap : ℕ → Typed A
  pub next : ℕ
  pub closed : Bool

-- The topic that is created or found, by its address, or an error.
pub data Created : Type 0 where
  created : ℕ → Created
  not_created : Err → Created

-- A turn of the loop of CreateSubscription: the context is done, the timer of maxWait has fired, or
-- it is time to look again, at the registry as it is then.
pub data Tick {ℓ} (A : Type ℓ) : Type ℓ where
  cancelled : Err → Tick A
  timed_out : Tick A
  retry : Intracom A → Tick A

-- CreateSubscription still waits, or has returned.
pub data Subscribed {ℓ} (A : Type ℓ) : Type ℓ where
  still_waiting : Subscribed A
  failed : Err → Subscribed A
  subscribed_to : Intracom A → Option ℕ → Option Err → Subscribed A

module _ {ℓ} {A : Type ℓ} where
  unfoldable pub new : String → Typed A → Intracom A
  new name unused = record {
    name = name;
    topics = [];
    heap = λ k. unused;
    next = 0;
    closed = false;
  }

  -- CreateTopic[T] on a registry that is not nil, where `tag` is the number of T.
  unfoldable pub create_topic : ℕ → A → TopicConfig → Intracom A → Intracom A × Created
  unfolding new_topic
  create_topic tag zero_value conf ic =
      let err : Base → Created = λ e. not_created (topic_error conf.name creating_topic (base e)) in
      if ic.closed then (ic, err intracom_closed) else elim (lookup conf.name ic.topics) [
        | none ↦ (
          record ic {
            topics = insert conf.name ic.next ic.topics;
            heap = update ic.heap ic.next (record { tag = tag; topic = new_topic conf zero_value });
            next = suc ic.next;
          },
          created ic.next,
        )
        | some a ↦
            if (ic.heap a).tag == tag
            then (ic, if conf.err_if_exists then err topic_already_exists else created a)
            else (ic, err invalid_topic_type)
      ]

  -- The topic at an address becomes another.
  abbrev pub set_topic : ℕ → Topic A → Intracom A → Intracom A
  set_topic a t ic = record ic { heap = update ic.heap a (record (ic.heap a) { topic = t }) }

  -- What follows the closing of a topic that is to be removed.
  abbrev remove_closed : String → ℕ → Topic A × Option Err → Intracom A → Intracom A × Option Err
  remove_closed name a (t, some err) ic =
      (set_topic a t ic, some (topic_error name removing_topic err))
  remove_closed name a (t, none) ic =
      (record (set_topic a t ic) { topics = delete name ic.topics }, none)

  unfoldable pub remove_topic : ℕ → String → Intracom A → Intracom A × Option Err
  unfolding topic_close
  remove_topic tag name ic = elim (lookup name ic.topics) [
    | none ↦ (ic, some (topic_error name removing_topic (base topic_does_not_exist)))
    | some a ↦
        if (ic.heap a).tag == tag
        then remove_closed name a (topic_close (ic.heap a).topic) ic
        else (ic, some (topic_error name removing_topic (base invalid_topic_type)))
  ]

  -- What follows the loop, once the topic is found.
  unfoldable pub subscribe_found :
      ℕ → Wait → String → SubscriberConfig → Intracom A → ℕ → Subscribed A
  unfolding topic_subscribe
  subscribe_found tag wait topic conf ic a =
      let done = topic_subscribe wait conf (ic.heap a).topic in
      if (ic.heap a).tag == tag
      then subscribed_to (set_topic a done.0 ic) done.1 done.2
      else failed (
          subscribe_error topic conf.consumer_group creating_subscription (base invalid_topic_type))

  -- The loop. The channel of the timer is nil unless `max_wait` is positive; a negative one is as 0.
  unfoldable pub await_topic :
      ℕ → Wait → String → ℕ → SubscriberConfig → List (Tick A) → Subscribed A
  unfolding subscribe_found
  await_topic tag wait topic max_wait conf [] = still_waiting
  await_topic tag wait topic max_wait conf (cancelled err ∷ ticks) =
      failed (subscribe_error topic conf.consumer_group creating_subscription err)
  await_topic tag wait topic max_wait conf (timed_out ∷ ticks) =
      let rest = await_topic tag wait topic max_wait conf ticks in
      if ltb 0 max_wait then failed (base max_timeout_reached) else rest
  await_topic tag wait topic max_wait conf (retry ic ∷ ticks) =
      let rest = await_topic tag wait topic max_wait conf ticks in
      if ic.closed
      then failed
          (subscribe_error topic conf.consumer_group creating_subscription (base intracom_closed))
      else elim (lookup topic ic.topics) [
        | none ↦ rest
        | some a ↦ subscribe_found tag wait topic conf ic a
      ]

  -- CreateSubscription[T] on a registry `ic`, and the others below on one too.
  unfoldable pub create_subscription :
      ℕ → Wait → String → ℕ → SubscriberConfig → Intracom A → List (Tick A) → Subscribed A
  unfolding await_topic
  create_subscription tag wait topic max_wait conf ic ticks =
      if ic.closed
      then failed
          (subscribe_error topic conf.consumer_group creating_subscription (base intracom_closed))
      else await_topic tag wait topic max_wait conf ticks

  unfoldable pub remove_subscription :
      ℕ → Wait → String → String → ℕ → Intracom A → Intracom A × Option Err
  unfolding topic_unsubscribe
  remove_subscription tag wait topic consumer ch ic =
      let err : Base → Option Err =
        λ e. some (subscribe_error topic consumer removing_subscription (base e)) in
      elim (lookup topic ic.topics) [
        | none ↦ (ic, err topic_not_found)
        | some a ↦
            let done = topic_unsubscribe wait consumer ch (ic.heap a).topic in
            if (ic.heap a).tag == tag
            then (set_topic a done.0 ic, done.1)
            else (ic, err invalid_topic_type)
      ]

  -- The loop of Close: a topic of another type than `any` is passed over.
  unfoldable close_topics : Dict ℕ → (ℕ → Typed A) → ℕ → Typed A
  unfolding topic_close
  close_topics [] heap = heap
  close_topics ((name, a) ∷ topics) heap = close_topics topics (
      if (heap a).tag == 0
      then update heap a (record (heap a) { topic = (topic_close (heap a).topic).0 })
      else heap)

  unfoldable pub close_intracom : Intracom A → Intracom A × Option Err
  unfolding close_topics
  close_intracom ic =
      if ic.closed
      then (ic, some (intracom_error closing_topic (base intracom_closed)))
      else (record ic { topics = []; heap = close_topics ic.topics ic.heap; closed = true }, none)

  -- The five operations begin with a test whether the registry, a pointer, is nil.
  unfoldable unless_nil {κ} :
      {B : Type κ}
      → B
      → (Intracom A → Intracom A × B)
      → Option (Intracom A)
      → Option (Intracom A) × B
  unless_nil if_nil op none = (none, if_nil)
  unless_nil if_nil op (some ic) = let done = op ic in (some done.0, done.1)

  unfoldable create_topic_of :
      ℕ → A → TopicConfig → Option (Intracom A) → Option (Intracom A) × Created
  unfolding unless_nil create_topic
  create_topic_of tag zero_value conf =
      unless_nil (not_created (topic_error conf.name creating_topic (base invalid_intracom_nil)))
        (create_topic tag zero_value conf)

  unfoldable remove_topic_of : ℕ → String → Option (Intracom A) → Option (Intracom A) × Option Err
  unfolding unless_nil remove_topic
  remove_topic_of tag name =
      unless_nil (some (topic_error name removing_topic (base invalid_intracom_nil)))
        (remove_topic tag name)

  unfoldable create_subscription_of :
      ℕ → Wait → String → ℕ → SubscriberConfig → Option (Intracom A) → List (Tick A) → Subscribed A
  unfolding create_subscription
  create_subscription_of tag wait topic max_wait conf none ticks =
      failed (
        subscribe_error topic conf.consumer_group creating_subscription (base invalid_intracom_nil))
  create_subscription_of tag wait topic max_wait conf (some ic) ticks =
      create_subscription tag wait topic max_wait conf ic ticks

  unfoldable remove_subscription_of :
      ℕ → Wait → String → String → ℕ → Option (Intracom A) → Option (Intracom A) × Option Err
  unfolding unless_nil remove_subscription
  remove_subscription_of tag wait topic consumer ch =
      unless_nil
        (some (subscribe_error topic consumer removing_subscription (base invalid_intracom_nil)))
        (remove_subscription tag wait topic consumer ch)

  unfoldable close_of : Option (Intracom A) → Option (Intracom A) × Option Err
  unfolding unless_nil close_intracom
  close_of =
      unless_nil (some (intracom_error closing_topic (base invalid_intracom_nil))) close_intracom
