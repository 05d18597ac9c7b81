-- ===== src/Intracom/Registry/Waiting.antt =====
-- CreateSubscription waits until its topic is there.
use rxdaemon.Prelude.{
  ℕ, String, ◌≡◌, refl, ◌∙◌, false, List, [], ◌∷◌, ◌++◌, map, none, some, ltb, if◌then◌else◌,
  if-false, All, lookup,
}
use rxdaemon.Intracom.Errors.{
  Err, base, subscribe_error, creating_subscription, max_timeout_reached,
}
use rxdaemon.Intracom.Subscriber.{SubscriberConfig}
use rxdaemon.Intracom.Topic.{Wait}
use rxdaemon.Intracom.Registry.{
  Intracom, Tick, cancelled, timed_out, retry, still_waiting, failed, subscribe_found, await_topic,
  create_subscription,
}

-- The registry is open and has no topic of the name.
abbrev Lacks {ℓ} : {A : Type ℓ} → String → Intracom A → Type 0
Lacks topic ic = (ic.closed ≡ false) × (lookup topic ic.topics ≡ none)

module _ {ℓ} {A : Type ℓ} (tag : ℕ) (wait : Wait) (topic : String) (max_wait : ℕ)
    (conf : SubscriberConfig) where
  await_topic-lacking :
      (before : List (Intracom A)) (ticks : List (Tick A))
      → All (Lacks topic) before
      → await_topic tag wait topic max_wait conf (map retry before ++ ticks)
        ≡ await_topic tag wait topic max_wait conf ticks
  unfolding await_topic
  await_topic-lacking [] ticks l = refl
  await_topic-lacking (ic ∷ before) ticks l =
      if-false ic.closed _ _ l.0.0 ∙ rw l.0.1 (await_topic-lacking before ticks l.1)

  create_subscription-open :
      (ic : Intracom A) (before : List (Intracom A)) (ticks : List (Tick A))
      → ic.closed ≡ false
      → All (Lacks topic) before
      → create_subscription tag wait topic max_wait conf ic (map retry before ++ ticks)
        ≡ await_topic tag wait topic max_wait conf ticks
  unfolding create_subscription
  create_subscription-open ic before ticks o l =
      if-false ic.closed _ _ o ∙ await_topic-lacking before ticks l

  -- Let the registry be open when CreateSubscription is called, and open and without the topic
  -- each time it has looked. Then it still waits. When it next looks and finds the topic in an
  -- open registry, it goes on with what it found, which may be of another type or closed; if its context is done first, it fails; and if the timer fires
  -- first, it fails where there is a maximum to the wait, and waits on where there is none.
  create_subscription-waits :
      (ic found : Intracom A) (before : List (Intracom A)) (a : ℕ) (err : Err)
      → ic.closed ≡ false
      → All (Lacks topic) before
      → found.closed ≡ false
      → lookup topic found.topics ≡ some a
      → let after = λ (ticks : List (Tick A)).
        create_subscription tag wait topic max_wait conf ic (map retry before ++ ticks) in
        (after [] ≡ still_waiting)
        × (after (retry found ∷ []) ≡ subscribe_found tag wait topic conf found a)
        × (after (cancelled err ∷ [])
            ≡ failed (subscribe_error topic conf.consumer_group creating_subscription err))
        × (after (timed_out ∷ [])
            ≡ (if ltb 0 max_wait then failed (base max_timeout_reached) else still_waiting))
  unfolding await_topic
  create_subscription-waits ic found before a err o l fo f =
      let go = λ (ticks : List (Tick A)). create_subscription-open ic before ticks o l in
      (
        go [],
        go (retry found ∷ []) ∙ if-false found.closed _ _ fo ∙ rw f refl,
        go (cancelled err ∷ []),
        go (timed_out ∷ []),
      )
