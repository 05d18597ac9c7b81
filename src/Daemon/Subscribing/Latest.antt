-- ===== src/Daemon/Subscribing/Latest.antt =====
-- What the watchers of service_context.go find in their channels, however slow they are: the states
-- watcher, the broadcaster of the states topic, and the policy of the watchers' groups together.
use rxdaemon.Prelude.{
  ℕ, String, ◌≡◌, refl, sym, ap, subst, ◌∙◌, Bool, true, false, List, [], ◌∷◌, ◌++◌, arith, ltb,
  length, length-append, length-drop, drop, ◌-◌, ltb→ge, lt→ltb, All, All-map, All-both, Dict,
  lookup, Bool-cases, inl, inr,
}
use rxdaemon.States.{StateUpdate, ServiceStates}
use rxdaemon.States.Publish.{states_watcher, current, states_watcher-append}
use rxdaemon.Intracom.Channel.{Chan}
use rxdaemon.Intracom.Policy.{drop_oldest, handle, chan_of}
use rxdaemon.Intracom.Policy.Bounds.{Fits}
use rxdaemon.Intracom.Policy.Window.{quiets, newest, oldest-step}
use rxdaemon.Intracom.Subscriber.{Subscriber, new_subscriber, send, subscriber_policy}
use rxdaemon.Intracom.Broadcast.{Broadcaster, start, publish, published}
use rxdaemon.Intracom.Broadcast.Invariant.{IsValid, Other, Apart}
use rxdaemon.Intracom.Broadcast.Delivery.{has_returned, served, publish-delivers}
use rxdaemon.Intracom.Broadcast.Fitting.{AllFit}
use rxdaemon.Intracom.Broadcast.Reachable.{Reach, start-IsSound}
use rxdaemon.Daemon.Subscribing.{states_group}

-- The entry is the subscriber that a watcher's subscription makes.
abbrev IsWatcher : String × Subscriber → Type 0
IsWatcher (k, s) = s ≡ new_subscriber s.ch (states_group k)

watcher_size : (k : String) (a : ℕ) → (new_subscriber a (states_group k)).buffer_size ≡ 1
unfolding new_subscriber states_group
watcher_size k a = refl

module _ {ℓ} {A : Type ℓ} where
  returns-room :
      (ch : Chan A) (m : A)
      → ltb (length ch.buffer) ch.capacity ≡ true
      → has_returned (handle drop_oldest ch m quiets) ≡ true
  unfolding handle
  returns-room ch m h = ground arith

  returns-full :
      (ch : Chan A) (m : A)
      → ltb (length ch.buffer) ch.capacity ≡ false
      → ltb 0 (length ch.buffer) ≡ true
      → ltb (length (drop 1 ch.buffer)) ch.capacity ≡ true
      → has_returned (handle drop_oldest ch m quiets) ≡ true
  unfolding handle
  returns-full ch m h p r = ground arith

  handle-returns :
      (ch : Chan A) (m : A) → Fits 1 ch → has_returned (handle drop_oldest ch m quiets) ≡ true
  handle-returns ch m f = elim (Bool-cases (ltb (length ch.buffer) ch.capacity)) [
    | inl y ↦ returns-room ch m y
    | inr n ↦
        let g = ltb→ge (length ch.buffer) ch.capacity n in
        returns-full ch m n (lt→ltb _ _ (omega (arith, g, f.capacity_is)))
          (lt→ltb _ _ (omega (arith, length-drop 1 ch.buffer, f.capacity_is, f.within)))
  ]

  drop-length : (xs ys : List A) → drop (length xs) (xs ++ ys) ≡ ys
  drop-length [] ys = refl
  drop-length (x ∷ xs) ys = drop-length xs ys

  newest_one : (xs : List A) (m : A) → newest 1 (xs ++ m ∷ []) ≡ m ∷ []
  newest_one xs m =
      let one_less : ◌≡◌ {A = ℕ} (length (xs ++ m ∷ []) - 1) (length xs) =
        omega (arith, length-append xs (m ∷ [])) in
      ap (λ k. drop k (xs ++ m ∷ [])) one_less ∙ drop-length xs (m ∷ [])

  abbrev Takes : A → Chan A → Subscriber → Type ℓ
  Takes m ch s =
      (has_returned (send s ch m quiets) ≡ true) × ((chan_of (send s ch m quiets)).buffer ≡ m ∷ [])

  new_watcher-Takes :
      (k : String) (a : ℕ) (ch : Chan A) (m : A)
      → Fits 1 ch
      → Takes m ch (new_subscriber a (states_group k))
  unfolding send new_subscriber states_group subscriber_policy
  new_watcher-Takes k a ch m f =
      (handle-returns ch m f, (oldest-step 1 ch m (omega arith) f).0 ∙ newest_one ch.buffer m)

  watcher-Takes :
      (e : String × Subscriber) (ch : Chan A) (m : A)
      → IsWatcher e
      → Fits e.1.buffer_size ch
      → Takes m ch e.1
  watcher-Takes (k, s) ch m w f =
      subst (λ t. Takes m ch t) (sym w)
        (new_watcher-Takes k s.ch ch m
          (subst (λ n. Fits n ch) (ap (λ t. t.buffer_size) w ∙ watcher_size k s.ch) f))

  served-each :
      (m : A) (subs : Dict Subscriber) (chans : ℕ → Chan A)
      → Apart subs
      → All (λ e. (chan_of (send e.1 (chans e.1.ch) m quiets)).buffer ≡ m ∷ []) subs
      → All (λ e. (served (λ c. quiets) m subs chans e.1.ch).buffer ≡ m ∷ []) subs
  served-each m [] chans a h = tt
  served-each m ((k, s) ∷ subs) chans a h = (
    ground (arith, h.0),
    All-map subs (λ e p. ground (arith, p.0, p.1))
        (All-both (Other s.ch) (λ e. (served (λ c. quiets) m subs chans e.1.ch).buffer ≡ m ∷ [])
          subs a.0 (served-each m subs chans a.1 h.1)),
  )

  -- A message to watchers alone.
  publish-watchers :
      (b : Broadcaster A) (m : A)
      → IsValid b
      → AllFit b.chans b.subscribers
      → b.receiving ≡ true
      → All IsWatcher b.subscribers
      → (b' : Broadcaster A) × (publish (λ c. quiets) m b ≡ published b')
        × All (λ e. (b'.chans e.1.ch).buffer ≡ m ∷ []) b.subscribers
  publish-watchers b m v f r w =
      let takes =
        All-map b.subscribers (λ e p. watcher-Takes e (b.chans e.1.ch) m p.0 p.1)
          (All-both IsWatcher (λ e. Fits e.1.buffer_size (b.chans e.1.ch)) b.subscribers w f) in
      (
        record b { chans = served (λ c. quiets) m b.subscribers b.chans; last_message = m },
        publish-delivers (λ c. quiets) m b v r (All-map b.subscribers (λ e p. p.0) takes),
        served-each m b.subscribers b.chans v.apart (All-map b.subscribers (λ e p. p.1) takes),
      )

-- Let the states topic have come to any state by requests, messages and receives, and let its
-- broadcaster take messages and all its subscribers be watchers. However many maps they have left in
-- their channels, if nobody receives while the states watcher publishes its map for an update u, that
-- map is then all that each of them finds: it has the last update of every service, exit for a service
-- that has had none, and nothing for other names.
pub watchers-current :
    (aware : Bool) (b : Broadcaster ServiceStates) (services : List String) (us : List StateUpdate)
    (u : StateUpdate)
    → Reach (start aware []) b
    → b.receiving ≡ true
    → All IsWatcher b.subscribers
    → (map : ServiceStates) × (b' : Broadcaster ServiceStates) × (states_watcher services
          (us ++ u ∷ [])
        ≡ states_watcher services us ++ map ∷ [])
      × (publish (λ c. quiets) map b ≡ published b')
      × All (λ e. (b'.chans e.1.ch).buffer ≡ map ∷ []) b.subscribers
      × ((j : String) → lookup j map ≡ current services (us ++ u ∷ []) j)
watchers-current aware b services us u reached r w =
    let (map, e, l) = states_watcher-append services us u in
    let (v, f) = start-IsSound aware [] b reached in
    let (b', p, h) = publish-watchers b map v f r w in (map, b', e, p, h, l)
