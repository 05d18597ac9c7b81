-- ===== src/Intracom/Broadcast/Fitting.antt =====
-- The channels of a topic's subscribers stay within their capacities, request by request and message
-- by message.
pub mod Requests
use rxdaemon.Prelude.{
  ℕ, String, ◌≡◌, ◌≢◌, refl, sym, subst, ◌∙◌, List, [], ◌∷◌, Option, arith, ◌==◌, ltb, if-false,
  length-drop, All, All-map, All-both, All-insert, All-delete, Dict, lookup, update, update-same,
  Bool-cases, Option-cases, inl, inr,
}
use rxdaemon.Intracom.Errors.{Err}
use rxdaemon.Intracom.Channel.{Chan, Moment, make, taken_by}
use rxdaemon.Intracom.Policy.{Handled, returned, blocked, panicked, chan_of}
use rxdaemon.Intracom.Policy.Bounds.{Fits, handle-Fits}
use rxdaemon.Intracom.Subscriber.{SubscriberConfig, Subscriber, new_subscriber, send, close}
use rxdaemon.Intracom.Broadcast.{
  Broadcaster, Request, subscribe, unsubscribe, close_request, enable, disable, add_subscriber,
  first_chan, handle_subscribe, remove_subscriber, handle_unsubscribe, handle_close, handle_request,
  Delivered, delivered, stuck, crashed, deliver, Published, published, waits, publish,
}
use rxdaemon.Intracom.Broadcast.Requests.{
  subscribers-enable, chans-enable, subscribers-disable, chans-disable,
}
use rxdaemon.Intracom.Broadcast.Delivery.{publishing, publish-receiving}
use rxdaemon.Intracom.Broadcast.Invariant.{IsValid, Other, Apart, fresh-Other}

-- Each subscriber's channel has the capacity asked for, and holds no more.
abbrev pub AllFit {ℓ} : {A : Type ℓ} → (ℕ → Chan A) → Dict Subscriber → Type ℓ
AllFit chans subs = All (λ e. Fits e.1.buffer_size (chans e.1.ch)) subs

module _ {ℓ} {A : Type ℓ} where
  update-other : (f : ℕ → Chan A) (k : ℕ) (v : Chan A) (j : ℕ) → j ≢ k → update f k v j ≡ f j
  update-other f k v j n = ground arith

  AllFit-update :
      (chans : ℕ → Chan A) (a : ℕ) (ch : Chan A) (subs : Dict Subscriber)
      → All (Other a) subs
      → AllFit chans subs
      → AllFit (update chans a ch) subs
  AllFit-update chans a ch subs o f =
      All-map subs
        (λ e p. subst (λ c. Fits e.1.buffer_size c) (sym (update-other chans a ch e.1.ch p.0)) p.1)
        (All-both (Other a) (λ e. Fits e.1.buffer_size (chans e.1.ch)) subs o f)

  send-Fits :
      (c : ℕ) (s : Subscriber) (ch : Chan A) (m : A) (ms : List Moment)
      → Fits c ch
      → Fits c (chan_of (send s ch m ms))
  unfolding send
  send-Fits c s ch m ms f = elim (Bool-cases s.closed) [
    | inl y ↦ rw (y, send) f
    | inr n ↦
        rw (n, send)
          (elim (Option-cases s.buffer_policy) [
            | inl z ↦ rw z f
            | inr (policy, e) ↦ rw e (handle-Fits c policy ch m ms f)
          ])
  ]

module _ {ℓ} {A : Type ℓ} where
  -- A broadcaster that is valid, and whose channels fit.
  abbrev pub IsSound : Broadcaster A → Type ℓ
  IsSound b = IsValid b × AllFit b.chans b.subscribers

  pub with_chans-IsValid :
      (b : Broadcaster A) (chans : ℕ → Chan A) (last : A)
      → IsValid b
      → IsValid (record b { chans = chans; last_message = last })
  with_chans-IsValid b chans last v = record {
    live = v.live;
    keyed = v.keyed;
    apart = v.apart;
    linked = v.linked;
    aware = v.aware;
  }

waits_ne {ℓ} : {A : Type ℓ} {b : Broadcaster A} → waits ≡ published b → ⊥
waits_ne h = cc

module _ {ℓ} {A : Type ℓ} (env : ℕ → List Moment) (m : A) where
  deliver-returned :
      (k : String) (s : Subscriber) (subs : Dict Subscriber) (chans : ℕ → Chan A) (err : Option Err)
      (ch : Chan A)
      → send s (chans s.ch) m (env s.ch) ≡ returned err ch
      → deliver env m ((k, s) ∷ subs) chans ≡ deliver env m subs (update chans s.ch ch)
  unfolding deliver
  deliver-returned k s subs chans err ch e = rw (e, deliver) refl

  -- A delivery that is done goes on from what each Send returned.
  delivered-first :
      (h : Handled A) (k : String) (s : Subscriber) (subs : Dict Subscriber)
      (chans chans' : ℕ → Chan A)
      → send s (chans s.ch) m (env s.ch) ≡ h
      → deliver env m ((k, s) ∷ subs) chans ≡ delivered chans'
      → deliver env m subs (update chans s.ch (chan_of h)) ≡ delivered chans'
  unfolding deliver
  delivered-first (returned err ch) k s subs chans chans' e d =
      sym (deliver-returned k s subs chans err ch e) ∙ d
  delivered-first (blocked ch) k s subs chans chans' e d = absurd (cc (rw (e, deliver) at d))
  delivered-first (panicked ch) k s subs chans chans' e d = absurd (cc (rw (e, deliver) at d))

  abbrev sent : Subscriber → (ℕ → Chan A) → Chan A
  sent s chans = chan_of (send s (chans s.ch) m (env s.ch))

  -- The heap that a delivery leaves; `chans` stands in where there is none.
  abbrev heap_of : (ℕ → Chan A) → Delivered A → ℕ → Chan A
  heap_of chans (delivered heap) = heap
  heap_of chans (stuck heap) = heap
  heap_of chans crashed = chans

  deliver-untouched :
      (subs : Dict Subscriber) (chans chans' : ℕ → Chan A) (c : ℕ)
      → All (Other c) subs
      → deliver env m subs chans ≡ delivered chans'
      → chans' c ≡ chans c
  unfolding deliver
  deliver-untouched [] chans chans' c o d = λ i. heap_of chans (sym d i) c
  deliver-untouched ((k, s) ∷ subs) chans chans' c o d =
      deliver-untouched subs (update chans s.ch (sent s chans)) chans' c o.1
        (delivered-first (send s (chans s.ch) m (env s.ch)) k s subs chans chans' refl d)
      ∙ update-other chans s.ch (sent s chans) c (λ e. o.0 (sym e))

  deliver-AllFit :
      (subs : Dict Subscriber) (chans chans' : ℕ → Chan A)
      → Apart subs
      → AllFit chans subs
      → deliver env m subs chans ≡ delivered chans'
      → AllFit chans' subs
  deliver-AllFit [] chans chans' a f d = tt
  deliver-AllFit ((k, s) ∷ subs) chans chans' a f d =
      let rest = delivered-first (send s (chans s.ch) m (env s.ch)) k s subs chans chans' refl d in
      let now = update chans s.ch (sent s chans) in
      (
        subst (λ c. Fits s.buffer_size c)
            (sym (
              deliver-untouched subs now chans' s.ch a.0 rest
              ∙ update-same chans s.ch (sent s chans)))
            (send-Fits s.buffer_size s (chans s.ch) m (env s.ch) f.0),
        deliver-AllFit subs now chans' a.1 (AllFit-update chans s.ch (sent s chans) subs a.0 f.1)
            rest,
      )

  abbrev after_publish : Broadcaster A → Published A → Broadcaster A
  after_publish b (published b') = b'
  after_publish b _ = b

  delivered-IsSound :
      (b b' : Broadcaster A) (d : Delivered A)
      → IsSound b
      → deliver env m b.subscribers b.chans ≡ d
      → publishing env m b d ≡ published b'
      → IsSound b'
  delivered-IsSound b b' (delivered chans) s e p =
      subst IsSound (λ i. after_publish b (p i))
        (
          with_chans-IsValid b chans m s.0,
          deliver-AllFit b.subscribers b.chans chans s.0.apart s.1 e,
        )
  delivered-IsSound b b' (stuck chans) s e p = absurd (cc p)
  delivered-IsSound b b' crashed s e p = absurd (cc p)

  pub publish-IsSound :
      (b b' : Broadcaster A) → IsSound b → publish env m b ≡ published b' → IsSound b'
  unfolding publish
  publish-IsSound b b' s p = elim (Bool-cases b.receiving) [
    | inl y ↦
        delivered-IsSound b b' (deliver env m b.subscribers b.chans) s refl
          (sym (publish-receiving env m b y) ∙ p)
    | inr n ↦ absurd (waits_ne (sym (if-false b.receiving _ _ n) ∙ p))
  ]
