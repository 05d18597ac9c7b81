-- ===== src/Intracom/Broadcast/Invariant.antt =====
-- What holds of a broadcaster between two turns of its loop.
pub mod Kept
use rxdaemon.Prelude.{
  ℕ, suc, ◌<◌, String, ◌≡◌, ◌≢◌, refl, sym, subst, ◌∙◌, Bool, true, false, not, ◌&&◌, List, [], ◌∷◌,
  none, some, arith, ◌==◌, ltb, lt→ltb, ge→ltb, str_eq, length, All, All-map, All-both, Dict,
  lookup, insert, delete, keys, update, Distinct, All-insert, All-delete, All-lookup,
  insert-Distinct, delete-Distinct, Bool-cases, Option-cases, inl, inr,
}
use mathlib.Core.Option.{some-injective}
use rxdaemon.Intracom.Subscriber.{SubscriberConfig, Subscriber, new_subscriber, close}
use rxdaemon.Intracom.Broadcast.{
  Broadcaster, Request, subscribe, unsubscribe, close_request, start, enable, disable,
  add_subscriber, handle_subscribe, close_chan, remove_subscriber, handle_unsubscribe, handle_close,
  handle_request,
}

-- The subscriber under `k` is open, is of group `k`, and owns a channel in use that is open.
abbrev pub Live : (ℕ → Bool) → ℕ → String × Subscriber → Type 0
Live closed next (k, s) =
    (s.consumer_group ≡ k) × (s.closed ≡ false) × (closed s.ch ≡ false) × (s.ch < next)

-- The entry's channel is another one than `ch`.
abbrev pub Other : ℕ → String × Subscriber → Type 0
Other ch (k, s) = s.ch ≢ ch

-- No two subscribers share a channel.
abbrev pub Apart : Dict Subscriber → Type 0
Apart [] = Unit {0}
Apart ((k, s) ∷ subs) = All (Other s.ch) subs × Apart subs

abbrev is_empty {ℓ} : {A : Type ℓ} → List A → Bool
is_empty [] = true
is_empty (x ∷ xs) = false

pub record IsValid {ℓ} {A : Type ℓ} (b : Broadcaster A) : Type ℓ where
  pub live : All (Live b.closed b.next) b.subscribers
  pub keyed : Distinct (keys b.subscribers)
  pub apart : Apart b.subscribers
  pub linked : b.receiving ≡ b.broadcasting
  pub aware : b.subscriber_aware ≡ true → b.broadcasting ≡ not (is_empty b.subscribers)

Apart-insert :
    (k : String) (s : Subscriber) (m : Dict Subscriber)
    → Apart m
    → All (Other s.ch) m
    → Apart (insert k s m)
unfolding insert
Apart-insert k s [] a o = (tt, tt)
Apart-insert k s ((j, t) ∷ m) a o = elim (Bool-cases (str_eq j k)) [
  | inl y ↦ rw y (o.1, a.1)
  | inr n ↦ rw n (All-insert (Other t.ch) k s m a.0 (λ e. o.0 (sym e)), Apart-insert k s m a.1 o.1)
]

Apart-delete : (k : String) (m : Dict Subscriber) → Apart m → Apart (delete k m)
unfolding delete
Apart-delete k [] a = tt
Apart-delete k ((j, t) ∷ m) a = elim (Bool-cases (str_eq j k)) [
  | inl y ↦ rw y (Apart-delete k m a.1)
  | inr n ↦ rw n (All-delete (Other t.ch) k m a.0, Apart-delete k m a.1)
]

-- Once a subscriber is deleted nobody has its channel.
delete-Other :
    (k : String) (s : Subscriber) (m : Dict Subscriber)
    → Apart m
    → lookup k m ≡ some s
    → All (Other s.ch) (delete k m)
unfolding delete lookup
delete-Other k s [] a h = tt
delete-Other k s ((j, t) ∷ m) a h = elim (Bool-cases (str_eq j k)) [
  | inl y ↦ rw y (
      All-delete (Other s.ch) k m
        (subst (λ u. All (Other u.ch) m) (some-injective t s (rw y at h)) a.0))
  | inr n ↦ rw n (
    λ e. All-lookup (Other t.ch) k s m a.0 (rw n at h) (sym e),
    delete-Other k s m a.1 (rw n at h),
  )
]

empty-length : (m : Dict Subscriber) → ltb 0 (length m) ≡ not (is_empty m)
empty-length [] = refl
empty-length (x ∷ m) = lt→ltb _ _ (omega arith)

none-length : (m : Dict Subscriber) → ltb (length m) 1 ≡ is_empty m
none-length [] = refl
none-length (x ∷ m) = ge→ltb _ _ (omega arith)

is_empty-insert :
    (k : String) (s : Subscriber) (m : Dict Subscriber) → is_empty (insert k s m) ≡ false
unfolding insert
is_empty-insert k s [] = refl
is_empty-insert k s ((j, t) ∷ m) = ground arith

is_empty-delete :
    (k : String) (m : Dict Subscriber) → is_empty m ≡ true → is_empty (delete k m) ≡ true
unfolding delete
is_empty-delete k [] h = refl
is_empty-delete k (x ∷ m) h = cc

-- An address that is not in use is nobody's.
pub fresh-Other :
    (closed : ℕ → Bool) (next : ℕ) (m : Dict Subscriber)
    → All (Live closed next) m
    → All (Other next) m
fresh-Other closed next m a = All-map m (λ e l. λ q. omega (arith, l.3)) a

close_chan-other :
    (sub : Subscriber) (closed : ℕ → Bool) (j : ℕ) → j ≢ sub.ch → close_chan sub closed j ≡ closed j
unfolding close_chan
close_chan-other sub closed j n = ground arith

pub close-open : (sub : Subscriber) → sub.closed ≡ false → (close sub).1 ≡ none
unfolding close
close-open sub h = ground arith

module _ {ℓ} {A : Type ℓ} where
  -- All of the invariant but what the awareness of subscribers asks for.
  pub record Parts (b : Broadcaster A) : Type ℓ where
    live : All (Live b.closed b.next) b.subscribers
    keyed : Distinct (keys b.subscribers)
    apart : Apart b.subscribers
    linked : b.receiving ≡ b.broadcasting

  enable-IsValid :
      (b : Broadcaster A)
      → Parts b
      → (b.subscriber_aware ≡ true → b.broadcasting ≡ true → is_empty b.subscribers ≡ false)
      → IsValid (enable b)
  unfolding enable
  enable-IsValid b p h =
      let e = empty-length b.subscribers in
      elim (Bool-cases (b.subscriber_aware && not b.broadcasting && ltb 0 (length b.subscribers))) [
        | inl y ↦ rw y (record {
          live = p.live;
          keyed = p.keyed;
          apart = p.apart;
          linked = refl;
          aware = λ a. ground arith;
        })
        | inr n ↦ rw n (record {
          live = p.live;
          keyed = p.keyed;
          apart = p.apart;
          linked = p.linked;
          aware = λ a. ground (arith, h a);
        })
      ]

  disable-IsValid :
      (b : Broadcaster A)
      → Parts b
      → (b.subscriber_aware ≡ true → b.broadcasting ≡ false → is_empty b.subscribers ≡ true)
      → IsValid (disable b)
  unfolding disable
  disable-IsValid b p h =
      let e = none-length b.subscribers in
      elim (Bool-cases (b.subscriber_aware && b.broadcasting && ltb (length b.subscribers) 1)) [
        | inl y ↦ rw y (record {
          live = p.live;
          keyed = p.keyed;
          apart = p.apart;
          linked = refl;
          aware = λ a. ground arith;
        })
        | inr n ↦ rw n (record {
          live = p.live;
          keyed = p.keyed;
          apart = p.apart;
          linked = p.linked;
          aware = λ a. ground (arith, h a);
        })
      ]

  add-Parts :
      (conf : SubscriberConfig) (b : Broadcaster A) → IsValid b → Parts (add_subscriber conf b)
  unfolding add_subscriber
  add-Parts conf b v = record {
    live =
        All-insert (Live (update b.closed b.next false) (suc b.next)) conf.consumer_group
          (new_subscriber b.next conf) b.subscribers
          (All-map b.subscribers (λ e l. (l.0, l.1, ground (arith, l.2), omega (arith, l.3)))
            v.live)
          (refl, refl, ground arith, omega arith);
    keyed = insert-Distinct conf.consumer_group (new_subscriber b.next conf) b.subscribers v.keyed;
    apart =
        Apart-insert conf.consumer_group (new_subscriber b.next conf) b.subscribers v.apart
          (fresh-Other b.closed b.next b.subscribers v.live);
    linked = v.linked;
  }

  parts : (b : Broadcaster A) → IsValid b → Parts b
  parts b v = record { live = v.live; keyed = v.keyed; apart = v.apart; linked = v.linked }
