-- ===== src/Intracom/Broadcast/Order.antt =====
-- The order of iteration in `for _, sub := range subscribers`, which Go leaves open for a map.
use rxdaemon.Prelude.{
  ℕ, String, ◌≡◌, ◌≢◌, ◌⊎◌, refl, sym, ap, subst, ◌∙◌, Bool, true, false, List, [], ◌∷◌, Option,
  arith, ◌==◌, if◌then◌else◌, All, All-map, All-both, Dict, update, inl, inr,
}
use mathlib.Core.List.{Permᴰ}
use rxdaemon.Intracom.Channel.{Chan, Moment}
use rxdaemon.Intracom.Policy.{Handled, returned, blocked, panicked, chan_of}
use rxdaemon.Intracom.Errors.{Err}
use rxdaemon.Intracom.Subscriber.{Subscriber, send}
use rxdaemon.Intracom.Broadcast.{
  Broadcaster, deliver, Delivered, delivered, stuck, crashed, Published, publish, published, waits,
}
use rxdaemon.Intracom.Broadcast.Invariant.{IsValid, Other, Apart}
use rxdaemon.Intracom.Broadcast.Delivery.{
  has_returned, Returns, served, deliver-served, publishing, publish-receiving,
}

All-Permᴰ {ℓ ℓ'} : {A : Type ℓ} (P : A → Type ℓ') {l m : List A} → Permᴰ l m → All P l → All P m
All-Permᴰ P Permᴰ.nil h = tt
All-Permᴰ P (Permᴰ.cons e p) h = (subst P e h.0, All-Permᴰ P p h.1)
All-Permᴰ P (Permᴰ.swap e f) h = (subst P f h.1.0, (subst P e h.0, h.1.1))
All-Permᴰ P (Permᴰ.trans p q) h = All-Permᴰ P q (All-Permᴰ P p h)

Apart-swap :
    (x y : String × Subscriber) (l : Dict Subscriber) → Apart (x ∷ y ∷ l) → Apart (y ∷ x ∷ l)
Apart-swap x y l h = ((λ e. h.0.0 (sym e), h.1.0), (h.0.1, h.1.1))

Apart-Permᴰ : {l m : Dict Subscriber} → Permᴰ l m → Apart l → Apart m
Apart-Permᴰ Permᴰ.nil h = tt
Apart-Permᴰ (Permᴰ.cons {b = y} {l₁ = l} e p) h =
    let h' = subst (λ z. Apart (z ∷ l)) e h in (All-Permᴰ (Other y.1.ch) p h'.0, Apart-Permᴰ p h'.1)
Apart-Permᴰ (Permᴰ.swap {a = x} {b = y} {a' = x'} {l = l} e f) h =
    subst (λ z. Apart (x' ∷ z ∷ l)) e (subst (λ z. Apart (z ∷ x ∷ l)) f (Apart-swap x y l h))
Apart-Permᴰ (Permᴰ.trans p q) h = Apart-Permᴰ q (Apart-Permᴰ p h)

module _ {ℓ} {A : Type ℓ} (env : ℕ → List Moment) (message : A) where
  served-swap :
      (x y : String × Subscriber) (l : Dict Subscriber) (chans : ℕ → Chan A) (c : ℕ)
      → Apart (x ∷ y ∷ l)
      → served env message (x ∷ y ∷ l) chans c ≡ served env message (y ∷ x ∷ l) chans c
  served-swap x y l chans c h = let apart : y.1.ch ≢ x.1.ch = h.0.0 in ground (arith, apart)

  served-Permᴰ :
      {l m : Dict Subscriber} (chans : ℕ → Chan A) (c : ℕ)
      → Permᴰ l m
      → Apart l
      → served env message l chans c ≡ served env message m chans c
  served-Permᴰ chans c Permᴰ.nil h = refl
  served-Permᴰ chans c (Permᴰ.cons {a = x} {b = y} {l₁ = l} {l₂ = m} e p) h =
      let go = served-Permᴰ chans c p h.1 in
      ap (λ z. served env message (z ∷ l) chans c) e
      ∙ ap (λ v. if c == y.1.ch then chan_of (send y.1 (chans y.1.ch) message (env y.1.ch)) else v)
          go
  served-Permᴰ chans c (Permᴰ.swap {a = x} {b = y} {a' = x'} {l = l} e f) h =
      served-swap x y l chans c h
      ∙ ap (λ z. served env message (z ∷ x ∷ l) chans c) f
      ∙ ap (λ z. served env message (x' ∷ z ∷ l) chans c) e
  served-Permᴰ chans c (Permᴰ.trans p q) h =
      served-Permᴰ chans c p h ∙ served-Permᴰ chans c q (Apart-Permᴰ p h)

  Handled-view :
      (h : Handled A)
      → ((err : Option Err) × (h ≡ returned err (chan_of h)))
        ⊎ ((h ≡ blocked (chan_of h)) ⊎ (h ≡ panicked (chan_of h)))
  Handled-view (returned err c) = inl (err, refl)
  Handled-view (blocked c) = inr (inl refl)
  Handled-view (panicked c) = inr (inr refl)

  Returns-before :
      (subs : Dict Subscriber) (chans : ℕ → Chan A) (a : ℕ) (ch : Chan A)
      → All (Other a) subs
      → All (Returns env message (update chans a ch)) subs
      → All (Returns env message chans) subs
  Returns-before subs chans a ch o r =
      All-map subs (λ e p. ground (arith, p.0, p.1))
        (All-both (Other a) (Returns env message (update chans a ch)) subs o r)

  -- What the first entry's Send decides.
  deliver_first :
      (k : String) (s : Subscriber) (subs : Dict Subscriber) (chans : ℕ → Chan A) (d : Handled A)
      → send s (chans s.ch) message (env s.ch) ≡ d
      → deliver env message ((k, s) ∷ subs) chans ≡ elim d [
        | returned err ch ↦ deliver env message subs (update chans s.ch ch)
        | blocked ch ↦ stuck (update chans s.ch ch)
        | panicked ch ↦ crashed
      ]
  unfolding deliver
  deliver_first k s subs chans d e = rw (e, deliver) refl

  deliver-Returns :
      (subs : Dict Subscriber) (chans h : ℕ → Chan A)
      → Apart subs
      → deliver env message subs chans ≡ delivered h
      → All (Returns env message chans) subs
  deliver-Returns [] chans h a e = tt
  deliver-Returns ((k, s) ∷ subs) chans h a e =
      let d = send s (chans s.ch) message (env s.ch) in
      let ch = chan_of d in
      elim (Handled-view d) [
        | inl (err, r) ↦ (
          ap (λ v. has_returned v) r,
          Returns-before subs chans s.ch ch a.0 (
              deliver-Returns subs (update chans s.ch ch) h a.1
                (sym (deliver_first k s subs chans (returned err ch) r) ∙ e)),
        )
        | inr (inl r) ↦ cc (deliver_first k s subs chans (blocked ch) r, e)
        | inr (inr r) ↦ cc (deliver_first k s subs chans (panicked ch) r, e)
      ]

  -- A delivery that ends, ends in every order, with the same channels.
  deliver_any_order :
      (l m : Dict Subscriber) (chans h : ℕ → Chan A)
      → Permᴰ l m
      → Apart l
      → deliver env message l chans ≡ delivered h
      → deliver env message m chans ≡ delivered h
  deliver_any_order l m chans h p a e =
      let r = deliver-Returns l chans h a e in
      let same : served env message m chans ≡ served env message l chans =
        λ i c. sym (served-Permᴰ chans c p a) i in
      deliver-served env message m chans (Apart-Permᴰ p a)
        (All-Permᴰ (Returns env message chans) p r)
      ∙ ap delivered same
      ∙ sym (deliver-served env message l chans a r)
      ∙ e

  Delivered-view :
      (d : Delivered A)
      → ((h : ℕ → Chan A) × (d ≡ delivered h))
        ⊎ (((h : ℕ → Chan A) × (d ≡ stuck h)) ⊎ (d ≡ crashed))
  Delivered-view (delivered h) = inl (h, refl)
  Delivered-view (stuck h) = inr (inl (h, refl))
  Delivered-view crashed = inr (inr refl)

  waits-published :
      (t : Bool) (x : Published A) (b1 : Broadcaster A)
      → (if t then x else waits) ≡ published b1
      → t ≡ true
  waits-published true x b1 e = refl
  waits-published false x b1 e = cc

  abbrev reorder : Dict Subscriber → Published A → Published A
  reorder subs (published b) = published (record b { subscribers = subs })
  reorder subs x = x

  -- The order in which Go goes through the map of subscribers does not matter: if a valid broadcaster
  -- publishes a message, so does one whose subscribers are the same in any other order, with the same
  -- channels and the same last message.
  pub publish_any_order :
      (b b1 : Broadcaster A) (subs : Dict Subscriber)
      → IsValid b
      → Permᴰ b.subscribers subs
      → publish env message b ≡ published b1
      → publish env message (record b { subscribers = subs })
        ≡ published (record b1 { subscribers = subs })
  unfolding publish
  publish_any_order b b1 subs v p e =
      let receives : b.receiving ≡ true = waits-published b.receiving _ b1 e in
      let e' = sym (publish-receiving env message b receives) ∙ e in
      let b2 = record b { subscribers = subs } in
      elim (Delivered-view (deliver env message b.subscribers b.chans)) [
        | inl (h, d) ↦
            publish-receiving env message b2 receives
            ∙ ap (λ d. publishing env message b2 d)
                (deliver_any_order b.subscribers subs b.chans h p v.apart d)
            ∙ ap (λ x. reorder subs x) (sym (ap (λ d. publishing env message b d) d) ∙ e')
        | inr (inl (h, d)) ↦ cc (ap (λ d. publishing env message b d) d, e')
        | inr (inr d) ↦ cc (ap (λ d. publishing env message b d) d, e')
      ]
