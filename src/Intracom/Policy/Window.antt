-- ===== src/Intracom/Policy/Window.antt =====
-- What the dropping policies keep while no consumer takes a message: the newest messages, or the
-- oldest.
use rxdaemon.Prelude.{
  ℕ, zero, suc, ◌+◌, ◌-◌, ◌≤◌, ◌<◌, ◌≡◌, refl, sym, ap, ◌∙◌, true, false, List, [], ◌∷◌, ◌++◌,
  arith, if◌then◌else◌, ltb, lt→ltb, ltb→lt, ltb→ge, length, take, drop, drop-append, length-append,
  length-drop, append_assoc, append-nil, Bool-cases, inl, inr,
}
use rxdaemon.Intracom.Channel.{Chan, Moment, quiet}
use native.Mathlib.Nat.{zero-add}
use Prim.Native.Nat.add
use rxdaemon.Intracom.Policy.Bounds.{Fits, handle-Fits}
use rxdaemon.Intracom.Policy.{Policy, drop_oldest, drop_newest, handle, chan_of}

abbrev pub quiets : List Moment
quiets = quiet ∷ quiet ∷ quiet ∷ []

module _ {ℓ} {A : Type ℓ} where
  -- The messages of a list are sent one after another, and nothing else happens.
  unfoldable pub feed : Policy → Chan A → List A → Chan A
  unfolding handle
  feed policy ch [] = ch
  feed policy ch (m ∷ ms) = feed policy (chan_of (handle policy ch m quiets)) ms

  -- The last `c` entries.
  abbrev pub newest : ℕ → List A → List A
  newest c xs = drop (length xs - c) xs

  oldest-room :
      (ch : Chan A) (m : A)
      → ltb (length ch.buffer) ch.capacity ≡ true
      → let ch' = chan_of (handle drop_oldest ch m quiets) in
        (ch'.buffer ≡ ch.buffer ++ m ∷ []) × (ch'.capacity ≡ ch.capacity)
  unfolding handle
  oldest-room ch m h = ground arith

  oldest-full :
      (ch : Chan A) (m : A)
      → ltb (length ch.buffer) ch.capacity ≡ false
      → ltb 0 (length ch.buffer) ≡ true
      → ltb (length (drop 1 ch.buffer)) ch.capacity ≡ true
      → let ch' = chan_of (handle drop_oldest ch m quiets) in
        (ch'.buffer ≡ drop 1 ch.buffer ++ m ∷ []) × (ch'.capacity ≡ ch.capacity)
  unfolding handle
  oldest-full ch m h p r = ground arith

  newest-room :
      (ch : Chan A) (m : A)
      → let ch' = chan_of (handle drop_newest ch m quiets) in
        (ch'.buffer
          ≡ (if ltb (length ch.buffer) ch.capacity then ch.buffer ++ m ∷ [] else ch.buffer))
        × (ch'.capacity ≡ ch.capacity)
  unfolding handle
  newest-room ch m = ground arith

  drop-nil : (a : ℕ) → drop {A = A} a [] ≡ []
  drop-nil zero = refl
  drop-nil (suc a) = refl

  drop-drop : (a b : ℕ) (xs : List A) → drop a (drop b xs) ≡ drop (b + a) xs
  drop-drop a zero xs = rw zero-add
  drop-drop a (suc b) [] = drop-nil a ∙ sym (drop-nil (suc b + a))
  drop-drop a (suc b) (x ∷ xs) = drop-drop a b xs ∙ sym (rw (add.suc b a))

  newest-newest : (c : ℕ) (xs ys : List A) → newest c (newest c xs ++ ys) ≡ newest c (xs ++ ys)
  newest-newest c xs ys =
      let d = length xs - c in
      let e = drop-append d xs ys (omega arith) in
      let l = length-append xs ys in
      ap (newest c) (sym e)
      ∙ drop-drop (length (drop d (xs ++ ys)) - c) d (xs ++ ys)
      ∙ ap (λ k. drop k (xs ++ ys)) (omega (arith, length-drop d (xs ++ ys), l))

  newest-short : (c : ℕ) (xs : List A) → length xs ≤ c → newest c xs ≡ xs
  newest-short c xs h =
      let none_over : length xs - c ≡ 0 = omega arith in ap (λ k. drop k xs) none_over

  pub oldest-step :
      (c : ℕ) (ch : Chan A) (m : A)
      → 0 < c
      → Fits c ch
      → let ch' = chan_of (handle drop_oldest ch m quiets) in
        (ch'.buffer ≡ newest c (ch.buffer ++ m ∷ [])) × (ch'.capacity ≡ c)
  oldest-step c ch m p f = elim (Bool-cases (ltb (length ch.buffer) ch.capacity)) [
    | inl y ↦
        let r = oldest-room ch m y in
        let l = length-append ch.buffer (m ∷ []) in
        (
          r.0
              ∙ sym (
                  newest-short c (ch.buffer ++ m ∷ [])
                    (omega (arith, l, ltb→lt (length ch.buffer) ch.capacity y, f.capacity_is))),
          r.1 ∙ f.capacity_is,
        )
    | inr n ↦
        let g = ltb→ge (length ch.buffer) ch.capacity n in
        let full : length ch.buffer ≡ c = omega (arith, f.capacity_is, f.within) in
        let r =
          oldest-full ch m n (lt→ltb _ _ (omega arith))
            (lt→ltb _ _ (omega (arith, length-drop 1 ch.buffer, f.capacity_is))) in
        let l = length-append ch.buffer (m ∷ []) in
        let one_over : ◌≡◌ {A = ℕ} 1 (length (ch.buffer ++ m ∷ []) - c) = omega (arith, l) in
        (
          r.0
              ∙ sym (drop-append 1 ch.buffer (m ∷ []) (omega arith))
              ∙ ap (λ k. drop k (ch.buffer ++ m ∷ [])) one_over,
          r.1 ∙ f.capacity_is,
        )
  ]

  -- While nobody receives, a channel under the policy that drops the oldest message holds, after any
  -- messages, the newest ones that fit its capacity, which is not 0.
  pub feed-drop_oldest :
      (c : ℕ) (ch : Chan A) (ms : List A)
      → 0 < c
      → Fits c ch
      → (feed drop_oldest ch ms).buffer ≡ newest c (ch.buffer ++ ms)
  unfolding feed
  feed-drop_oldest c ch [] p f =
      sym (ap (newest c) (append-nil ch.buffer) ∙ newest-short c ch.buffer f.within)
  feed-drop_oldest c ch (m ∷ ms) p f =
      let ch' = chan_of (handle drop_oldest ch m quiets) in
      let s = oldest-step c ch m p f in
      feed-drop_oldest c ch' ms p (handle-Fits c drop_oldest ch m quiets f)
      ∙ ap (λ t. newest c (t ++ ms)) s.0
      ∙ newest-newest c (ch.buffer ++ m ∷ []) ms
      ∙ ap (newest c) (append_assoc ch.buffer (m ∷ []) ms)

  take-full : (xs ys : List A) → take (length xs) (xs ++ ys) ≡ xs
  take-full [] ys = refl
  take-full (x ∷ xs) ys = ap (λ t. x ∷ t) (take-full xs ys)

  take-short : (c : ℕ) (xs : List A) → length xs ≤ c → take c xs ≡ xs
  take-short zero [] h = refl
  take-short zero (x ∷ xs) h = absurd (omega arith)
  take-short (suc c) [] h = refl
  take-short (suc c) (x ∷ xs) h = ap (λ t. x ∷ t) (take-short c xs (omega arith))

  -- Under the policy that drops the newest message it holds the oldest ones that fit.
  feed-drop_newest :
      (c : ℕ) (ch : Chan A) (ms : List A)
      → Fits c ch
      → (feed drop_newest ch ms).buffer ≡ take c (ch.buffer ++ ms)
  unfolding feed
  feed-drop_newest c ch [] f =
      sym (ap (take c) (append-nil ch.buffer) ∙ take-short c ch.buffer f.within)
  feed-drop_newest c ch (m ∷ ms) f =
      let ch' = chan_of (handle drop_newest ch m quiets) in
      let s = newest-room ch m in
      let ih = feed-drop_newest c ch' ms (handle-Fits c drop_newest ch m quiets f) in
      elim (Bool-cases (ltb (length ch.buffer) ch.capacity)) [
        | inl y ↦
            ih
            ∙ ap (λ t. take c (t ++ ms)) (s.0 ∙ rw y refl)
            ∙ ap (take c) (append_assoc ch.buffer (m ∷ []) ms)
        | inr n ↦
            let g = ltb→ge (length ch.buffer) ch.capacity n in
            let full : length ch.buffer ≡ c = omega (arith, f.capacity_is, f.within) in
            ih
            ∙ ap (λ t. take c (t ++ ms)) (s.0 ∙ rw n refl)
            ∙ ap (λ k. take k (ch.buffer ++ ms)) (sym full)
            ∙ take-full ch.buffer ms
            ∙ sym (take-full ch.buffer (m ∷ ms))
            ∙ ap (λ k. take k (ch.buffer ++ m ∷ ms)) full
      ]
