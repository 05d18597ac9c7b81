-- ===== src/Intracom/Policy/Bounds.antt =====
-- A policy never overfills a channel, whatever consumers do meanwhile.
use rxdaemon.Prelude.{
  ℕ, ◌≤◌, String, ◌≡◌, refl, ◌∙◌, subst, Bool, true, false, ◌&&◌, List, [], ◌∷◌, Option, none, some,
  arith, length, length-append, length-drop, Bool-cases, Option-cases, inl, inr,
}
use mathlib.Core.Option.{some-injective}
use rxdaemon.Intracom.Channel.{
  Chan, Case, stop_case, send_case, receive_case, timer_case, Moment, quiet, send, discard,
  Selected, poll, await, choose, ready, first_ready, listed, taken_by,
}
use rxdaemon.Intracom.Policy.{
  Policy, drop_none, drop_oldest, drop_newest, drop_oldest_after_timeout, drop_newest_after_timeout,
  Handled, push_again, drop_one, push_or, push_until_timeout, handle, chan_of, send_or_stop,
  drop_or_stop, send_or_timeout,
}

-- The channel has capacity `c`, and its buffer is within it.
pub record Fits {ℓ} {A : Type ℓ} (c : ℕ) (ch : Chan A) : Type ℓ where
  pub capacity_is : ch.capacity ≡ c
  pub within : length ch.buffer ≤ c

module _ {ℓ} {A : Type ℓ} (c : ℕ) where
  -- A select keeps the channel within its bounds, and chooses to send only where there is room.
  pub record Sound (s : Selected A) : Type ℓ where
    pub fits : Fits c s.chan
    pub room : s.case ≡ some send_case → ready s.moment s.chan send_case ≡ true

and_right : (a b : Bool) → (a && b) ≡ true → b ≡ true
and_right a b h = ground arith

module _ {ℓ} {A : Type ℓ} where
  first_ready-ready :
      (m : Moment) (ch : Chan A) (cases : List Case) (d : Case)
      → first_ready m ch cases ≡ some d
      → ready m ch d ≡ true
  unfolding first_ready
  first_ready-ready m ch [] d h = cc
  first_ready-ready m ch (e ∷ es) d h = elim (Bool-cases (ready m ch e)) [
    | inl y ↦ subst (λ k. ready m ch k ≡ true) (some-injective e d (rw y at h)) y
    | inr n ↦ first_ready-ready m ch es d (rw n at h)
  ]

  -- A select chooses only what is ready.
  pub choose-ready :
      (m : Moment) (ch : Chan A) (cases : List Case) (d : Case)
      → choose m ch cases ≡ some d
      → ready m ch d ≡ true
  unfolding choose
  choose-ready m ch cases d h = elim (Bool-cases (listed m.chosen cases && ready m ch m.chosen)) [
    | inl y ↦
        subst (λ k. ready m ch k ≡ true) (some-injective m.chosen d (rw y at h)) (and_right _ _ y)
    | inr n ↦ first_ready-ready m ch cases d (rw n at h)
  ]

  taken_by-Fits : (c : ℕ) (m : Moment) (ch : Chan A) → Fits c ch → Fits c (taken_by m ch)
  unfolding taken_by
  taken_by-Fits c m ch f = record {
    capacity_is = f.capacity_is;
    within = omega (arith, length-drop m.taken ch.buffer, f.within);
  }

  poll-Sound :
      (c : ℕ) (cases : List Case) (ms : List Moment) (ch : Chan A)
      → Fits c ch
      → Sound c (poll cases ms ch)
  unfolding poll
  poll-Sound c cases [] ch f = record { fits = f; room = choose-ready quiet ch cases send_case }
  poll-Sound c cases (m ∷ ms) ch f = record {
    fits = taken_by-Fits c m ch f;
    room = choose-ready m (taken_by m ch) cases send_case;
  }

  await-Sound :
      (c : ℕ) (cases : List Case) (ms : List Moment) (ch : Chan A)
      → Fits c ch
      → Sound c (await cases ms ch)
  unfolding await
  await-Sound c cases [] ch f = record { fits = f; room = λ h. cc }
  await-Sound c cases (m ∷ ms) ch f = elim (Option-cases (choose m (taken_by m ch) cases)) [
    | inl n ↦ rw (n, await) (await-Sound c cases ms (taken_by m ch) (taken_by-Fits c m ch f))
    | inr (d, e) ↦
        rw (e, await)
          (record {
            fits = taken_by-Fits c m ch f;
            room = λ h. choose-ready m (taken_by m ch) cases send_case (e ∙ h);
          })
  ]

  send-Fits :
      (c : ℕ) (m : Moment) (message : A) (ch : Chan A)
      → Fits c ch
      → ready m ch send_case ≡ true
      → Fits c (send m message ch)
  unfolding send ready
  send-Fits c m message ch f r =
      ground (arith, f.within, f.capacity_is, length-append ch.buffer (message ∷ []))

  discard-Fits : (c : ℕ) (ch : Chan A) → Fits c ch → Fits c (discard ch)
  unfolding discard
  discard-Fits c ch f = record {
    capacity_is = f.capacity_is;
    within = omega (arith, length-drop 1 ch.buffer, f.within);
  }

  push_again-Fits :
      (c : ℕ) (failure : String) (message : A) (s : Selected A) (o : Option Case)
      → s.case ≡ o
      → Sound c s
      → Fits c (chan_of (push_again failure message s))
  unfolding push_again
  push_again-Fits c failure message s (some send_case) e v =
      rw (e, push_again) (send-Fits c s.moment message s.chan v.fits (v.room e))
  push_again-Fits c failure message s (some _) e v = rw (e, push_again) v.fits
  push_again-Fits c failure message s none e v = rw (e, push_again) v.fits

  push_or-Fits :
      (c : ℕ) (message : A) (s : Selected A) (otherwise : Handled A) (o : Option Case)
      → s.case ≡ o
      → Sound c s
      → Fits c (chan_of otherwise)
      → Fits c (chan_of (push_or message s otherwise))
  unfolding push_or
  push_or-Fits c message s otherwise (some send_case) e v f =
      rw (e, push_or) (send-Fits c s.moment message s.chan v.fits (v.room e))
  push_or-Fits c message s otherwise (some stop_case) e v f = rw (e, push_or) v.fits
  push_or-Fits c message s otherwise (some receive_case) e v f = rw (e, push_or) f
  push_or-Fits c message s otherwise (some timer_case) e v f = rw (e, push_or) f
  push_or-Fits c message s otherwise none e v f = rw (e, push_or) f

  push_until_timeout-Fits :
      (c : ℕ) (message : A) (s : Selected A) (otherwise : Handled A) (o : Option Case)
      → s.case ≡ o
      → Sound c s
      → Fits c (chan_of otherwise)
      → Fits c (chan_of (push_until_timeout message s otherwise))
  unfolding push_until_timeout
  push_until_timeout-Fits c message s otherwise (some send_case) e v f =
      rw (e, push_until_timeout) (send-Fits c s.moment message s.chan v.fits (v.room e))
  push_until_timeout-Fits c message s otherwise (some timer_case) e v f =
      rw (e, push_until_timeout) f
  push_until_timeout-Fits c message s otherwise (some stop_case) e v f =
      rw (e, push_until_timeout) v.fits
  push_until_timeout-Fits c message s otherwise (some receive_case) e v f =
      rw (e, push_until_timeout) v.fits
  push_until_timeout-Fits c message s otherwise none e v f = rw (e, push_until_timeout) v.fits

  drop_one-Fits :
      (c : ℕ) (failure : String) (message : A) (s : Selected A) (o : Option Case)
      → s.case ≡ o
      → Sound c s
      → Fits c (chan_of (drop_one failure message s))
  unfolding drop_one
  drop_one-Fits c failure message s (some receive_case) e v =
      rw (e, drop_one)
        (push_again-Fits c failure message (poll send_or_stop s.later (discard s.chan)) _ refl
          (poll-Sound c send_or_stop s.later (discard s.chan) (discard-Fits c s.chan v.fits)))
  drop_one-Fits c failure message s (some stop_case) e v = rw (e, drop_one) v.fits
  drop_one-Fits c failure message s (some send_case) e v = rw (e, drop_one) v.fits
  drop_one-Fits c failure message s (some timer_case) e v = rw (e, drop_one) v.fits
  drop_one-Fits c failure message s none e v = rw (e, drop_one) v.fits

  -- Whatever the policy and whatever happens around it, Handle keeps the capacity of the channel and
  -- the number of messages in its buffer within it.
  pub handle-Fits :
      (c : ℕ) (policy : Policy) (ch : Chan A) (message : A) (ms : List Moment)
      → Fits c ch
      → Fits c (chan_of (handle policy ch message ms))
  unfolding handle
  handle-Fits c drop_none ch message ms f =
      let v = await-Sound c send_or_stop ms ch f in
      push_or-Fits c message (await send_or_stop ms ch) _ _ refl v v.fits
  handle-Fits c drop_oldest ch message ms f =
      let s = poll send_or_stop ms ch in
      let v = poll-Sound c send_or_stop ms ch f in
      push_or-Fits c message s _ _ refl v (
        drop_one-Fits c _ message (await drop_or_stop s.later s.chan) _ refl
          (await-Sound c drop_or_stop s.later s.chan v.fits))
  handle-Fits c drop_newest ch message ms f =
      let v = poll-Sound c send_or_stop ms ch f in
      push_or-Fits c message (poll send_or_stop ms ch) _ _ refl v v.fits
  handle-Fits c (drop_oldest_after_timeout false) ch message ms f =
      let v = poll-Sound c send_or_stop ms ch f in
      push_or-Fits c message (poll send_or_stop ms ch) _ _ refl v v.fits
  handle-Fits c (drop_oldest_after_timeout true) ch message ms f =
      let s = poll send_or_stop ms ch in
      let v = poll-Sound c send_or_stop ms ch f in
      let t = await send_or_timeout s.later s.chan in
      let w = await-Sound c send_or_timeout s.later s.chan v.fits in
      push_or-Fits c message s _ _ refl v (
        push_until_timeout-Fits c message t _ _ refl w (
          drop_one-Fits c _ message (await drop_or_stop t.later t.chan) _ refl
            (await-Sound c drop_or_stop t.later t.chan w.fits)))
  handle-Fits c (drop_newest_after_timeout false) ch message ms f =
      let v = poll-Sound c send_or_stop ms ch f in
      push_or-Fits c message (poll send_or_stop ms ch) _ _ refl v v.fits
  handle-Fits c (drop_newest_after_timeout true) ch message ms f =
      let s = poll send_or_stop ms ch in
      let v = poll-Sound c send_or_stop ms ch f in
      let t = await send_or_timeout s.later s.chan in
      let w = await-Sound c send_or_timeout s.later s.chan v.fits in
      push_or-Fits c message s _ _ refl v (push_until_timeout-Fits c message t _ _ refl w w.fits)
