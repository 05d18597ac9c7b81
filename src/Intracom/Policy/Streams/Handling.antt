-- ===== src/Intracom/Policy/Streams/Handling.antt =====
-- What becomes of the stream of a channel when Handle of a policy is called.
use rxdaemon.Prelude.{
  String, ◌≡◌, refl, ap, ◌∙◌, Bool, true, false, List, [], ◌∷◌, ◌++◌, Option, none, some, inl, inr,
}
use rxdaemon.Intracom.Channel.{
  Chan, Case, stop_case, send_case, receive_case, timer_case, Moment, Selected, poll, await,
}
use rxdaemon.Intracom.Policy.{
  Policy, drop_none, drop_oldest, drop_newest, drop_oldest_after_timeout, drop_newest_after_timeout,
  Handled, returned, blocked, panicked, drop_one, push_or, push_until_timeout, handle, send_or_stop,
  drop_or_stop, send_or_timeout,
}
use rxdaemon.Intracom.Policy.Streams.{
  stream, Accounted, stream-poll, stream-await, stream-send, await-ready, drop_one-Accounted,
}

module _ {ℓ} {A : Type ℓ} (oldest newest : Bool) (message : A) (old : List A) where
  push_or-Accounted :
      (s : Selected A) (otherwise : Handled A) (o : Option Case)
      → s.case ≡ o
      → stream s.chan ≡ old
      → Accounted oldest newest message old otherwise
      → Accounted oldest newest message old (push_or message s otherwise)
  unfolding push_or
  push_or-Accounted s otherwise (some send_case) e h a = (
    old,
    inl refl,
    rw (e, push_or) (inl (stream-send s.moment message s.chan ∙ ap (λ t. t ++ message ∷ []) h)),
  )
  push_or-Accounted s otherwise (some stop_case) e h a = (old, inl refl, rw (e, push_or) h)
  push_or-Accounted s otherwise (some receive_case) e h a = rw (e, push_or) a
  push_or-Accounted s otherwise (some timer_case) e h a = rw (e, push_or) a
  push_or-Accounted s otherwise none e h a = rw (e, push_or) a

  push_until_timeout-Accounted :
      (s : Selected A) (otherwise : Handled A) (o : Option Case)
      → s.case ≡ o
      → stream s.chan ≡ old
      → Accounted oldest newest message old otherwise
      → Accounted oldest newest message old (push_until_timeout message s otherwise)
  unfolding push_until_timeout
  push_until_timeout-Accounted s otherwise (some send_case) e h a = (
    old,
    inl refl,
    rw (e, push_until_timeout)
        (inl (stream-send s.moment message s.chan ∙ ap (λ t. t ++ message ∷ []) h)),
  )
  push_until_timeout-Accounted s otherwise (some timer_case) e h a = rw (e, push_until_timeout) a
  push_until_timeout-Accounted s otherwise (some stop_case) e h a =
      (old, inl refl, rw (e, push_until_timeout) h)
  push_until_timeout-Accounted s otherwise (some receive_case) e h a =
      (old, inl refl, rw (e, push_until_timeout) h)
  push_until_timeout-Accounted s otherwise none e h a =
      (old, inl refl, rw (e, push_until_timeout) h)

abbrev drops_oldest : Policy → Bool
drops_oldest drop_oldest = true
drops_oldest (drop_oldest_after_timeout timer) = true
drops_oldest _ = false

abbrev drops_newest : Policy → Bool
drops_newest drop_newest = true
drops_newest (drop_newest_after_timeout timer) = true
drops_newest _ = false

module _ {ℓ} {A : Type ℓ} where
  drop_when_full :
      (failure : String) (message : A) (old : List A) (ms : List Moment) (ch : Chan A)
      → stream ch ≡ old
      → Accounted true false message old (drop_one failure message (await drop_or_stop ms ch))
  drop_when_full failure message old ms ch h =
      drop_one-Accounted failure message old (await drop_or_stop ms ch)
        (await drop_or_stop ms ch).case refl (await-ready drop_or_stop ms ch)
        (stream-await drop_or_stop ms ch ∙ h)

  -- Whatever the policy and whatever happens around it, Handle keeps the order of the messages and
  -- repeats none. A policy that drops the oldest message loses at most one of those before; if Handle
  -- then returns nil the new message is last in the stream, or was dropped by a policy that drops the
  -- newest; and if it returns an error, or does not return, the new message is not in the stream.
  pub handle-Accounted :
      (policy : Policy) (ch : Chan A) (message : A) (ms : List Moment)
      → Accounted
          (drops_oldest policy)
          (drops_newest policy)
          message
          (stream ch)
          (handle policy ch message ms)
  unfolding handle
  handle-Accounted drop_none ch message ms =
      let s = await send_or_stop ms ch in
      push_or-Accounted false false message (stream ch) s (blocked s.chan) s.case refl
        (stream-await send_or_stop ms ch) (stream ch, inl refl, stream-await send_or_stop ms ch)
  handle-Accounted drop_oldest ch message ms =
      let s = poll send_or_stop ms ch in
      let e = stream-poll send_or_stop ms ch in
      push_or-Accounted true false message (stream ch) s _ s.case refl e
        (drop_when_full "failed to push message" message (stream ch) s.later s.chan e)
  handle-Accounted drop_newest ch message ms =
      let s = poll send_or_stop ms ch in
      let e = stream-poll send_or_stop ms ch in
      push_or-Accounted false true message (stream ch) s (returned none s.chan) s.case refl e
        (stream ch, inl refl, inr (refl, e))
  handle-Accounted (drop_oldest_after_timeout false) ch message ms =
      let s = poll send_or_stop ms ch in
      let e = stream-poll send_or_stop ms ch in
      push_or-Accounted true false message (stream ch) s (panicked s.chan) s.case refl e
        (stream ch, inl refl, e)
  handle-Accounted (drop_oldest_after_timeout true) ch message ms =
      let s = poll send_or_stop ms ch in
      let e = stream-poll send_or_stop ms ch in
      let t = await send_or_timeout s.later s.chan in
      let f = stream-await send_or_timeout s.later s.chan ∙ e in
      push_or-Accounted true false message (stream ch) s _ s.case refl e (
        push_until_timeout-Accounted true false message (stream ch) t _ t.case refl f (
          drop_when_full "timeout exceeded, failed to push message" message (stream ch) t.later
            t.chan f))
  handle-Accounted (drop_newest_after_timeout false) ch message ms =
      let s = poll send_or_stop ms ch in
      let e = stream-poll send_or_stop ms ch in
      push_or-Accounted false true message (stream ch) s (panicked s.chan) s.case refl e
        (stream ch, inl refl, e)
  handle-Accounted (drop_newest_after_timeout true) ch message ms =
      let s = poll send_or_stop ms ch in
      let e = stream-poll send_or_stop ms ch in
      let t = await send_or_timeout s.later s.chan in
      let f = stream-await send_or_timeout s.later s.chan ∙ e in
      push_or-Accounted false true message (stream ch) s _ s.case refl e (
        push_until_timeout-Accounted false true message (stream ch) t (returned none t.chan) t.case
          refl f (stream ch, inl refl, inr (refl, f)))
