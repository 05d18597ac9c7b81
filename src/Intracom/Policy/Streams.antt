-- ===== src/Intracom/Policy/Streams.antt =====
-- What a policy does to the stream of messages of a channel: those that consumers have received,
-- followed by those in the buffer.
pub mod Handling
use rxdaemon.Prelude.{
  String, ◌≡◌, refl, sym, ap, subst, ◌∙◌, Bool, true, false, ◌&&◌, List, [], ◌∷◌, ◌++◌, Option,
  none, some, arith, ltb, ltb→lt, ◌==◌, length, drop, take-append-drop, append_assoc, append-nil,
  Bool-cases, Option-cases, ◌⊎◌, inl, inr,
}
use rxdaemon.Intracom.Channel.{
  Chan, Case, stop_case, send_case, receive_case, timer_case, Moment, send, discard, Selected, poll,
  await, choose, ready, taken_by, handed_over,
}
use rxdaemon.Intracom.Policy.{
  Policy, drop_none, drop_oldest, drop_newest, drop_oldest_after_timeout, drop_newest_after_timeout,
  Handled, returned, blocked, panicked, push_again, drop_one, push_or, push_until_timeout, handle,
  send_or_stop, drop_or_stop, send_or_timeout,
}
use rxdaemon.Intracom.Policy.Bounds.{choose-ready}

module _ {ℓ} {A : Type ℓ} where
  abbrev stream : Chan A → List A
  stream ch = ch.received ++ ch.buffer

  -- One message is taken out, and the order of the others is kept.
  pub record Loses (old new : List A) : Type ℓ where
    pub before : List A
    pub lost : A
    pub after : List A
    pub old_is : old ≡ before ++ lost ∷ after
    pub new_is : new ≡ before ++ after

  -- What the result of Handle says of the message: with nil it is at the end of the stream, or it
  -- was dropped by a policy that may; otherwise the stream is as it was.
  abbrev Explained : Bool → A → List A → Handled A → Type ℓ
  Explained newest message mid (returned none ch) =
      (stream ch ≡ mid ++ message ∷ []) ⊎ ((newest ≡ true) × (stream ch ≡ mid))
  Explained newest message mid (returned (some e) ch) = stream ch ≡ mid
  Explained newest message mid (blocked ch) = stream ch ≡ mid
  Explained newest message mid (panicked ch) = stream ch ≡ mid

  -- The stream first loses at most one message, by a policy that may, and then the result explains it.
  abbrev pub Accounted : Bool → Bool → A → List A → Handled A → Type ℓ
  Accounted oldest newest message old h =
      (mid : List A) × ((mid ≡ old) ⊎ ((oldest ≡ true) × Loses old mid))
      × Explained newest message mid h

  stream-taken_by : (m : Moment) (ch : Chan A) → stream (taken_by m ch) ≡ stream ch
  unfolding taken_by
  stream-taken_by m ch = simp (append_assoc, take-append-drop)

  stream-poll :
      (cases : List Case) (ms : List Moment) (ch : Chan A)
      → stream (poll cases ms ch).chan ≡ stream ch
  unfolding poll
  stream-poll cases [] ch = refl
  stream-poll cases (m ∷ ms) ch = stream-taken_by m ch

  stream-await :
      (cases : List Case) (ms : List Moment) (ch : Chan A)
      → stream (await cases ms ch).chan ≡ stream ch
  unfolding await
  stream-await cases [] ch = refl
  stream-await cases (m ∷ ms) ch = elim (Option-cases (choose m (taken_by m ch) cases)) [
    | inl n ↦ rw (n, await) (stream-await cases ms (taken_by m ch) ∙ stream-taken_by m ch)
    | inr (d, e) ↦ rw (e, await) (stream-taken_by m ch)
  ]

  nil_of_length : (xs : List A) → length xs ≡ 0 → xs ≡ []
  nil_of_length [] h = refl
  nil_of_length (x ∷ xs) h = absurd (omega arith)

  past_nothing :
      (r b : List A) (message : A) → b ≡ [] → (r ++ message ∷ []) ++ b ≡ (r ++ b) ++ message ∷ []
  past_nothing r [] message h = simp append-nil
  past_nothing r (x ∷ b) message h = cc

  stream-send :
      (m : Moment) (message : A) (ch : Chan A)
      → stream (send m message ch) ≡ stream ch ++ message ∷ []
  unfolding send handed_over
  stream-send m message ch = elim (Bool-cases (m.waiting && length ch.buffer == 0)) [
    | inl y ↦
        let e = nil_of_length ch.buffer (ground arith) in
        rw (y, send) (past_nothing ch.received ch.buffer message e)
    | inr n ↦ rw (n, send) (sym (append_assoc ch.received ch.buffer (message ∷ [])))
  ]

  -- The oldest message of the buffer is lost, if there is one.
  discard-Loses :
      (ch : Chan A) → ltb 0 (length ch.buffer) ≡ true → Loses (stream ch) (stream (discard ch))
  unfolding discard
  discard-Loses ch h = go ch.buffer refl h
    where
      go :
          (b : List A)
          → ch.buffer ≡ b
          → ltb 0 (length b) ≡ true
          → Loses (ch.received ++ ch.buffer) (ch.received ++ drop 1 ch.buffer)
      go [] e l = absurd (omega (arith, ltb→lt 0 0 l))
      go (x ∷ b) e l = record {
        before = ch.received;
        lost = x;
        after = b;
        old_is = ap (λ t. ch.received ++ t) e;
        new_is = ap (λ t. ch.received ++ drop 1 t) e;
      }

  push_again-Explained :
      (failure : String) (message : A) (mid : List A) (s : Selected A) (o : Option Case)
      → s.case ≡ o
      → stream s.chan ≡ mid
      → Explained false message mid (push_again failure message s)
  unfolding push_again
  push_again-Explained failure message mid s (some send_case) e h =
      rw (e, push_again) (inl (stream-send s.moment message s.chan ∙ ap (λ t. t ++ message ∷ []) h))
  push_again-Explained failure message mid s (some _) e h = rw (e, push_again) h
  push_again-Explained failure message mid s none e h = rw (e, push_again) h

  await-ready :
      (cases : List Case) (ms : List Moment) (ch : Chan A) (d : Case)
      → (await cases ms ch).case ≡ some d
      → ready (await cases ms ch).moment (await cases ms ch).chan d ≡ true
  unfolding await
  await-ready cases [] ch d h = cc
  await-ready cases (m ∷ ms) ch d h = elim (Option-cases (choose m (taken_by m ch) cases)) [
    | inl n ↦ rw (n, await) (await-ready cases ms (taken_by m ch) d (rw (n, await) at h))
    | inr (c, e) ↦ rw (e, await) (choose-ready m (taken_by m ch) cases d (e ∙ rw (e, await) at h))
  ]

  drop_one-Accounted :
      (failure : String) (message : A) (old : List A) (s : Selected A) (o : Option Case)
      → s.case ≡ o
      → ((d : Case) → s.case ≡ some d → ready s.moment s.chan d ≡ true)
      → stream s.chan ≡ old
      → Accounted true false message old (drop_one failure message s)
  unfolding drop_one ready
  drop_one-Accounted failure message old s (some receive_case) e r h =
      let again = poll send_or_stop s.later (discard s.chan) in
      (
        stream (discard s.chan),
        inr (
          refl,
          subst (λ t. Loses t (stream (discard s.chan))) h
              (discard-Loses s.chan (r receive_case e)),
        ),
        rw (e, drop_one)
            (push_again-Explained failure message (stream (discard s.chan)) again again.case refl
              (stream-poll send_or_stop s.later (discard s.chan))),
      )
  drop_one-Accounted failure message old s (some stop_case) e r h =
      (old, inl refl, rw (e, drop_one) h)
  drop_one-Accounted failure message old s (some send_case) e r h =
      (old, inl refl, rw (e, drop_one) h)
  drop_one-Accounted failure message old s (some timer_case) e r h =
      (old, inl refl, rw (e, drop_one) h)
  drop_one-Accounted failure message old s none e r h = (old, inl refl, rw (e, drop_one) h)
