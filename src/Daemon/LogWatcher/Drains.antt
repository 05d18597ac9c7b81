-- ===== src/Daemon/LogWatcher/Drains.antt =====
-- How serviceLogWatcher ends, and what the end of its loop does not wait for.
use rxdaemon.Prelude.{
  ℕ, ◌<◌, ◌≤◌, ◌≡◌, ◌≢◌, refl, sym, ap, subst, ◌∙◌, Bool, true, false, List, [], ◌∷◌, ◌++◌, Option,
  none, some, arith, length, append_assoc, append-nil, Option-cases, Bool-cases, length-append, inl,
  inr,
}
use rxdaemon.Daemon.LogWatcher.{
  LogWatcher, new_watcher, Move, sends, send_panics, takes, begins, writes, closes, finishes, Reach,
  here, next,
}
use rxdaemon.Daemon.LogWatcher.Accounts.{
  count, held, Reach-limit, log_watcher-IsAccounted, count-append,
}

module _ {ℓ} {E : Type ℓ} where
  without : (a b q : List E) (o : Option E) → o ≡ none → (a ++ b) ++ q ≡ a ++ (b ++ (held o ++ q))
  without a b q o n = rw (n, held) (append_assoc a b q)

  with_one :
      (a b q : List E) (o : Option E) (e : E)
      → o ≡ some e
      → ((a ++ b) ++ e ∷ []) ++ q ≡ a ++ (b ++ (held o ++ q))
  with_one a b q o e h = rw (h, held) (simp append_assoc)

  idle : LogWatcher E → List E → LogWatcher E
  idle t w = record t { queue = []; holding = none; writing = []; written = w }

  -- What the log watcher still has to write, in an order in which it can.
  pub rest : LogWatcher E → List E
  rest t = t.writing ++ (held t.holding ++ t.queue)

module _ {ℓ} {E : Type ℓ} (s : LogWatcher E) where
  -- The writers at work finish, the last to start first.
  write_all :
      (xs : List E) (t : LogWatcher E)
      → Reach s t
      → t.panicked ≡ false
      → t.writing ≡ xs
      → Reach s (record t { writing = []; written = t.written ++ xs })
  write_all [] t r c e = subst (λ u. Reach s u) (ground (arith, append-nil t.written)) r
  write_all (x ∷ xs) t r c e =
      subst (λ u. Reach s u) (ground (arith, append_assoc t.written (x ∷ []) xs))
        (write_all xs (record t { writing = xs; written = t.written ++ x ∷ [] })
          (next r c (writes [] xs x e refl)) c refl)

  -- The loop takes the entries of the channel and each one is written.
  take_all :
      (xs : List E) (t : LogWatcher E)
      → Reach s t
      → t.panicked ≡ false
      → 0 < t.limit
      → t.queue ≡ xs
      → t.holding ≡ none
      → t.writing ≡ []
      → Reach s (idle t (t.written ++ xs))
  unfolding idle
  take_all [] t r c l q h w = subst (λ u. Reach s u) (ground (arith, append-nil t.written)) r
  take_all (x ∷ xs) t r c l q h w =
      let a = next r c (takes x xs h q refl) in
      let b = next a c (begins x refl (ground arith) refl) in
      let d = next b c (writes [] [] x (ground arith) refl) in
      subst (λ u. Reach s u) (ground (arith, append_assoc t.written (x ∷ []) xs))
        (take_all xs _ d c l refl refl refl)

  -- The loop ends, after it has got rid of the entry that it holds.
  end_idle :
      (t : LogWatcher E)
      → Reach s t
      → t.panicked ≡ false
      → t.is_open ≡ false
      → 0 < t.limit
      → t.holding ≡ none
      → t.writing ≡ []
      → Reach s (record (idle t (t.written ++ t.queue)) { done = true })
  unfolding idle
  end_idle t r c o l h w = next (take_all t.queue t r c l refl h w) c (finishes o refl refl refl)

  end_all :
      (t : LogWatcher E)
      → Reach s t
      → t.panicked ≡ false
      → t.is_open ≡ false
      → 0 < t.limit
      → Reach s (record (idle t (t.written ++ rest t)) { done = true })
  unfolding idle rest
  end_all t r c o l =
      let a = write_all t.writing t r c refl in
      elim (Option-cases t.holding) [
        | inl n ↦
            subst (λ u. Reach s u)
              (ap (λ w. record (idle t w) { done = true })
                (without t.written t.writing t.queue t.holding n))
              (end_idle _ a c o l n refl)
        | inr (e, h) ↦
            let b = next a c (begins e h l refl) in
            let d = next b c (writes [] [] e refl refl) in
            subst (λ u. Reach s u)
              (ap (λ w. record (idle t w) { done = true })
                (with_one t.written t.writing t.queue t.holding e h))
              (end_idle _ d c o l refl refl)
      ]

module _ {ℓ} {E : Type ℓ} where
  -- With room for at least one writer, once the channel is closed the log watcher can end from every
  -- state, so that every entry sent is written, as often as it was sent, for any test on entries, and
  -- no writer is left.
  pub log_watcher_drains :
      (limit : ℕ) (t : LogWatcher E)
      → 0 < limit
      → Reach (new_watcher limit) t
      → t.panicked ≡ false
      → t.is_open ≡ false
      → (u : LogWatcher E) × Reach t u
        × (u.done ≡ true)
        × (u.writing ≡ [])
        × ((p : E → Bool) → count p u.written ≡ count p t.sent)
  unfolding rest idle new_watcher
  log_watcher_drains limit t l r c o = (
    record (idle t (t.written ++ rest t)) { done = true },
    end_all t t here c o (subst (λ n. 0 < n) (sym (Reach-limit r)) l),
    refl,
    refl,
    λ p. omega (
      arith,
      (log_watcher-IsAccounted limit t r).0 p,
      count-append p t.written (rest t),
      count-append p t.writing (held t.holding ++ t.queue),
      count-append p (held t.holding) t.queue,
    ),
  )

  -- `doneC` does not wait for the writers: for every entry, with room for at least one writer, the loop
  -- can end while the entry was sent and nothing is written.
  done_before_written :
      (limit : ℕ) (e : E)
      → 0 < limit
      → (t : LogWatcher E) × Reach (new_watcher limit) t
        × (t.done ≡ true)
        × (t.sent ≡ e ∷ [])
        × (t.written ≡ [])
  unfolding new_watcher
  done_before_written limit e l =
      let s = new_watcher {E = E} limit in
      let a : Reach s (record s { queue = e ∷ []; sent = e ∷ [] }) =
        next here refl (sends e refl (omega arith) refl) in
      let b = next a refl (takes e [] refl refl refl) in
      let c = next b refl (begins e refl l refl) in
      let d = next c refl (closes refl refl) in
      let f = next d refl (finishes refl refl refl refl) in (_, f, refl, refl, refl)

  length-zero : (xs : List E) → count (λ x. true) xs ≡ 0 → xs ≡ []
  length-zero [] h = refl
  length-zero (x ∷ xs) h = absurd (omega arith)

  nil_of_length : (xs : List E) → length xs ≤ 0 → xs ≡ []
  nil_of_length [] h = refl
  nil_of_length (x ∷ xs) h = absurd (omega arith)

  Move-written :
      {s t : LogWatcher E} → Move s t → length s.writing ≤ 0 → s.written ≡ [] → t.written ≡ []
  Move-written (sends e o l d) z w = ap (λ (s : LogWatcher E). s.written) d ∙ w
  Move-written (send_panics e o d) z w = ap (λ (s : LogWatcher E). s.written) d ∙ w
  Move-written (takes e rest h q d) z w = ap (λ (s : LogWatcher E). s.written) d ∙ w
  Move-written (begins e h l d) z w = ap (λ (s : LogWatcher E). s.written) d ∙ w
  Move-written (writes front back e q d) z w =
      absurd (omega (arith, ap (λ l. length l) q, length-append front (e ∷ back)))
  Move-written (closes o d) z w = ap (λ (s : LogWatcher E). s.written) d ∙ w
  Move-written (finishes o q h d) z w = ap (λ (s : LogWatcher E). s.written) d ∙ w

  Reach-written : {t : LogWatcher E} → Reach (new_watcher 0) t → t.written ≡ []
  unfolding new_watcher
  Reach-written here = refl
  Reach-written (next {t} r c m) =
      Move-written m (log_watcher-IsAccounted 0 t r).1 (Reach-written r)

  sent_of_done : (t : LogWatcher E) → Reach (new_watcher 0) t → t.done ≡ true → t.sent ≡ []
  sent_of_done t r d =
      let (total, bound, end) = log_watcher-IsAccounted 0 t r in
      let (q, h, o) = end d in
      length-zero t.sent (
        omega (
          arith,
          total (λ x. true),
          ap (λ l. count (λ x. true) l) q,
          ap (λ o. count (λ x. true) (held o)) h,
          ap (λ l. count (λ x. true) l) (nil_of_length t.writing bound),
          ap (λ l. count (λ x. true) l) (Reach-written r),
        ))

  -- A daemon whose log worker count is 0 writes no service log entry, and once one is sent its log
  -- watcher, for which Start waits, has not ended and never does.
  pub no_workers :
      (t : LogWatcher E)
      → Reach (new_watcher 0) t
      → (t.writing ≡ []) × (t.written ≡ []) × (t.sent ≢ [] → t.done ≡ false)
  no_workers t r = (
    nil_of_length t.writing (log_watcher-IsAccounted 0 t r).1,
    Reach-written r,
    λ n. elim (Bool-cases t.done) [ inl y ↦ absurd (n (sent_of_done t r y)) | inr n' ↦ n' ],
  )
