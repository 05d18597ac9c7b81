-- ===== src/Daemon/LogWatcher/Accounts.antt =====
-- No service log entry is lost or written twice, and the semaphore's bound holds.
use rxdaemon.Prelude.{
  ℕ, ◌+◌, ◌≤◌, ◌≡◌, refl, sym, ap, subst, ◌∙◌, Bool, true, false, List, [], ◌∷◌, ◌++◌, Option, none,
  some, arith, length, length-append, if◌then◌else◌,
}
use rxdaemon.Daemon.LogWatcher.{
  LogWatcher, log_capacity, new_watcher, Move, sends, send_panics, takes, begins, writes, closes,
  finishes, Reach, here, next,
}

-- How many entries a test picks.
abbrev pub count {ℓ} : {E : Type ℓ} → (E → Bool) → List E → ℕ
count p [] = 0
count p (x ∷ xs) = (if p x then 1 else 0) + count p xs

abbrev pub held {ℓ} : {E : Type ℓ} → Option E → List E
held none = []
held (some e) = e ∷ []

-- Each entry sent is in one place, as often as it was sent; the semaphore and the channel hold no more
-- than they have room for; after the end of the loop the channel is closed and empty.
pub record Accounted {ℓ} {E : Type ℓ} (s : LogWatcher E) : Type ℓ where
  pub total :
      (p : E → Bool)
      → count p s.sent
        ≡ count p s.queue + count p (held s.holding) + count p s.writing + count p s.written
  pub bounded : length s.writing ≤ s.limit
  pub fits : length s.queue ≤ log_capacity
  pub ended : s.done ≡ true → (s.queue ≡ []) × (s.holding ≡ none) × (s.is_open ≡ false)

module _ {ℓ} {E : Type ℓ} where
  pub count-append : (p : E → Bool) (xs ys : List E) → count p (xs ++ ys) ≡ count p xs + count p ys
  count-append p [] ys = omega arith
  count-append p (x ∷ xs) ys = omega (arith, count-append p xs ys)

  Move-Accounted : {s t : LogWatcher E} → Move s t → Accounted s → Accounted t
  Move-Accounted {s = s} (sends e o l d) v = subst Accounted (sym d) (record {
    total = λ p.
        omega (arith, v.total p, count-append p s.queue (e ∷ []), count-append p s.sent (e ∷ []));
    bounded = v.bounded;
    fits = omega (arith, length-append s.queue (e ∷ []));
    ended = λ h. absurd (cc (v.ended h).2);
  })
  Move-Accounted {s = s} (send_panics e o d) v =
      subst Accounted (sym d)
        (record { total = v.total; bounded = v.bounded; fits = v.fits; ended = v.ended })
  Move-Accounted {s = s} (takes e rest h q d) v = subst Accounted (sym d) (record {
    total = λ p. omega (arith, v.total p, ap (λ l. count p l) q, ap (λ o. count p (held o)) h);
    bounded = v.bounded;
    fits = omega (arith, v.fits, ap (λ l. length l) q);
    ended = λ x. absurd (cc (v.ended x).0);
  })
  Move-Accounted {s = s} (begins e h l d) v = subst Accounted (sym d) (record {
    total = λ p. omega (arith, v.total p, ap (λ o. count p (held o)) h);
    bounded = omega arith;
    fits = v.fits;
    ended = λ x. absurd (cc (v.ended x).1);
  })
  Move-Accounted {s = s} (writes front back e q d) v = subst Accounted (sym d) (record {
    total = λ p. omega (
      arith,
      v.total p,
      ap (λ l. count p l) q,
      count-append p front (e ∷ back),
      count-append p front back,
      count-append p s.written (e ∷ []),
    );
    bounded = omega (
      arith,
      v.bounded,
      ap (λ l. length l) q,
      length-append front (e ∷ back),
      length-append front back,
    );
    fits = v.fits;
    ended = v.ended;
  })
  Move-Accounted {s = s} (closes o d) v = subst Accounted (sym d) (record {
    total = v.total;
    bounded = v.bounded;
    fits = v.fits;
    ended = λ x. absurd (cc (v.ended x).2);
  })
  Move-Accounted {s = s} (finishes o q h d) v =
      subst Accounted (sym d)
        (record { total = v.total; bounded = v.bounded; fits = v.fits; ended = λ x. (q, h, o) })

  Reach-Accounted : {s t : LogWatcher E} → Reach s t → Accounted s → Accounted t
  Reach-Accounted here v = v
  Reach-Accounted (next r c m) v = Move-Accounted m (Reach-Accounted r v)

  Move-limit : {s t : LogWatcher E} → Move s t → t.limit ≡ s.limit
  Move-limit (sends e o l d) = ap (λ (s : LogWatcher E). s.limit) d
  Move-limit (send_panics e o d) = ap (λ (s : LogWatcher E). s.limit) d
  Move-limit (takes e rest h q d) = ap (λ (s : LogWatcher E). s.limit) d
  Move-limit (begins e h l d) = ap (λ (s : LogWatcher E). s.limit) d
  Move-limit (writes front back e q d) = ap (λ (s : LogWatcher E). s.limit) d
  Move-limit (closes o d) = ap (λ (s : LogWatcher E). s.limit) d
  Move-limit (finishes o q h d) = ap (λ (s : LogWatcher E). s.limit) d

  pub Reach-limit : {s t : LogWatcher E} → Reach s t → t.limit ≡ s.limit
  Reach-limit here = refl
  Reach-limit (next r c m) = Move-limit m ∙ Reach-limit r

  new_watcher-Accounted : (limit : ℕ) → Accounted (new_watcher {E = E} limit)
  unfolding new_watcher
  new_watcher-Accounted limit = record {
    total = λ p. refl;
    bounded = omega arith;
    fits = omega arith;
    ended = λ x. cc;
  }

  -- Whatever is sent, and however the loop and the writers interleave: each entry sent is in one of the
  -- channel, the loop's hands, a writer's hands and the output, as often as it was sent, for any test
  -- on entries; no more writers run than the daemon's log worker count; and when the loop has ended,
  -- the channel is closed and empty and the loop holds nothing.
  pub log_watcher-IsAccounted :
      (limit : ℕ) (t : LogWatcher E)
      → Reach (new_watcher limit) t
      → ((p : E → Bool)
          → count p t.sent
            ≡ count p t.queue + count p (held t.holding) + count p t.writing + count p t.written)
        × (length t.writing ≤ limit)
        × (t.done ≡ true → (t.queue ≡ []) × (t.holding ≡ none) × (t.is_open ≡ false))
  unfolding new_watcher
  log_watcher-IsAccounted limit t r =
      let v = Reach-Accounted r (new_watcher-Accounted limit) in
      (v.total, subst (λ n. length t.writing ≤ n) (Reach-limit r) v.bounded, v.ended)
