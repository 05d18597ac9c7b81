-- ===== src/Daemon/Start/Launching.antt =====
-- A Start that launches services, and what it comes to.
use rxdaemon.Prelude.{
  ℕ, String, ◌≡◌, ◌≢◌, refl, sym, ap, subst, ◌∙◌, true, false, List, [], ◌∷◌, map, none, some,
  arith, ◌==◌, str_eq, eq_refl, if◌then◌else◌, if-true, if-false, length, Dict, lookup, keys, zero,
  suc, take, ◌++◌, ◌≤◌, ltb, ge→ltb, contains, All, All-map, All-both, Bool-cases, inl, inr,
}
use rxdaemon.States.{ServiceStates, StateUpdate, internal_service_states}
use rxdaemon.States.Publish.{states_watcher}
use rxdaemon.Intracom.Registry.{Intracom, created, create_topic, close_intracom}
use rxdaemon.Intracom.Registry.Topics.{added, create_topic-new, closed-close_intracom}
use rxdaemon.Daemon.{Daemon}
use rxdaemon.Daemon.Services.{Manager, DaemonService}
use rxdaemon.Daemon.Notify.{Notifier, notifier, no_notifier, new_systemd_notifier}
use rxdaemon.Daemon.Adding.{IsPaired}
use rxdaemon.Daemon.Start.Shutdown.{Arrives}
use rxdaemon.Daemon.Start.Arriving.{arriving-Arrives, stuck_iff}
use rxdaemon.Daemon.Start.{
  Surroundings, notifier_error, nothing_started, launch, run_services, with_topic, with_notifier,
  start, states_topic, states_tag, Result, returns, waits_for_services, waits_for_logs, all_over,
  is_stuck, prestart_over, launched_by, to_send, arriving, maps_of, done_by, shut_down,
}

lookup-contained {ℓ} :
    {V : Type ℓ} (k : String) (m : Dict V)
    → contains k (keys m) ≡ true
    → (v : V) × (lookup k m ≡ some v)
unfolding lookup
lookup-contained k [] h = cc
lookup-contained k ((j, v) ∷ m) h = elim (Bool-cases (str_eq j k)) [
  | inl y ↦ (v, rw y refl)
  | inr n ↦ let (w, e) = lookup-contained k m (rw n at h) in (w, rw n e)
]

keys-contained {ℓ} : {V : Type ℓ} (m : Dict V) → All (λ e. contains e.0 (keys m) ≡ true) m
keys-contained [] = tt
keys-contained ((k, v) ∷ m) =
    (ground (arith, eq_refl k), All-map m (λ e h. ground (arith, h)) (keys-contained m))

launch-found :
    (services : Dict DaemonService) (managers : Dict Manager)
    → All (λ e. (e.1.name ≡ e.0) × (contains e.0 (keys managers) ≡ true)) services
    → map (λ l. l.0.name) (launch services managers) ≡ keys services
unfolding launch
launch-found [] managers h = refl
launch-found ((k, s) ∷ services) managers h =
    let (m, e) =
      lookup-contained s.name managers
        (subst (λ q. contains q (keys managers) ≡ true) (sym h.0.0) h.0.1) in
    rw (e, launch) (λ i. h.0.0 i ∷ launch-found services managers h.1 i)

launch-IsPaired :
    (d : Daemon) → IsPaired d → map (λ l. l.0.name) (launch d.services d.managers) ≡ keys d.services
launch-IsPaired d p = launch-found d.services d.managers (
    All-both (λ e. e.1.name ≡ e.0) (λ e. contains e.0 (keys d.managers) ≡ true) d.services p.named
      (subst (λ ks. All (λ e. contains e.0 ks ≡ true) d.services) p.paired
        (keys-contained d.services)))

some_services {ℓ} : {A : Type ℓ} (xs : List A) → xs ≢ [] → (length xs == 0) ≡ false
some_services [] n = absurd (n refl)
some_services (x ∷ xs) n = ground arith

start-with_topic :
    (s : Surroundings) (n : Notifier) (d : Daemon)
    → d.started ≡ false
    → d.services ≢ []
    → new_systemd_notifier s.notify_socket d.report_alive_secs s.dialled ≡ notifier n
    → prestart_over s d ≡ true
    → start s d
      ≡ with_topic s n (record d { started = true }) (create_topic states_tag [] states_topic d.ic)
unfolding start with_notifier
start-with_topic s n d f ne e pre =
    if-false d.started _ _ f
    ∙ if-false (length d.services == 0) _ _ (some_services d.services ne)
    ∙ rw e (if-true (prestart_over s d) _ _ pre)

pub start-no_notifier :
    (s : Surroundings) (err : String) (d : Daemon)
    → d.started ≡ false
    → d.services ≢ []
    → new_systemd_notifier s.notify_socket d.report_alive_secs s.dialled ≡ no_notifier err
    → start s d
      ≡ (record d { started = true }, returns (some (notifier_error err)), nothing_started)
unfolding start with_notifier
start-no_notifier s err d f ne e =
    if-false d.started _ _ f
    ∙ if-false (length d.services == 0) _ _ (some_services d.services ne)
    ∙ rw e refl

take-all {ℓ} : {A : Type ℓ} (n : ℕ) (xs : List A) → length xs ≤ n → take n xs ≡ xs
take-all zero [] h = refl
take-all zero (x ∷ xs) h = absurd (omega arith)
take-all (suc n) [] h = refl
take-all (suc n) (x ∷ xs) h = ap (λ ys. x ∷ ys) (take-all n xs (omega arith))

shut_down-done :
    (s : Surroundings) (d : Daemon)
    → (if d.rpc_enabled then s.rpc_shutdown else none) ≡ none
    → length (maps_of s d) ≤ s.takes
    → shut_down s d ≡ (
      record d { ic = (close_intracom d.ic).0 },
      if is_stuck d.log_worker_count (s.prestart_logs ++ s.service_logs)
          then waits_for_logs
          else returns none,
    )
unfolding shut_down
shut_down-done s d r t =
    rw (r, shut_down) (if-false (ltb s.takes (length (maps_of s d))) _ _ (ge→ltb _ _ t))

run_services-done :
    (s : Surroundings) (n : Notifier) (d : Daemon)
    → all_over (launched_by d) s.managed (arriving s d).1 ≡ true
    → run_services s n d ≡ ((shut_down s d).0, (shut_down s d).1, done_by s n d)
unfolding run_services
run_services-done s n d h = if-true _ _ _ h

run_services-waits :
    (s : Surroundings) (n : Notifier) (d : Daemon)
    → all_over (launched_by d) s.managed (arriving s d).1 ≡ false
    → run_services s n d ≡ (d, waits_for_services, done_by s n d)
unfolding run_services
run_services-waits s n d h = if-false _ _ _ h

with_topic-created :
    (s : Surroundings) (n : Notifier) (d : Daemon) (ic : Intracom ServiceStates) (a : ℕ)
    → with_topic s n d (ic, created a) ≡ run_services s n (record d { ic = ic })
unfolding with_topic
with_topic-created s n d ic a = refl

-- Let a daemon not be started, have services and managers in step, at least one service, an open
-- registry without the states topic, let the notifier be made, let Start get past the entries of the
-- prestart pipeline, and let the RPC server, if there is one, be shut down without an error. Start
-- launches every service. While one has not ended, Start waits. When all have ended, and the states topic
-- takes every map, the states watcher has received all that the routines send, in some order that is
-- each sender's own, and has published the map after each of these updates; the registry is
-- closed; and Start returns no error if the log watcher has a worker, and waits for ever for the log
-- watcher if it has none and the prestart or a service has logged an entry.
pub start-launches :
    (s : Surroundings) (n : Notifier) (d : Daemon)
    → IsPaired d
    → d.started ≡ false
    → d.services ≢ []
    → (if d.rpc_enabled then s.rpc_shutdown else none) ≡ none
    → d.ic.closed ≡ false
    → lookup internal_service_states d.ic.topics ≡ none
    → new_systemd_notifier s.notify_socket d.report_alive_secs s.dialled ≡ notifier n
    → prestart_over s d ≡ true
    → let (d', result, did) = start s d in
      let over = all_over (launched_by d) s.managed (arriving s d).1 in
      (map (λ l. l.0.name) did.launched ≡ keys d.services)
      × (over ≡ false → result ≡ waits_for_services)
      × (over ≡ true
          → length (maps_of s d) ≤ s.takes
          → (us : List StateUpdate) × Arrives (to_send s d) us
            × (did.published ≡ states_watcher (keys d.services) us)
            × (d'.ic.closed ≡ true)
            × (d.log_worker_count ≢ 0 → result ≡ returns none)
            × (d.log_worker_count ≡ 0 → did.logs ≢ [] → result ≡ waits_for_logs))
start-launches s n d p f ne r o l e pre =
    let d' = record d { started = true } in
    let ic = added d.ic states_tag [] states_topic in
    let d'' = record d' { ic = ic } in
    let whole =
      start-with_topic s n d f ne e pre
      ∙ ap (λ c. with_topic s n d' c) (create_topic-new d.ic states_tag [] states_topic o l)
      ∙ with_topic-created s n d' ic d.ic.next in
    let logs = s.prestart_logs ++ s.service_logs in
    elim (Bool-cases (all_over (launched_by d) s.managed (arriving s d).1)) [
      | inr w ↦ rw (whole ∙ run_services-waits s n d'' w) (launch-IsPaired d p, λ h. refl, λ y. cc)
      | inl y ↦
          let opened = whole ∙ run_services-done s n d'' y in
          rw opened (
            launch-IsPaired d p,
            λ h. cc,
            λ h t.
                let shut = shut_down-done s d'' r t in
                (
                  (arriving s d).0,
                  arriving-Arrives s d y,
                  take-all s.takes (maps_of s d) t,
                  ap (λ (q : Daemon × Result). q.0.ic.closed) shut ∙ closed-close_intracom ic,
                  λ some_workers.
                      ap (λ (q : Daemon × Result). q.1) shut
                      ∙ elim (Bool-cases (is_stuck d.log_worker_count logs)) [
                        | inl b ↦ absurd (some_workers ((stuck_iff d.log_worker_count logs).0 b))
                        | inr b ↦ if-false _ _ _ b
                      ],
                  λ no_workers logged.
                      ap (λ (q : Daemon × Result). q.1) shut
                      ∙ if-true _ _ _ ((stuck_iff d.log_worker_count logs).1 no_workers logged),
                ),
          )
    ]
