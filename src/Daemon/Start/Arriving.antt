-- ===== src/Daemon/Start/Arriving.antt =====
-- The updates of the services of a Start: all that the routines send arrives, once they are over.
use rxdaemon.Prelude.{
  ℕ, String, ◌≡◌, ◌≢◌, refl, sym, ap, ◌∙◌, true, false, List, [], ◌∷◌, map, arith, str_eq, ◌⊎◌,
  eq_iff, contains, Bool-cases, inl, inr,
}
use rxdaemon.States.{StateUpdate}
use rxdaemon.Daemon.{Daemon}
use rxdaemon.Daemon.Services.{Manager, DaemonService}
use rxdaemon.Daemon.Start.Shutdown.{Arrives, all_sent, arrives}
use rxdaemon.Manager.{Managed}
use rxdaemon.Log.{DaemonLog}
use rxdaemon.Daemon.Start.{
  Surroundings, merge, left_of, is_over, all_over, is_stuck, launched_by, to_send, arriving,
}

list_cases {ℓ} :
    {A : Type ℓ} (xs : List A) → (xs ≡ []) ⊎ ((x : A) × (rest : List A) × (xs ≡ x ∷ rest))
list_cases [] = inl refl
list_cases (x ∷ rest) = inr (x, rest, refl)

merge-Arrives :
    (order : List String) (rests : String → List StateUpdate)
    → ((name : String) → (merge order rests).1 name ≡ [])
    → Arrives rests (merge order rests).0
unfolding merge
merge-Arrives [] rests h = all_sent h
merge-Arrives (name ∷ order) rests h = elim (list_cases (rests name)) [
  | inl e ↦ rw (e, merge) (merge-Arrives order rests (rw (e, merge) at h))
  | inr (u, rest, e) ↦
      rw (e, merge)
        (arrives name u rest e (merge-Arrives order (left_of rests name rest) (rw (e, merge) at h)))
]

merge-silent :
    (order : List String) (rests : String → List StateUpdate) (j : String)
    → rests j ≡ []
    → (merge order rests).1 j ≡ []
unfolding merge
merge-silent [] rests j h = h
merge-silent (name ∷ order) rests j h = elim (list_cases (rests name)) [
  | inl e ↦ rw (e, merge) (merge-silent order rests j h)
  | inr (u, rest, e) ↦
      rw (e, merge)
        (merge-silent order (left_of rests name rest) j (elim (Bool-cases (str_eq j name)) [
          | inl y ↦
              let same : rests name ≡ [] = ap rests (sym ((eq_iff j name).0 y)) ∙ h in absurd cc
          | inr n ↦ rw n h
        ]))
]

is_over-sent : (m : Managed) (unsent : List StateUpdate) → is_over m unsent ≡ true → unsent ≡ []
is_over-sent m [] h = refl
is_over-sent m (u ∷ unsent) h = cc

all_over-sent :
    (launched : List (DaemonService × Manager)) (managed : String → Managed)
    (unsent : String → List StateUpdate) (j : String)
    → all_over launched managed unsent ≡ true
    → contains j (map (λ l. l.0.name) launched) ≡ true
    → unsent j ≡ []
all_over-sent [] managed unsent j h c = cc
all_over-sent ((service, manager) ∷ launched) managed unsent j h c =
    elim (Bool-cases (is_over (managed service.name) (unsent service.name))) [
      | inr n ↦ let bad : false ≡ true = rw n at h in absurd cc
      | inl y ↦ elim (Bool-cases (str_eq service.name j)) [
        | inl same ↦
            ap unsent (sym ((eq_iff service.name j).0 same))
            ∙ is_over-sent (managed service.name) (unsent service.name) y
        | inr other ↦ all_over-sent launched managed unsent j (rw y at h) (ground (arith, c, other))
      ]
    ]

pub arriving-Arrives :
    (s : Surroundings) (d : Daemon)
    → all_over (launched_by d) s.managed (arriving s d).1 ≡ true
    → Arrives (to_send s d) (arriving s d).0
arriving-Arrives s d h = merge-Arrives s.order (to_send s d) (λ j.
    elim (Bool-cases (contains j (map (λ l. l.0.name) (launched_by d)))) [
      | inl y ↦ all_over-sent (launched_by d) s.managed (arriving s d).1 j h y
      | inr n ↦ merge-silent s.order (to_send s d) j (rw n refl)
    ])

pub stuck_iff :
    (workers : ℕ) (logs : List DaemonLog)
    → (is_stuck workers logs ≡ true → workers ≡ 0)
      × (workers ≡ 0 → logs ≢ [] → is_stuck workers logs ≡ true)
stuck_iff workers [] = (λ h. cc, λ h n. absurd (n refl))
stuck_iff workers (e ∷ logs) = (λ h. ground arith, λ h n. ground arith)
