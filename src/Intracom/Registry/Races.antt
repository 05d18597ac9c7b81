-- ===== src/Intracom/Registry/Races.antt =====
-- What overlapping calls on the registry can do that no order of whole calls does.
use rxdaemon.Prelude.{
  ℕ, suc, ◌≡◌, refl, sym, subst, ap, ◌∙◌, true, false, List, [], ◌∷◌, none, some, arith, ◌==◌,
  if◌then◌else◌, if-false, lookup, insert, update, lookup-insert, eq_refl,
}
use rxdaemon.Intracom.Topic.{TopicConfig, new_topic}
use rxdaemon.Intracom.Registry.{Intracom, created, close_topics}
use rxdaemon.Intracom.Registry.Sections.{
  create, close_all, Pc, calling, looking_up, inserting, locking, has_created, has_returned,
  insert_topic, advance, run,
}

module _ {ℓ} {A : Type ℓ} (zero_value : A) where
  run-cons :
      (i : ℕ) (schedule : List ℕ) (ic : Intracom A) (pcs : ℕ → Pc) (q : Intracom A × Pc)
      → advance zero_value (pcs i) ic ≡ q
      → run zero_value (i ∷ schedule) (ic, pcs) ≡ run zero_value schedule (q.0, update pcs i q.1)
  unfolding run
  run-cons i schedule ic pcs q e =
      ap (λ (q : Intracom A × Pc). run zero_value schedule (q.0, update pcs i q.1)) e

  checks :
      (tag : ℕ) (conf : TopicConfig) (ic : Intracom A)
      → ic.closed ≡ false
      → advance zero_value (calling (create tag conf)) ic ≡ (ic, looking_up tag conf)
  unfolding advance
  checks tag conf ic o = ap (λ p. (ic, p)) (if-false ic.closed _ _ o)

  looks :
      (tag : ℕ) (conf : TopicConfig) (ic : Intracom A)
      → lookup conf.name ic.topics ≡ none
      → advance zero_value (looking_up tag conf) ic ≡ (ic, inserting tag conf)
  unfolding advance
  looks tag conf ic n = rw (n, advance) refl

  inserts :
      (tag : ℕ) (conf : TopicConfig) (ic : Intracom A)
      → advance zero_value (inserting tag conf) ic
        ≡ (insert_topic zero_value tag conf ic, has_created tag (created ic.next))
  unfolding advance
  inserts tag conf ic = refl

  insert_topic-next :
      (tag : ℕ) (conf : TopicConfig) (ic : Intracom A)
      → (insert_topic zero_value tag conf ic).next ≡ suc ic.next
  unfolding insert_topic
  insert_topic-next tag conf ic = refl

  swaps :
      (ic : Intracom A)
      → ic.closed ≡ false
      → advance zero_value (calling close_all) ic ≡ (record ic { closed = true }, locking)
  unfolding advance
  swaps ic o = if-false ic.closed _ _ o

  -- Two callers create a topic of one name, which is not in the registry: both see that it is not.
  abbrev pub both_creating : ℕ → ℕ → TopicConfig → ℕ → Pc
  both_creating tag tag' conf i = calling (create (if i == 0 then tag else tag') conf)

  both_inserted : ℕ → ℕ → TopicConfig → Intracom A → Intracom A
  both_inserted tag tag' conf ic =
      insert_topic zero_value tag' conf (insert_topic zero_value tag conf ic)

  both_inserted-lookup :
      (tag tag' : ℕ) (conf : TopicConfig) (ic : Intracom A)
      → lookup conf.name (both_inserted tag tag' conf ic).topics ≡ some (suc ic.next)
  unfolding both_inserted insert_topic
  both_inserted-lookup tag tag' conf ic =
      lookup-insert conf.name conf.name (suc ic.next) (insert conf.name ic.next ic.topics)
      ∙ rw (eq_refl conf.name) refl

  twice :
      (tag tag' : ℕ) (conf : TopicConfig) (ic : Intracom A)
      → ic.closed ≡ false
      → lookup conf.name ic.topics ≡ none
      → run zero_value (0 ∷ 1 ∷ 0 ∷ 1 ∷ 0 ∷ 1 ∷ []) (ic, both_creating tag tag' conf) ≡ (
        both_inserted tag tag' conf ic,
        update
            (update
              (update
                (update
                  (update
                    (update (both_creating tag tag' conf) 0 (looking_up tag conf))
                    1
                    (looking_up tag' conf))
                  0
                  (inserting tag conf))
                1
                (inserting tag' conf))
              0
              (has_created tag (created ic.next)))
            1
            (has_created tag' (created (suc ic.next))),
      )
  unfolding both_inserted run insert_topic
  twice tag tag' conf ic o n =
      let s0 = both_creating tag tag' conf in
      let s1 = update s0 0 (looking_up tag conf) in
      let s2 = update s1 1 (looking_up tag' conf) in
      let s3 = update s2 0 (inserting tag conf) in
      let s4 = update s3 1 (inserting tag' conf) in
      let s5 = update s4 0 (has_created tag (created ic.next)) in
      run-cons 0 (1 ∷ 0 ∷ 1 ∷ 0 ∷ 1 ∷ []) ic s0 _ (checks tag conf ic o)
      ∙ run-cons 1 (0 ∷ 1 ∷ 0 ∷ 1 ∷ []) ic s1 _ (checks tag' conf ic o)
      ∙ run-cons 0 (1 ∷ 0 ∷ 1 ∷ []) ic s2 _ (looks tag conf ic n)
      ∙ run-cons 1 (0 ∷ 1 ∷ []) ic s3 _ (looks tag' conf ic n)
      ∙ run-cons 0 (1 ∷ []) ic s4 _ (inserts tag conf ic)
      ∙ run-cons 1 [] (insert_topic zero_value tag conf ic) s5 _
          (inserts tag' conf (insert_topic zero_value tag conf ic))

  -- In an open registry without a topic of the name, two calls of CreateTopic for it, of any types and
  -- whether or not they want an error for a topic that exists, can both return a topic: two different
  -- ones, of which the registry knows the second only, and the first is still open.
  pub create_topic_twice :
      (tag tag' : ℕ) (conf : TopicConfig) (ic : Intracom A)
      → ic.closed ≡ false
      → lookup conf.name ic.topics ≡ none
      → let s = run zero_value (0 ∷ 1 ∷ 0 ∷ 1 ∷ 0 ∷ 1 ∷ []) (ic, both_creating tag tag' conf) in
        (s.1 0 ≡ has_created tag (created ic.next))
        × (s.1 1 ≡ has_created tag' (created (suc ic.next)))
        × (lookup conf.name s.0.topics ≡ some (suc ic.next))
        × ((s.0.heap ic.next).topic.closed ≡ false)
  unfolding both_inserted insert_topic new_topic run
  create_topic_twice tag tag' conf ic o n =
      let ran = twice tag tag' conf ic o n in
      subst
        (λ (s : Intracom A × (ℕ → Pc)).
          (s.1 0 ≡ has_created tag (created ic.next))
          × (s.1 1 ≡ has_created tag' (created (suc ic.next)))
          × (lookup conf.name s.0.topics ≡ some (suc ic.next))
          × ((s.0.heap ic.next).topic.closed ≡ false))
        (sym ran) (refl, refl, both_inserted-lookup tag tag' conf ic, ground arith)

  -- One caller creates a topic and another one closes the registry.
  abbrev creating_and_closing : ℕ → TopicConfig → ℕ → Pc
  creating_and_closing tag conf i = calling (if i == 0 then create tag conf else close_all)

  emptied : Intracom A → Intracom A
  emptied ic = record ic { topics = []; heap = close_topics ic.topics ic.heap; closed = true }

  inserted_late : ℕ → TopicConfig → Intracom A → Intracom A
  inserted_late tag conf ic = insert_topic zero_value tag conf (emptied ic)

  behind :
      (tag : ℕ) (conf : TopicConfig) (ic : Intracom A)
      → ic.closed ≡ false
      → lookup conf.name ic.topics ≡ none
      → run zero_value (0 ∷ 0 ∷ 1 ∷ 1 ∷ 0 ∷ []) (ic, creating_and_closing tag conf) ≡ (
        inserted_late tag conf ic,
        update
            (update
              (update
                (update
                  (update (creating_and_closing tag conf) 0 (looking_up tag conf))
                  0
                  (inserting tag conf))
                1
                locking)
              1
              (has_returned none))
            0
            (has_created tag (created ic.next)),
      )
  unfolding inserted_late emptied run advance insert_topic
  behind tag conf ic o n =
      let s0 = creating_and_closing tag conf in
      let s1 = update s0 0 (looking_up tag conf) in
      let s2 = update s1 0 (inserting tag conf) in
      let s3 = update s2 1 locking in
      let s4 = update s3 1 (has_returned none) in
      let swapped = record ic { closed = true } in
      run-cons 0 (0 ∷ 1 ∷ 1 ∷ 0 ∷ []) ic s0 _ (checks tag conf ic o)
      ∙ run-cons 0 (1 ∷ 1 ∷ 0 ∷ []) ic s1 _ (looks tag conf ic n)
      ∙ run-cons 1 (1 ∷ 0 ∷ []) ic s2 _ (swaps ic o)
      ∙ run-cons 1 (0 ∷ []) swapped s3 (emptied ic, has_returned none) refl
      ∙ run-cons 0 [] (emptied ic) s4 _ (inserts tag conf (emptied ic))

  -- In an open registry without a topic of the name, a CreateTopic that finds the registry open and a
  -- Close can both return no error, and leave the closed registry with an open topic in it.
  create_topic_behind_close :
      (tag : ℕ) (conf : TopicConfig) (ic : Intracom A)
      → ic.closed ≡ false
      → lookup conf.name ic.topics ≡ none
      → let s = run zero_value (0 ∷ 0 ∷ 1 ∷ 1 ∷ 0 ∷ []) (ic, creating_and_closing tag conf) in
        (s.0.closed ≡ true)
        × (s.1 0 ≡ has_created tag (created ic.next))
        × (s.1 1 ≡ has_returned none)
        × (lookup conf.name s.0.topics ≡ some ic.next)
        × ((s.0.heap ic.next).topic.closed ≡ false)
  unfolding inserted_late emptied insert_topic new_topic
  create_topic_behind_close tag conf ic o n =
      subst
        (λ (s : Intracom A × (ℕ → Pc)).
          (s.0.closed ≡ true)
          × (s.1 0 ≡ has_created tag (created ic.next))
          × (s.1 1 ≡ has_returned none)
          × (lookup conf.name s.0.topics ≡ some ic.next)
          × ((s.0.heap ic.next).topic.closed ≡ false))
        (sym (behind tag conf ic o n))
        (
          refl,
          refl,
          refl,
          lookup-insert conf.name conf.name ic.next [] ∙ rw (eq_refl conf.name) refl,
          ground arith,
        )
