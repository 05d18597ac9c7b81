-- ===== src/Intracom/Registry/Topics.antt =====
-- Creating, removing and closing the topics of a registry.
use rxdaemon.Prelude.{
  ℕ, suc, String, ◌≡◌, ◌≢◌, refl, sym, Bool, true, false, [], ◌∷◌, none, some, ◌==◌, arith, str_eq,
  if◌then◌else◌, if-false, if-true, ap, ◌∙◌, eq_refl, Dict, lookup, insert, delete, update, All,
  update-same, lookup-insert, lookup-delete, Bool-cases, inl, inr,
}
use rxdaemon.Intracom.Errors.{
  base, topic_error, intracom_error, closing_topic, removing_topic, topic_already_exists,
  invalid_topic_type, topic_does_not_exist, creating_topic, intracom_closed,
}
use rxdaemon.Intracom.Topic.{TopicConfig, Topic, new_topic, topic_close}
use rxdaemon.Intracom.Registry.{
  Intracom, created, not_created, create_topic, remove_topic, remove_closed, set_topic,
  close_topics, close_intracom, Typed,
}

abbrev new_entry {ℓ} : {A : Type ℓ} → ℕ → A → TopicConfig → Typed A
new_entry tag zero_value conf = record { tag = tag; topic = new_topic conf zero_value }

module _ {ℓ} {A : Type ℓ} (ic : Intracom A) (tag : ℕ) (zero_value : A) (conf : TopicConfig) where
  -- The registry with a new topic in it.
  abbrev pub added : Intracom A
  added = record ic {
    topics = insert conf.name ic.next ic.topics;
    heap = update ic.heap ic.next (new_entry tag zero_value conf);
    next = suc ic.next;
  }

  -- In an open registry that has no topic of the name, CreateTopic makes one.
  pub create_topic-new :
      ic.closed ≡ false
      → lookup conf.name ic.topics ≡ none
      → create_topic tag zero_value conf ic ≡ (added, created ic.next)
  unfolding create_topic
  create_topic-new o n = if-false ic.closed _ _ o ∙ rw n refl

  lookup-added :
      (k : String)
      → lookup k added.topics ≡ (if str_eq conf.name k then some ic.next else lookup k ic.topics)
  lookup-added k = lookup-insert conf.name k ic.next ic.topics

-- In an open registry that has a topic of the name, CreateTopic changes nothing.
create_topic-known {ℓ} :
    {A : Type ℓ} (ic : Intracom A) (tag : ℕ) (zero_value : A) (conf : TopicConfig) (a : ℕ)
    → ic.closed ≡ false
    → lookup conf.name ic.topics ≡ some a
    → create_topic tag zero_value conf ic ≡ (
      ic,
      if (ic.heap a).tag == tag
          then if conf.err_if_exists
            then not_created (topic_error conf.name creating_topic (base topic_already_exists))
            else created a
          else not_created (topic_error conf.name creating_topic (base invalid_topic_type)),
    )
unfolding create_topic
create_topic-known ic tag zero_value conf a o f =
    if-false ic.closed _ _ o
    ∙ rw f (elim (Bool-cases ((ic.heap a).tag == tag)) [ inl y ↦ rw y refl | inr n ↦ rw n refl ])

abbrev closed_entry {ℓ} : {A : Type ℓ} → Intracom A → ℕ → Typed A
closed_entry ic a = record (ic.heap a) { topic = (topic_close (ic.heap a).topic).0 }

-- What RemoveTopic makes of a registry that has the topic, open and of that type.
abbrev removed {ℓ} : {A : Type ℓ} → Intracom A → String → ℕ → Intracom A
removed ic name a = record (set_topic a (topic_close (ic.heap a).topic).0 ic) {
  topics = delete name ic.topics;
}

topic_close-open {ℓ} :
    {A : Type ℓ} (t : Topic A)
    → t.closed ≡ false
    → (topic_close t ≡ ((topic_close t).0, none)) × ((topic_close t).0.closed ≡ true)
unfolding topic_close
topic_close-open t o =
    let e = if-false t.closed _ _ o in (e ∙ ap (λ r. (r.0, none)) (sym e), ap (λ r. r.0.closed) e)

remove_topic-known {ℓ} :
    {A : Type ℓ} (ic : Intracom A) (tag : ℕ) (name : String) (a : ℕ)
    → lookup name ic.topics ≡ some a
    → (ic.heap a).tag ≡ tag
    → (ic.heap a).topic.closed ≡ false
    → remove_topic tag name ic ≡ (removed ic name a, none)
unfolding remove_topic
remove_topic-known ic tag name a f t o =
    rw (f, remove_topic)
      (if-true ((ic.heap a).tag == tag) _ _ (ground arith)
        ∙ ap (λ c. remove_closed name a c ic) (topic_close-open (ic.heap a).topic o).0)

remove_topic-missing {ℓ} :
    {A : Type ℓ} (ic : Intracom A) (tag : ℕ) (name : String)
    → lookup name ic.topics ≡ none
    → remove_topic tag name ic
      ≡ (ic, some (topic_error name removing_topic (base topic_does_not_exist)))
unfolding remove_topic
remove_topic-missing ic tag name n = rw (n, remove_topic) refl

module _ {ℓ} {A : Type ℓ} (ic : Intracom A) (tag : ℕ) (zero_value : A) (conf : TopicConfig)
    (is_open : ic.closed ≡ false) (is_new : lookup conf.name ic.topics ≡ none) where
  found : lookup conf.name (added ic tag zero_value conf).topics ≡ some ic.next
  found = lookup-added ic tag zero_value conf conf.name ∙ ground (arith, eq_refl conf.name)

  -- Let CreateTopic make a topic in an open registry that had none of the name. CreateTopic with
  -- that name then makes no other: of another type it is an error; of the same type it is one if
  -- the configuration says so, and the topic that is there if not. The registry is unchanged.
  create_topic-again :
      (tag' : ℕ) (zero_value' : A) (aware fails : Bool)
      → let ic' = (create_topic tag zero_value conf ic).0 in
        let conf' : TopicConfig = record {
          name = conf.name;
          err_if_exists = fails;
          subscriber_aware = aware;
        } in
        create_topic tag' zero_value' conf' ic' ≡ (
          ic',
          if tag == tag'
              then if fails
                then not_created (topic_error conf.name creating_topic (base topic_already_exists))
                else created ic.next
              else not_created (topic_error conf.name creating_topic (base invalid_topic_type)),
        )
  create_topic-again tag' zero_value' aware fails =
      rw (create_topic-new ic tag zero_value conf is_open is_new) (
        create_topic-known (added ic tag zero_value conf) tag' zero_value' _ ic.next is_open found
        ∙ rw (update-same ic.heap ic.next (new_entry tag zero_value conf)) refl)

  -- Let CreateTopic make a topic in an open registry that had none of the name. Removing it closes
  -- it and takes its name out of the registry, and no other name; removing it again is an error.
  pub remove_topic-created :
      (k : String)
      → let ic' = (create_topic tag zero_value conf ic).0 in
        let (ic'', err) = remove_topic tag conf.name ic' in
        (err ≡ none)
        × ((ic''.heap ic.next).topic.closed ≡ true)
        × (lookup k ic''.topics ≡ (if str_eq conf.name k then none else lookup k ic.topics))
        × (remove_topic tag conf.name ic''
            ≡ (ic'', some (topic_error conf.name removing_topic (base topic_does_not_exist))))
  unfolding new_topic
  remove_topic-created k =
      let ic' = added ic tag zero_value conf in
      let same = update-same ic.heap ic.next (new_entry tag zero_value conf) in
      rw (create_topic-new ic tag zero_value conf is_open is_new) (
        rw
          (remove_topic-known ic' tag conf.name ic.next found (ap (λ t. t.tag) same)
            (ap (λ t. t.topic.closed) same))
          (
            refl,
            ap (λ t. t.topic.closed) (update-same ic'.heap ic.next (closed_entry ic' ic.next))
                ∙ (topic_close-open (ic'.heap ic.next).topic (ap (λ t. t.topic.closed) same)).1,
            lookup-delete conf.name k ic'.topics
                ∙ ground (arith, lookup-added ic tag zero_value conf k),
            remove_topic-missing (removed ic' conf.name ic.next) tag conf.name
                (lookup-delete conf.name conf.name ic'.topics ∙ ground (arith, eq_refl conf.name)),
          ))

abbrev shut {ℓ} : {A : Type ℓ} → Intracom A → Intracom A
shut ic = record ic { topics = []; heap = close_topics ic.topics ic.heap; closed = true }

module _ {ℓ} {A : Type ℓ} (ic : Intracom A) where
  close_intracom-open : ic.closed ≡ false → close_intracom ic ≡ (shut ic, none)
  unfolding close_intracom
  close_intracom-open o = if-false ic.closed _ _ o

  close_intracom-closed :
      ic.closed ≡ true
      → close_intracom ic ≡ (ic, some (intracom_error closing_topic (base intracom_closed)))
  unfolding close_intracom
  close_intracom-closed c = if-true ic.closed _ _ c

  pub closed-close_intracom : (close_intracom ic).0.closed ≡ true
  unfolding close_intracom
  closed-close_intracom = ground arith

  create_topic-closed :
      (tag : ℕ) (zero_value : A) (conf : TopicConfig)
      → ic.closed ≡ true
      → create_topic tag zero_value conf ic
        ≡ (ic, not_created (topic_error conf.name creating_topic (base intracom_closed)))
  unfolding create_topic
  create_topic-closed tag zero_value conf c = if-true ic.closed _ _ c

tag_test : (n : ℕ) → n ≢ 0 → (n == 0) ≡ false
tag_test n h = ground arith

-- The loop of Close on topics none of which is of the type `any`.
close_topics-typed {ℓ} :
    {A : Type ℓ} (topics : Dict ℕ) (heap : ℕ → Typed A)
    → All (λ e. (heap e.1).tag ≢ 0) topics
    → close_topics topics heap ≡ heap
unfolding close_topics
close_topics-typed [] heap h = refl
close_topics-typed ((name, a) ∷ topics) heap h =
    rw (tag_test (heap a).tag h.0) (close_topics-typed topics heap h.1)

-- If no topic of an open registry is of the type `any`, Close closes none of them: it forgets the
-- topics and leaves them all as they are. From then on CreateTopic and Close fail.
close_intracom-typed {ℓ} :
    {A : Type ℓ} (ic : Intracom A) (tag : ℕ) (zero_value : A) (conf : TopicConfig)
    → ic.closed ≡ false
    → All (λ e. (ic.heap e.1).tag ≢ 0) ic.topics
    → let (ic', err) = close_intracom ic in
      (err ≡ none)
      × (ic'.heap ≡ ic.heap)
      × (ic'.topics ≡ [])
      × (create_topic tag zero_value conf ic'
          ≡ (ic', not_created (topic_error conf.name creating_topic (base intracom_closed))))
      × (close_intracom ic' ≡ (ic', some (intracom_error closing_topic (base intracom_closed))))
close_intracom-typed ic tag zero_value conf o t = rw (close_intracom-open ic o) (
  refl,
  close_topics-typed ic.topics ic.heap t,
  refl,
  create_topic-closed (shut ic) tag zero_value conf refl,
  close_intracom-closed (shut ic) refl,
)
