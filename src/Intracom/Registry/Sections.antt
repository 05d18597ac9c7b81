-- ===== src/Intracom/Registry/Sections.antt =====
-- intracom/intracom.go with several callers at once: CreateTopic, RemoveTopic and Close hold the lock
-- of the registry for one map access or loop at a time, and others run in between.
use rxdaemon.Prelude.{
  ℕ, suc, String, true, List, [], ◌∷◌, Option, none, some, ◌==◌, if◌then◌else◌, lookup, insert,
  delete, update,
}
use rxdaemon.Intracom.Errors.{
  Base, Err, base, intracom_error, topic_error, intracom_closed, topic_already_exists,
  topic_does_not_exist, invalid_topic_type, closing_topic, removing_topic, creating_topic,
}
use rxdaemon.Intracom.Topic.{TopicConfig, new_topic, topic_close}
use rxdaemon.Intracom.Registry.{Intracom, Created, created, not_created, set_topic, close_topics}

-- What a caller asks for; a number stands for the type argument.
pub data Call : Type 0 where
  create : ℕ → TopicConfig → Call
  remove : ℕ → String → Call
  close_all : Call

-- Where a caller stands. CreateTopic: the registry was found open; the name was not found in the map.
-- RemoveTopic: the topic was found and is of the type; it is closed. Close: the flag was set by it.
-- Last, a call that has returned.
pub data Pc : Type 0 where
  calling : Call → Pc
  looking_up inserting : ℕ → TopicConfig → Pc
  found : String → ℕ → Pc
  shut : String → Pc
  locking : Pc
  has_created : ℕ → Created → Pc
  has_returned : Option Err → Pc

abbrev create_fails : ℕ → TopicConfig → Base → Pc
create_fails tag conf e =
    has_created tag (not_created (topic_error conf.name creating_topic (base e)))

-- What follows `topic.Close()` in RemoveTopic.
abbrev pub after_shut : String → Option Err → Pc
after_shut name none = shut name
after_shut name (some err) = has_returned (some (topic_error name removing_topic err))

module _ {ℓ} {A : Type ℓ} where
  -- `topic.Close()` of RemoveTopic.
  unfoldable pub shut_topic : String → ℕ → Intracom A → Intracom A × Pc
  unfolding topic_close
  shut_topic name a ic =
      let done = topic_close (ic.heap a).topic in (set_topic a done.0 ic, after_shut name done.1)

  -- `ic.closed.Swap(true)` of Close, and its loop and reset under the lock.
  unfoldable pub swap_section : Intracom A → Intracom A × Pc
  swap_section ic =
      if ic.closed
      then (ic, has_returned (some (intracom_error closing_topic (base intracom_closed))))
      else (record ic { closed = true }, locking)

  unfoldable pub close_section : Intracom A → Intracom A × Pc
  unfolding close_topics
  close_section ic =
      (record ic { topics = []; heap = close_topics ic.topics ic.heap }, has_returned none)

module _ {ℓ} {A : Type ℓ} (zero_value : A) where
  -- `topic := NewTopic[T](conf)` and the assignment under the lock.
  unfoldable pub insert_topic : ℕ → TopicConfig → Intracom A → Intracom A
  unfolding new_topic
  insert_topic tag conf ic = record ic {
    topics = insert conf.name ic.next ic.topics;
    heap = update ic.heap ic.next (record { tag = tag; topic = new_topic conf zero_value });
    next = suc ic.next;
  }

  -- One section of a call of CreateTopic, RemoveTopic or Close, up to where the lock or the flag is next
  -- used.
  unfoldable pub advance : Pc → Intracom A → Intracom A × Pc
  unfolding insert_topic shut_topic swap_section close_section
  advance (calling (create tag conf)) ic =
      (ic, if ic.closed then create_fails tag conf intracom_closed else looking_up tag conf)
  advance (calling (remove tag name)) ic = (
    ic,
    elim (lookup name ic.topics) [
      | none ↦ has_returned (some (topic_error name removing_topic (base topic_does_not_exist)))
      | some a ↦
          if (ic.heap a).tag == tag
          then found name a
          else has_returned (some (topic_error name removing_topic (base invalid_topic_type)))
    ],
  )
  advance (calling close_all) ic = swap_section ic
  advance (looking_up tag conf) ic = (
    ic,
    elim (lookup conf.name ic.topics) [
      | none ↦ inserting tag conf
      | some a ↦
          if (ic.heap a).tag == tag
          then if conf.err_if_exists
            then create_fails tag conf topic_already_exists
            else has_created tag (created a)
          else create_fails tag conf invalid_topic_type
    ],
  )
  advance (inserting tag conf) ic = (insert_topic tag conf ic, has_created tag (created ic.next))
  advance (found name a) ic = shut_topic name a ic
  advance (shut name) ic = (record ic { topics = delete name ic.topics }, has_returned none)
  advance locking ic = close_section ic
  advance (has_created tag r) ic = (ic, has_created tag r)
  advance (has_returned r) ic = (ic, has_returned r)

  -- The registry and its callers; a schedule says whose turn it is.
  abbrev pub turn : ℕ → Intracom A × (ℕ → Pc) → Intracom A × (ℕ → Pc)
  turn i (ic, pcs) = let done = advance (pcs i) ic in (done.0, update pcs i done.1)

  unfoldable pub run : List ℕ → Intracom A × (ℕ → Pc) → Intracom A × (ℕ → Pc)
  unfolding advance
  run [] s = s
  run (i ∷ schedule) s = run schedule (turn i s)
