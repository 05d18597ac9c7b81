-- ===== src/Tests/Registering.antt =====
-- Uses of the theorems on intracom/intracom.go.
use rxdaemon.Prelude.{ℕ, ◌≡◌, refl, none, some, true, false, lookup}
use rxdaemon.Intracom.Errors.{base, topic_error, removing_topic, topic_does_not_exist}
use rxdaemon.Intracom.Topic.{TopicConfig, new_topic}
use rxdaemon.Intracom.Registry.{Intracom, new, create_topic, remove_topic}
use rxdaemon.Intracom.Registry.Topics.{remove_topic-created}

abbrev pub ticks_conf : TopicConfig
ticks_conf = record { name = "ticks"; err_if_exists = true; subscriber_aware = false }

abbrev pub fresh : Intracom ℕ
fresh = new "ic" (record { tag = 0; topic = new_topic ticks_conf 0 })

remove_topic-created_example :
    let ic' = (create_topic 1 0 ticks_conf fresh).0 in
    let ic'' = (remove_topic 1 "ticks" ic').0 in
    ((remove_topic 1 "ticks" ic').1 ≡ none)
    × ((ic''.heap 0).topic.closed ≡ true)
    × (lookup "ticks" ic''.topics ≡ none)
    × (remove_topic 1 "ticks" ic''
        ≡ (ic'', some (topic_error "ticks" removing_topic (base topic_does_not_exist))))
unfolding lookup new
remove_topic-created_example = remove_topic-created fresh 1 0 ticks_conf refl refl "ticks"
