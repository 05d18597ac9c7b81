-- ===== src/Intracom/Errors.antt =====
-- intracom/errors.go: the errors of the package and their texts.
use rxdaemon.Prelude.{String, [], ◌∷◌, concat}

-- The constants of type `Error`.
pub data Base : Type 0 where
  invalid_intracom_nil intracom_closed topic_not_found topic_already_exists : Base
  topic_does_not_exist invalid_topic_type topic_closed consumer_already_exists : Base
  max_timeout_reached : Base

pub data Action : Type 0 where
  closing_intracom closing_topic removing_topic creating_topic : Action
  removing_subscription creating_subscription : Action

unfoldable base_text : Base → String
base_text invalid_intracom_nil = "invalid intracom, cannot be nil"
base_text intracom_closed = "intracom is closed"
base_text topic_not_found = "topic not found"
base_text topic_already_exists = "topic already exists"
base_text topic_does_not_exist = "topic does not exist"
base_text invalid_topic_type = "topic exists but with a different type"
base_text topic_closed = "topic is closed"
base_text consumer_already_exists = "consumer already exists"
base_text max_timeout_reached = "max timeout reached"

unfoldable action_text : Action → String
action_text closing_intracom = "closing intracom"
action_text closing_topic = "closing topic"
action_text removing_topic = "removing topic"
action_text creating_topic = "creating topic"
action_text removing_subscription = "removing subscription"
action_text creating_subscription = "creating subscription"

-- A Go `error` of the package: a constant, a text of `errors.New` or of a context, or one of the
-- structs, which wrap another error.
pub data Err : Type 0 where
  base : Base → Err
  text : String → Err
  intracom_error : Action → Err → Err
  subscribe_error : (topic consumer : String) → Action → Err → Err
  topic_error : (topic : String) → Action → Err → Err

unfoldable pub error_text : Err → String
unfolding base_text action_text
error_text (base b) = base_text b
error_text (text s) = s
error_text (intracom_error action err) =
    concat ("error " ∷ action_text action ∷ " reason: " ∷ error_text err ∷ [])
error_text (subscribe_error topic consumer action err) = concat (
    "error "
    ∷ action_text action
    ∷ " to topic '"
    ∷ topic
    ∷ "' with consumer '"
    ∷ consumer
    ∷ "' reason: "
    ∷ error_text err
    ∷ [])
error_text (topic_error topic action err) = concat (
    "error "
    ∷ action_text action
    ∷ " removing topic '"
    ∷ topic
    ∷ "'"
    ∷ " reason: "
    ∷ error_text err
    ∷ [])
