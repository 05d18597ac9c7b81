-- ===== src/States.antt =====
-- service_states.go, service_action.go, service_filter.go and constants.go: lifecycle states, the
-- actions that a watcher names, service filters and the consumer groups of the states topic.
pub mod Watch
pub mod Watching
pub mod Filtering
pub mod Publish
pub mod Names
use rxdaemon.Prelude.{
  ℕ, String, ◌≡◌, refl, ◌↔◌, Bool, true, false, List, [], ◌∷◌, arith, ◌==◌, Dict, insert, join,
  concat,
}

-- `State` is a uint8; `other n` stands for a value without a name.
pub data State : Type 0 where
  exit init idle run stop : State
  other : ℕ → State

abbrev pub state_eq : State → State → Bool
state_eq exit exit = true
state_eq init init = true
state_eq idle idle = true
state_eq run run = true
state_eq stop stop = true
state_eq (other n) (other m) = n == m
state_eq _ _ = false

pub state_eq_iff : (s t : State) → (state_eq s t ≡ true) ↔ (s ≡ t)
state_eq_iff exit t = ground arith
state_eq_iff s t = ground arith

unfoldable state_string : State → String
state_string init = "init"
state_string idle = "idle"
state_string run = "run"
state_string stop = "stop"
state_string exit = "exit"
state_string (other _) = "unknown"

-- `map[string]State`
abbrev pub ServiceStates : Type 0
ServiceStates = Dict State

-- The loop of `copy`: every entry is written into a fresh map.
unfoldable copy_into : ServiceStates → ServiceStates → ServiceStates
copy_into [] c = c
copy_into ((k, v) ∷ s) c = copy_into s (insert k v c)

unfoldable copy : ServiceStates → ServiceStates
unfolding copy_into
copy s = copy_into s []

pub record StateUpdate : Type 0 where
  pub name : String
  pub state : State

-- `ServiceAction` is a uint8 too.
pub data ServiceAction : Type 0 where
  entered exited changed entering exiting changing not_in : ServiceAction
  unnamed : ℕ → ServiceAction

unfoldable action_string : ServiceAction → String
action_string entering = "entering"
action_string exiting = "exiting"
action_string changing = "changing"
action_string entered = "entered"
action_string exited = "exited"
action_string changed = "changed"
action_string _ = "unknown"

-- `FilterMode` is an int; `other_mode` stands for a value without a name.
pub data FilterMode : Type 0 where
  none_mode include exclude : FilterMode
  other_mode : ℕ → FilterMode

pub record ServiceFilter : Type 0 where
  pub mode : FilterMode
  pub names : Dict (Unit {0})

unfoldable name_set : List String → Dict (Unit {0}) → Dict (Unit {0})
name_set [] set = set
name_set (name ∷ names) set = name_set names (insert name tt set)

unfoldable pub new_service_filter : FilterMode → List String → ServiceFilter
unfolding name_set
new_service_filter mode names = record { mode = mode; names = name_set names [] }

unfoldable no_filter : ServiceFilter
no_filter = record { mode = none_mode; names = [] }

abbrev prefix : String
prefix = "_rxd"

abbrev pub internal_service_states : String
internal_service_states = concat (prefix ∷ ".states" ∷ [])

unfoldable pub internal_all_states_consumer : String → String
internal_all_states_consumer consumer = join "." (internal_service_states ∷ "all" ∷ consumer ∷ [])

unfoldable pub internal_states_consumer : ServiceAction → State → String → String
unfolding action_string state_string
internal_states_consumer action target consumer =
    join "." (internal_service_states ∷ action_string action ∷ state_string target ∷ consumer ∷ [])
