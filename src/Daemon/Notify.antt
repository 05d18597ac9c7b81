-- ===== src/Daemon/Notify.antt =====
-- notify.go and notify_systemd_linux.go: what the daemon tells systemd. Writes to the socket are
-- listed, and `fails` says whether one fails.
use rxdaemon.Prelude.{
  ℕ, String, ◌≡◌, refl, Bool, true, false, List, [], ◌∷◌, ◌++◌, Option, none, some, ◌==◌, str_eq,
  if◌then◌else◌, concat,
}

-- The values above the last constant are `other`, and show as the character of that code.
pub data NotifyState : Type 0 where
  stopped stopping restarting reloading ready alive : NotifyState
  other : (character : String) → NotifyState

unfoldable notify_state_string : NotifyState → String
notify_state_string stopped = "STOPPED"
notify_state_string stopping = "STOPPING"
notify_state_string restarting = "RESTARTING"
notify_state_string reloading = "RELOADING"
notify_state_string ready = "READY"
notify_state_string alive = "ALIVE"
notify_state_string (other c) = ""

-- `watchdog` is in seconds, and 0 where there is no socket.
pub record Notifier : Type 0 where
  pub watchdog : ℕ
  pub connected : Bool

-- What net.Dial returns: a connection that is a unix one, another one, or an error.
pub data Dialled : Type 0 where
  unix_conn other_conn : Dialled
  dial_error : String → Dialled

pub data NewNotifier : Type 0 where
  notifier : Notifier → NewNotifier
  no_notifier : String → NewNotifier

unfoldable pub new_systemd_notifier : String → ℕ → Dialled → NewNotifier
new_systemd_notifier socket duration dialled =
    if str_eq socket ""
    then notifier (record { watchdog = 0; connected = false })
    else elim dialled [
      | unix_conn ↦ notifier (record { watchdog = duration; connected = true })
      | other_conn ↦ no_notifier "connection is not a unix connection type"
      | dial_error e ↦ no_notifier e
    ]

-- The `switch` of Notify: `string(state)` is the character whose code is the state.
unfoldable payload_of : NotifyState → Option String
payload_of ready = some "READY=1"
payload_of stopping = some "STOPPING=1"
payload_of reloading = some "RELOADING=1"
payload_of alive = some "WATCHDOG=1"
payload_of stopped = none
payload_of restarting = none
payload_of (other c) = none

abbrev code : NotifyState → String
code stopped = "\0"
code stopping = "\u{1}"
code restarting = "\u{2}"
code reloading = "\u{3}"
code ready = "\u{4}"
code alive = "\u{5}"
code (other c) = c

-- What is written, and the error.
unfoldable pub notify : Notifier → NotifyState → Option String → List String × Option String
unfolding payload_of
notify n state fails = if n.watchdog == 0 then ([], none) else elim (payload_of state) [
  | some payload ↦ (payload ∷ [], fails)
  | none ↦ ([], some (concat ("'" ∷ code state ∷ "' unsupported state for systemd notifier" ∷ [])))
]

-- The routine of Start: at each tick of the watchdog it says that it is alive. The list holds what
-- each write returns, until the context is done.
unfoldable pub watch : Notifier → List (Option String) → List String
unfolding notify
watch n [] = []
watch n (fails ∷ ticks) = (notify n alive fails).0 ++ watch n ticks

watch-unset : (n : Notifier) (ticks : List (Option String)) → n.watchdog ≡ 0 → watch n ticks ≡ []
unfolding watch notify
watch-unset n [] h = refl
watch-unset n (fails ∷ ticks) h = rw h (watch-unset n ticks h)

-- Without a socket, or with a watchdog of 0 seconds, nothing is ever written, and no notification is
-- an error, whatever the state.
notify-silent :
    (n : Notifier) (state : NotifyState) (fails : Option String) (ticks : List (Option String))
    → n.watchdog ≡ 0
    → (notify n state fails ≡ ([], none)) × (watch n ticks ≡ [])
unfolding notify
notify-silent n state fails ticks h = (rw h refl, watch-unset n ticks h)
