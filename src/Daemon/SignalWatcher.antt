-- ===== src/Daemon/SignalWatcher.antt =====
-- The signal watcher of Start in daemon.go: it waits for the end of the daemon's context or for a
-- signal, which it answers by cancelling that context, and tells systemd that the daemon stops.
use rxdaemon.Prelude.{String, Bool, true, false, List, [], ◌∷◌, Option, none, some}
use rxdaemon.Log.{level_error, level_debug, level_notice, Field, string_field}
use rxdaemon.Daemon.Notify.{Notifier, notify, stopping}
use rxdaemon.Prelude.{ℕ}

-- What the `select` receives first.
pub data Woken : Type 0 where
  context_done : Woken
  os_signal : String → Woken

pub record Entry : Type 0 where
  pub level : ℕ
  pub message : String
  pub fields : List Field

-- What the watcher logs, whether it cancels the context, and what it writes to systemd.
pub record Stopped : Type 0 where
  pub logs : List Entry
  pub cancels : Bool
  pub written : List String

abbrev notify_logs : Field → Option String → List Entry
notify_logs name_field none = []
notify_logs name_field (some err) =
    record {
      level = level_error;
      message = "error sending 'stopping' notification";
      fields = name_field ∷ [];
    }
    ∷ []

abbrev woken_entry : Field → Woken → Entry
woken_entry name_field context_done = record {
  level = level_debug;
  message = "signal watcher received context done from parent context";
  fields = name_field ∷ [];
}
woken_entry name_field (os_signal name) = record {
  level = level_notice;
  message = "signal watcher received an os signal";
  fields = string_field "signal" name ∷ name_field ∷ [];
}

abbrev is_signal : Woken → Bool
is_signal context_done = false
is_signal (os_signal name) = true

unfoldable signal_watcher : String → Notifier → Woken → Option String → Stopped
unfolding notify string_field
signal_watcher daemon_name n woken fails =
    let name_field = string_field "rxd" daemon_name in
    let sent = notify n stopping fails in
    record {
      logs = woken_entry name_field woken ∷ notify_logs name_field sent.1;
      cancels = is_signal woken;
      written = sent.0;
    }
