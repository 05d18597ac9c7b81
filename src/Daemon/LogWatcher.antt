-- ===== src/Daemon/LogWatcher.antt =====
-- serviceLogWatcher of daemon.go: service log entries, of a type E, come by a channel with room for 50
-- and are each written by a routine of its own. A semaphore bounds how many of these there are.
pub mod Accounts
pub mod Drains
use rxdaemon.Prelude.{
  ℕ, ◌<◌, ◌≡◌, Bool, true, false, List, [], ◌∷◌, ◌++◌, Option, none, some, length,
}

-- The log channel, the entry that the loop holds, the entries whose writers hold the semaphore, the
-- entries written, in order, and whether `doneC` is closed. `sent` lists all entries sent, and
-- `panicked` says whether an entry was sent to the closed channel.
pub record LogWatcher {ℓ} (E : Type ℓ) : Type ℓ where
  pub limit : ℕ
  pub queue : List E
  pub is_open : Bool
  pub holding : Option E
  pub writing : List E
  pub written : List E
  pub done : Bool
  pub sent : List E
  pub panicked : Bool

abbrev pub log_capacity : ℕ
log_capacity = 50

module _ {ℓ} {E : Type ℓ} where
  unfoldable pub new_watcher : ℕ → LogWatcher E
  new_watcher limit = record {
    limit = limit;
    queue = [];
    is_open = true;
    holding = none;
    writing = [];
    written = [];
    done = false;
    sent = [];
    panicked = false;
  }

  pub data Move (s t : LogWatcher E) : Type ℓ where
    -- `sc.logC <- entry`, and the same of Start for the prestart.
    sends :
        (e : E)
        → s.is_open ≡ true
        → length s.queue < log_capacity
        → t ≡ record s { queue = s.queue ++ e ∷ []; sent = s.sent ++ e ∷ [] }
        → Move s t
    send_panics : (e : E) → s.is_open ≡ false → t ≡ record s { panicked = true } → Move s t
    -- `for entry := range logC`
    takes :
        (e : E) (rest : List E)
        → s.holding ≡ none
        → s.queue ≡ e ∷ rest
        → t ≡ record s { queue = rest; holding = some e }
        → Move s t
    -- `sema <- struct{}{}` and the start of the routine.
    begins :
        (e : E)
        → s.holding ≡ some e
        → length s.writing < s.limit
        → t ≡ record s { holding = none; writing = e ∷ s.writing }
        → Move s t
    -- The routine writes its entry and gives its place in the semaphore back.
    writes :
        (front back : List E) (e : E)
        → s.writing ≡ front ++ e ∷ back
        → t ≡ record s { writing = front ++ back; written = s.written ++ e ∷ [] }
        → Move s t
    -- `close(logC)`
    closes : s.is_open ≡ true → t ≡ record s { is_open = false } → Move s t
    -- The end of the loop, `close(doneC)`.
    finishes :
        s.is_open ≡ false
        → s.queue ≡ []
        → s.holding ≡ none
        → t ≡ record s { done = true }
        → Move s t

-- A panic ends the program.
pub data Reach {ℓ} {E : Type ℓ} (s : LogWatcher E) : LogWatcher E → Type ℓ where
  here : Reach s s
  next : {t u : LogWatcher E} → Reach s t → t.panicked ≡ false → Move t u → Reach s u
