-- ===== src/Log/Logger.antt =====
-- log/logger.go. Loggers are pointers, and each holds a pointer to its level: both live in a heap.
-- The mutex makes each operation atomic, so an operation is one step. What logger.fields holds is never
-- read, so arrays that slices of fields share are left out here.
use rxdaemon.Prelude.{
  ℕ, suc, ◌<◌, String, ◌≡◌, ◌≢◌, List, [], ◌++◌, Option, none, some, arith, ltb, if◌then◌else◌,
  update,
}
use rxdaemon.Log.{Field}

-- `fields` and `level` of the struct; the handler is named by a number.
pub record Logger : Type 0 where
  pub handler : ℕ
  pub fields : List Field
  pub level : ℕ

-- Addresses below `next_level` and `next_logger` are in use.
pub record Heap : Type 0 where
  pub levels : ℕ → ℕ
  pub next_level : ℕ
  pub loggers : ℕ → Logger
  pub next_logger : ℕ

-- A new heap cell for a level, and a logger that points at it. Returns the logger's address.
unfoldable new_logger : ℕ → ℕ → Heap → Heap × ℕ
new_logger level handler h =
    let logger : Logger = record { handler = handler; fields = []; level = h.next_level } in
    (
      record {
        levels = update h.levels h.next_level level;
        next_level = suc h.next_level;
        loggers = update h.loggers h.next_logger logger;
        next_logger = suc h.next_logger;
      },
      h.next_logger,
    )

-- What a logger hands to its handler.
pub record Entry : Type 0 where
  pub handler : ℕ
  pub level : ℕ
  pub message : String
  pub fields : List Field

unfoldable threshold : Heap → ℕ → ℕ
threshold h l = h.levels (h.loggers l).level

-- `Log` changes nothing; `none` if the entry is ignored.
unfoldable pub log : Heap → ℕ → ℕ → String → List Field → Option Entry
unfolding threshold
log h l level message fields =
    if ltb (threshold h l) level
    then none
    else some (record {
      handler = (h.loggers l).handler;
      level = level;
      message = message;
      fields = fields;
    })

unfoldable pub with_fields : Heap → ℕ → List Field → Heap × ℕ
with_fields h l fields =
    let parent = h.loggers l in
    let child : Logger = record parent { fields = parent.fields ++ fields } in
    (
      record h { loggers = update h.loggers h.next_logger child; next_logger = suc h.next_logger },
      h.next_logger,
    )

unfoldable pub set_level : Heap → ℕ → ℕ → Heap
set_level h l level =
    let logger : Logger = record (h.loggers l) { level = h.next_level } in
    record h {
      levels = update h.levels h.next_level level;
      next_level = suc h.next_level;
      loggers = update h.loggers l logger;
    }

-- Every logger in use points at a level in use.
pub record IsValid (h : Heap) : Type 0 where
  pub points : (l : ℕ) → l < h.next_logger → (h.loggers l).level < h.next_level

-- The operations keep every logger pointing at a level in use.
ops-IsValid :
    (h : Heap) (l level handler : ℕ) (fields : List Field)
    → IsValid h
    → l < h.next_logger
    → IsValid (new_logger level handler h).0
      × IsValid (with_fields h l fields).0
      × IsValid (set_level h l level)
unfolding new_logger with_fields set_level
ops-IsValid h l level handler fields v b = (
  record { points = λ k p. ground (arith, v.points k) },
  record { points = λ k p. ground (arith, v.points k, v.points l) },
  record { points = λ k p. ground (arith, v.points k) },
)

-- Let a valid heap have two different loggers in use. After SetLevel on one, it passes on an entry
-- exactly when the entry's level is at most the new one, and the other, also if With made it from
-- the first, passes on what it did before.
log-set_level :
    (h : Heap) (l k level at : ℕ) (message : String) (fields : List Field)
    → IsValid h
    → l < h.next_logger
    → k < h.next_logger
    → k ≢ l
    → (log (set_level h l level) l at message fields ≡ (
        if ltb level at
        then none
        else some (record {
          handler = (h.loggers l).handler;
          level = at;
          message = message;
          fields = fields;
        })))
      × (log (set_level h l level) k at message fields ≡ log h k at message fields)
unfolding log set_level
log-set_level h l k level at message fields v b c n = (ground arith, ground (arith, v.points k))

-- What With adds never reaches the handler: the child passes on what its parent passes on.
log-with_fields :
    (h : Heap) (l at : ℕ) (more fields : List Field) (message : String)
    → log (with_fields h l more).0 (with_fields h l more).1 at message fields
      ≡ log h l at message fields
unfolding log with_fields
log-with_fields h l at more fields message = ground arith
