-- ===== src/Tests/Logs.antt =====
-- Uses of the theorems on the packages log and log/journald and on daemon_log.go.
use Prim.Native.String.{len}
use rxdaemon.Prelude.{◌≡◌, refl, [], ◌∷◌, none, some, arith, true, if◌then◌else◌, ltb}
use rxdaemon.Log.{level_string}
use rxdaemon.Log.Logger.{Heap, IsValid}
use rxdaemon.Log.Handlers.{fields_text}
use rxdaemon.Daemon.FileLog.{Disk, LogFile, IsBounded, handle, log_line, handle-IsBounded}

-- Two loggers, each with a level of its own.
abbrev two_loggers : Heap
two_loggers = record {
  levels = λ k. if ltb k 1 then 6 else 3;
  next_level = 2;
  loggers = λ l. record { handler = 0; fields = []; level = if ltb l 1 then 0 else 1 };
  next_logger = 2;
}

two_loggers-IsValid : IsValid two_loggers
two_loggers-IsValid = record { points = λ l h. ground arith }

abbrev a_handler : LogFile
a_handler = record { enabled = true; limit = 100; total = 100; file = some ("x" ∷ []) }

abbrev fresh_handler : LogFile
fresh_handler = record { enabled = true; limit = 100; total = 0; file = none }

abbrev a_disk : Disk
a_disk = record { opened = some []; truncates = true; written = λ s. s }

-- The line's length in bytes.
len_line : len (log_line "t" 6 "hi" []) ≡ 11
unfolding log_line level_string fields_text
len_line = refl

handle-IsBounded_example : IsBounded (handle a_disk "t" fresh_handler 6 "hi" [])
handle-IsBounded_example =
    handle-IsBounded a_disk "t" fresh_handler 6 "hi" []
      (record { counted = omega arith; within = omega arith }) refl (omega (arith, len_line))
      (omega (arith, len_line)) (omega arith)
