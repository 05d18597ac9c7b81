-- ===== src/Daemon/FileLog.antt =====
-- daemon_log.go: the handler of the internal logger, which appends to a file and empties it at a
-- limit. `total` and `limit` are uint64. The file is the list of the texts in it.
use Prim.Native.String.{len}
use text.Mathlib.TextPositions.{len-append}
use rxdaemon.Prelude.{
  ℕ, ◌+◌, ◌%◌, ◌^◌, ◌≤◌, ◌<◌, String, ◌≡◌, refl, Bool, true, false, List, [], ◌∷◌, ◌++◌, Option,
  none, some, arith, ltb, if◌then◌else◌, concat, Bool-cases, inl, inr, Option-cases, lt→ltb, ltb→ge,
}
use rxdaemon.Log.{Field, level_string}
use rxdaemon.Log.Handlers.{fields_text}

pub record LogFile : Type 0 where
  pub enabled : Bool
  pub limit : ℕ
  pub total : ℕ
  pub file : Option (List String)

-- What the file system does in one call of Handle: what opening finds, or that it fails; whether
-- Truncate succeeds; which part of a text Write writes.
pub record Disk : Type 0 where
  pub opened : Option (List String)
  pub truncates : Bool
  pub written : String → String

abbrev u64 : ℕ → ℕ
u64 n = n % 2 ^ 64

-- `now` is the formatted time.
unfoldable pub log_line : String → ℕ → String → List Field → String
unfolding fields_text
log_line now level message fields =
    concat (now ∷ " " ∷ level_string level ∷ ": " ∷ message ∷ fields_text fields ∷ "\n" ∷ [])

-- `h.file.Write(msg)`, to a file that holds `content`; `total` counts what was written, also where
-- Write fails.
unfoldable write : Disk → List String → String → LogFile → LogFile
write disk content msg h = record h {
  file = some (content ++ disk.written msg ∷ []);
  total = u64 (h.total + len (disk.written msg));
}

-- Handle with the file at hand.
unfoldable handle_open : Disk → List String → String → LogFile → LogFile
unfolding write
handle_open disk content msg h =
    if ltb h.limit (u64 (h.total + u64 (len msg)))
    then if disk.truncates then write disk [] msg h else h
    else write disk content msg h

unfoldable handle_file : Disk → Option (List String) → String → LogFile → LogFile
unfolding handle_open
handle_file disk (some content) msg h = handle_open disk content msg h
handle_file disk none msg h = elim disk.opened [
  | none ↦ record h { enabled = false }
  | some content ↦ handle_open disk content msg (record h { file = some content })
]

unfoldable pub handle : Disk → String → LogFile → ℕ → String → List Field → LogFile
unfolding handle_file
handle disk now h level message fields =
    if h.enabled then handle_file disk h.file (log_line now level message fields) h else h

-- `closes` says whether closing the file succeeds. The result is whether Close returns nil.
unfoldable pub close : Bool → LogFile → LogFile × Bool
close closes h = elim h.file [
  | none ↦ (h, true)
  | some content ↦ if closes then (record h { file = none }, true) else (h, false)
]

-- The bytes in the file.
abbrev pub size : List String → ℕ
size [] = 0
size (s ∷ ss) = len s + size ss

size-append : (xs ys : List String) → size (xs ++ ys) ≡ size xs + size ys
size-append [] ys = omega arith
size-append (x ∷ xs) ys = omega (arith, size-append xs ys)

abbrev content_of : Option (List String) → List String
content_of none = []
content_of (some content) = content

-- The file holds no more bytes than the handler has counted, and than the limit.
pub record IsBounded (h : LogFile) : Type 0 where
  pub counted : size (content_of h.file) ≤ h.total
  pub within : size (content_of h.file) ≤ h.limit

write-IsBounded :
    (disk : Disk) (content : List String) (msg : String) (h : LogFile)
    → size content ≤ h.total
    → size content + len msg ≤ h.limit
    → h.total + len msg < 2 ^ 64
    → len (disk.written msg) ≤ len msg
    → IsBounded (write disk content msg h)
unfolding write
write-IsBounded disk content msg h c f w d =
    let s = size-append content (disk.written msg ∷ []) in
    record { counted = omega (arith, s); within = omega (arith, s) }

handle_open-IsBounded :
    (disk : Disk) (content : List String) (msg : String) (h : LogFile)
    → IsBounded h
    → size content ≤ size (content_of h.file)
    → len msg ≤ h.limit
    → h.total + len msg < 2 ^ 64
    → len (disk.written msg) ≤ len msg
    → IsBounded (handle_open disk content msg h)
unfolding handle_open
handle_open-IsBounded disk content msg h b c f w d =
    elim (Bool-cases (ltb h.limit (u64 (h.total + u64 (len msg))))) [
      | inl over ↦ rw over (elim (Bool-cases disk.truncates) [
        | inl t ↦ rw t (write-IsBounded disk [] msg h (omega arith) (omega arith) w d)
        | inr t ↦ rw t b
      ])
      | inr fits ↦ rw fits (
          write-IsBounded disk content msg h (omega arith)
            (omega (arith, ltb→ge h.limit (u64 (h.total + u64 (len msg))) fits)) w d)
    ]

handle_file-IsBounded :
    (disk : Disk) (file : Option (List String)) (msg : String) (h : LogFile)
    → h.file ≡ file
    → IsBounded h
    → size (content_of disk.opened) ≡ 0
    → len msg ≤ h.limit
    → h.total + len msg < 2 ^ 64
    → len (disk.written msg) ≤ len msg
    → IsBounded (handle_file disk file msg h)
unfolding handle_file
handle_file-IsBounded disk (some content) msg h e b o f w d =
    handle_open-IsBounded disk content msg h b (rw e (omega arith)) f w d
handle_file-IsBounded disk none msg h e b o f w d = elim (Option-cases disk.opened) [
  | inl n ↦ rw n (record { counted = b.counted; within = b.within })
  | inr (content, s) ↦
      let empty : size content ≡ 0 = rw s at o in
      rw s (
        handle_open-IsBounded disk content msg (record h { file = some content })
          (record { counted = omega arith; within = omega arith }) (omega arith) f w d)
]

-- Let Write write no more than it is given, the file be empty when it is opened, the line fit the
-- limit, and the count not wrap. Then Handle keeps the bytes in the file within the count and within
-- the limit.
pub handle-IsBounded :
    (disk : Disk) (now : String) (h : LogFile) (level : ℕ) (message : String) (fields : List Field)
    → IsBounded h
    → size (content_of disk.opened) ≡ 0
    → len (log_line now level message fields) ≤ h.limit
    → h.total + len (log_line now level message fields) < 2 ^ 64
    → len (disk.written (log_line now level message fields))
      ≤ len (log_line now level message fields)
    → IsBounded (handle disk now h level message fields)
unfolding handle
handle-IsBounded disk now h level message fields b o f w d =
    let line = log_line now level message fields in
    elim h.enabled as (λ on. IsBounded (if on then handle_file disk h.file line h else h)) [
      | true ↦ handle_file-IsBounded disk h.file line h refl b o f w d
      | false ↦ b
    ]

log_line-pos :
    (now : String) (level : ℕ) (message : String) (fields : List Field)
    → 0 < len (log_line now level message fields)
unfolding log_line
log_line-pos now level message fields = omega (
  arith,
  len-append now
      (concat (" " ∷ level_string level ∷ ": " ∷ message ∷ fields_text fields ∷ "\n" ∷ [])),
  len-append " " (concat (level_string level ∷ ": " ∷ message ∷ fields_text fields ∷ "\n" ∷ [])),
)

-- Once the count has reached the limit, it never falls: each further entry of an enabled handler with
-- an open file empties the file first, so that the file then holds that entry alone.
handle_emptied :
    (disk : Disk) (now : String) (h : LogFile) (level : ℕ) (message : String) (fields : List Field)
    (content : List String)
    → h.enabled ≡ true
    → h.file ≡ some content
    → disk.truncates ≡ true
    → h.limit ≤ h.total
    → h.total + len (log_line now level message fields) < 2 ^ 64
    → len (disk.written (log_line now level message fields))
      ≤ len (log_line now level message fields)
    → let h' = handle disk now h level message fields in
      (h'.file ≡ some (disk.written (log_line now level message fields) ∷ []))
      × (h'.limit ≤ h'.total)
unfolding handle handle_file handle_open write
handle_emptied disk now h level message fields content en e t r w d =
    let p = log_line-pos now level message fields in
    let over : ltb h.limit (u64 (h.total + u64 (len (log_line now level message fields)))) ≡ true =
      lt→ltb _ _ (omega arith) in
    rw (en, e, over, t) (refl, omega arith)
