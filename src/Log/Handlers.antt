-- ===== src/Log/Handlers.antt =====
-- log/handler.go, log/option.go and log/journald: the handlers that write an entry as one line. A
-- writer is the list of texts written to it.
use Prim.Native.String.{len, slice}
use text.Mathlib.Text.{find?}
use rxdaemon.Prelude.{
  ℕ, ◌+◌, ◌≤◌, String, ◌≡◌, ◌⊎◌, Bool, false, not, List, [], ◌∷◌, ◌++◌, none, some, arith, ltb,
  if◌then◌else◌, concat, itoa,
}
use rxdaemon.Log.{Field, level_string, level_warning}

pub record DefaultHandler : Type 0 where
  pub out : List String
  pub disabled : Bool
  pub msgfmt : String
  pub timefmt : String

abbrev HandlerOption : Type 0
HandlerOption = DefaultHandler → DefaultHandler

unfoldable with_writer : List String → HandlerOption
with_writer out h = record h { out = out }

unfoldable with_message_format : String → HandlerOption
with_message_format format h = record h { msgfmt = format }

unfoldable with_time_format : String → HandlerOption
with_time_format format h = record h { timefmt = format }

unfoldable with_enabled : Bool → HandlerOption
with_enabled enabled h = record h { disabled = not enabled }

unfoldable apply_handler_options : List HandlerOption → HandlerOption
apply_handler_options [] h = h
apply_handler_options (opt ∷ opts) h = apply_handler_options opts (opt h)

-- `stdout` is what has been written to the standard output before.
unfoldable new_handler : List String → List HandlerOption → DefaultHandler
unfolding apply_handler_options
new_handler stdout opts = apply_handler_options opts (record {
  out = stdout;
  msgfmt = "{time} [{level}] {message}";
  timefmt = "2006-01-02T15:04:05Z07:00";
  disabled = false;
})

-- `strings.Replace(s, old, new, 1)`, for an `old` that is not empty.
unfoldable replace_first : String → String → String → String
replace_first s old new = elim (find? s old) [
  | none ↦ s
  | some i ↦ concat (slice s 0 i ∷ new ∷ slice s (i + len old) (len s) ∷ [])
]

-- `for _, field := range fields { b.WriteString(" " + field.Key + "=" + field.Value) }`
unfoldable pub fields_text : List Field → String
fields_text [] = ""
fields_text (f ∷ fs) = concat (" " ∷ f.key ∷ "=" ∷ f.value ∷ fields_text fs ∷ [])

-- `format` is `time.Now().Format`, as a function of the layout.
unfoldable default_line :
    (format : String → String) → DefaultHandler → ℕ → String → List Field → String
unfolding replace_first fields_text
default_line format h level message fields =
    let timed = replace_first h.msgfmt "{time}" (format h.timefmt) in
    let levelled = replace_first timed "{level}" (level_string level) in
    let text = replace_first levelled "{message}" message in
    concat (text ∷ fields_text fields ∷ "\n" ∷ [])

unfoldable default_handle :
    (format : String → String) → DefaultHandler → ℕ → String → List Field → DefaultHandler
unfolding default_line
default_handle format h level message fields =
    if h.disabled
    then h
    else record h { out = h.out ++ default_line format h level message fields ∷ [] }

-- log/journald/journald.go and option.go
pub record JournaldHandler : Type 0 where
  pub severity_prefix : Bool
  pub stdout : List String
  pub stderr : List String

unfoldable with_severity_prefix : Bool → JournaldHandler → JournaldHandler
with_severity_prefix enabled h = record h { severity_prefix = enabled }

unfoldable apply_journald_options :
    List (JournaldHandler → JournaldHandler) → JournaldHandler → JournaldHandler
apply_journald_options [] h = h
apply_journald_options (opt ∷ opts) h = apply_journald_options opts (opt h)

unfoldable new_journald_handler :
    List String → List String → List (JournaldHandler → JournaldHandler) → JournaldHandler
unfolding apply_journald_options
new_journald_handler stdout stderr opts =
    apply_journald_options opts
      (record { severity_prefix = false; stdout = stdout; stderr = stderr })

unfoldable log_out : JournaldHandler → String → JournaldHandler
log_out h message = record h { stdout = h.stdout ++ concat (message ∷ "\n" ∷ []) ∷ [] }

unfoldable log_err : JournaldHandler → String → JournaldHandler
log_err h message = record h { stderr = h.stderr ++ concat (message ∷ "\n" ∷ []) ∷ [] }

unfoldable journald_text : JournaldHandler → ℕ → String → List Field → String
unfolding fields_text
journald_text h level message fields = concat (
    (if h.severity_prefix then concat ("<" ∷ itoa level ∷ ">" ∷ []) else "")
    ∷ concat ("[" ∷ level_string level ∷ "] " ∷ [])
    ∷ message
    ∷ fields_text fields
    ∷ [])

unfoldable journald_handle : JournaldHandler → ℕ → String → List Field → JournaldHandler
unfolding log_out log_err journald_text
journald_handle h level message fields =
    let out = journald_text h level message fields in
    if ltb level level_warning then log_err h out else log_out h out

-- An entry becomes one line, on the error stream exactly if its level is error or more severe, and
-- else on the output stream; the other stream stays as it was.
journald_routes :
    (h : JournaldHandler) (level : ℕ) (message : String) (fields : List Field)
    → let line = concat (journald_text h level message fields ∷ "\n" ∷ []) in
      let h' = journald_handle h level message fields in
      ((level ≤ 3) × (h'.stderr ≡ h.stderr ++ line ∷ []) × (h'.stdout ≡ h.stdout))
      ⊎ ((4 ≤ level) × (h'.stdout ≡ h.stdout ++ line ∷ []) × (h'.stderr ≡ h.stderr))
unfolding journald_handle
journald_routes h level message fields = ground arith

-- After WithEnabled a handler writes one line for an entry if it was enabled, and else nothing.
default_handle-with_enabled :
    (format : String → String) (h : DefaultHandler) (enabled : Bool) (level : ℕ) (message : String)
    (fields : List Field)
    → let h' = with_enabled enabled h in
      (default_handle format h' level message fields).out
      ≡ (if enabled then h.out ++ default_line format h' level message fields ∷ [] else h.out)
unfolding default_handle with_enabled
default_handle-with_enabled format h enabled level message fields = ground arith
