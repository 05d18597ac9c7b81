-- ===== src/Log.antt =====
-- log/log.go: the levels, their texts, and the fields of a log entry. A `Level` is a uint8.
pub mod Levels
pub mod Logger
pub mod Handlers
use Prim.Native.Char.{Char, code}
use Prim.Native.String.{char_at}
use rxdaemon.Prelude.{
  ℕ, suc, ◌+◌, ◌-◌, String, Bool, true, false, ◌&&◌, List, [], ◌∷◌, ◌==◌, leb, str_eq,
  if◌then◌else◌, concat, itoa,
}

abbrev level_emergency : ℕ
level_emergency = 0

abbrev level_alert : ℕ
level_alert = 1

abbrev level_critical : ℕ
level_critical = 2

abbrev pub level_error : ℕ
level_error = 3

abbrev pub level_warning : ℕ
level_warning = 4

abbrev pub level_notice : ℕ
level_notice = 5

abbrev pub level_info : ℕ
level_info = 6

abbrev pub level_debug : ℕ
level_debug = 7

unfoldable pub level_string : ℕ → String
level_string l =
    if l == level_emergency
    then "EMERGENCY"
    else if l == level_alert
    then "ALERT"
    else if l == level_critical
    then "CRITICAL"
    else if l == level_error
    then "ERROR"
    else if l == level_warning
    then "WARNING"
    else if l == level_notice
    then "NOTICE"
    else if l == level_info
    then "INFO"
    else if l == level_debug
    then "DEBUG"
    else "INFO"

-- `strings.ToUpper`, as far as its result can be an ASCII letter: besides the ASCII letters these are
-- the dotless i and the long s. Every other letter keeps being no ASCII letter.
unfoldable upper_char : Char → Char
upper_char c =
    if leb 97 (code c) && leb (code c) 122
    then char_at "ABCDEFGHIJKLMNOPQRSTUVWXYZ" (code c - 97)
    else if code c == 305
    then char_at "I" 0
    else if code c == 383
    then char_at "S" 0
    else c

unfoldable pub to_upper : String → String
unfolding upper_char
to_upper String.[] = String.[]
to_upper (String.◌∷◌ c s) = String.◌∷◌ (upper_char c) (to_upper s)

unfoldable pub level_named : String → ℕ
level_named name =
    if str_eq name "EMERGENCY"
    then level_emergency
    else if str_eq name "ALERT"
    then level_alert
    else if str_eq name "CRITICAL"
    then level_critical
    else if str_eq name "ERROR"
    then level_error
    else if str_eq name "WARNING"
    then level_warning
    else if str_eq name "NOTICE"
    then level_notice
    else if str_eq name "INFO"
    then level_info
    else if str_eq name "DEBUG"
    then level_debug
    else level_info

unfoldable pub level_from_string : String → ℕ
unfolding to_upper level_named
level_from_string level = level_named (to_upper level)

pub record Field : Type 0 where
  pub key : String
  pub value : String

-- The value of an `Int` field: a signed or an unsigned integer of any width, or none.
pub data IntValue : Type 0 where
  signed_pos : ℕ → IntValue
  signed_negsuc : ℕ → IntValue
  unsigned : ℕ → IntValue
  no_int : IntValue

unfoldable int_field : String → IntValue → Field
unfolding itoa
int_field key (signed_pos n) = record { key = key; value = itoa n }
int_field key (signed_negsuc n) = record { key = key; value = concat ("-" ∷ itoa (n + 1) ∷ []) }
int_field key (unsigned n) = record { key = key; value = itoa n }
int_field key no_int = record { key = key; value = "<unknown value type for int field>" }

unfoldable pub string_field : String → String → Field
string_field key value = record { key = key; value = value }

-- `Error` takes the text of the error.
unfoldable pub error_field : String → String → Field
error_field key err = record { key = key; value = err }

unfoldable bool_field : String → Bool → Field
bool_field key value = record { key = key; value = if value then "true" else "false" }

-- `DaemonLog` of daemon_log.go, which the prestart pipeline and the service contexts send.
pub record DaemonLog : Type 0 where
  pub level : ℕ
  pub message : String
  pub fields : List Field
