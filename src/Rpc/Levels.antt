-- ===== src/Rpc/Levels.antt =====
-- What rpc_client says of a change of the log level, and what becomes of the daemon's loggers.
use rxdaemon.Prelude.{
  ℕ, String, ◌≡◌, refl, sym, subst, Bool, false, ◌||◌, List, [], ◌∷◌, none, some, arith, ltb,
  str_eq, if-false, ge→ltb, concat, ◌∙◌,
}
use rxdaemon.Log.{level_from_string, level_named, to_upper, level_info}
use rxdaemon.Log.Levels.{level_from_string-lt}
use rxdaemon.Daemon.{Daemon, change_log_level}
use rxdaemon.Rpc.{
  Call, context_done, answered, client_change_log_level, served, ClientRun, report, run_set_level,
  client_main,
}

-- The client has said that it has changed the level, and has asked for this one.
abbrev Changed : String → ℕ → ClientRun → Type 0
Changed name level r =
    (r.lines ≡ concat ("log level changed to: " ∷ name ∷ []) ∷ [])
    × (r.code ≡ 0)
    × (r.asked ≡ some level)

-- The test for a negative level never succeeds.
run_set_level_lem :
    (name : String) (more : List String) (call : Call)
    → run_set_level (name ∷ more) call
      ≡ report name (level_from_string name) (client_change_log_level call)
unfolding run_set_level
run_set_level_lem name more call =
    if-false (ltb 127 (level_from_string name)) _ _
      (ge→ltb 127 (level_from_string name) (omega (arith, level_from_string-lt name)))

client_main-set_level :
    (name : String) (more : List String) (call : Call)
    → client_main ("setlevel" ∷ name ∷ more) none call
      ≡ report name (level_from_string name) (client_change_log_level call)
unfolding client_main
client_main-set_level name more call = run_set_level_lem name more call

report-Changed : (name : String) (level : ℕ) → Changed name level (report name level none)
unfolding report
report-Changed name level = (refl, refl, refl)

main-Changed :
    (name : String) (more : List String) (call : Call)
    → client_change_log_level call ≡ none
    → Changed name (level_from_string name) (client_main ("setlevel" ∷ name ∷ more) none call)
main-Changed name more call e =
    subst (Changed name (level_from_string name)) (sym (client_main-set_level name more call))
      (rw e (report-Changed name (level_from_string name)))

-- Where the daemon has answered the call, the client says that the level is changed, to the name that
-- it was given, and both loggers of the daemon have the level that this name is read as.
set_level-answered :
    (name : String) (more : List String) (d : Daemon)
    → let level = level_from_string name in
      let d' = served level answered d in
      Changed name level (client_main ("setlevel" ∷ name ∷ more) none answered)
      × (d'.service_logger.level ≡ level)
      × (d'.internal_logger.level ≡ level)
unfolding served change_log_level client_change_log_level
set_level-answered name more d = (main-Changed name more answered refl, refl, refl)

-- Where the client's context is done before the answer, it says the same, although the daemon may be as
-- it was.
set_level-unhandled :
    (name : String) (more : List String) (d : Daemon)
    → let level = level_from_string name in
      Changed name level (client_main ("setlevel" ∷ name ∷ more) none (context_done false))
      × (served level (context_done false) d ≡ d)
unfolding served client_change_log_level
set_level-unhandled name more d = (main-Changed name more (context_done false) refl, refl)

abbrev is_level_name : String → Bool
is_level_name s =
    str_eq s "EMERGENCY"
    || str_eq s "ALERT"
    || str_eq s "CRITICAL"
    || str_eq s "ERROR"
    || str_eq s "WARNING"
    || str_eq s "NOTICE"
    || str_eq s "INFO"
    || str_eq s "DEBUG"

level_named-unknown : (s : String) → is_level_name s ≡ false → level_named s ≡ level_info
unfolding level_named
level_named-unknown s h = ground arith

-- A name that is none of the eight, in whatever case, is no error either: where the call is answered,
-- the client says that the level is changed to that name, and both loggers are at the info level.
set_level-unknown_name :
    (name : String) (more : List String) (d : Daemon)
    → is_level_name (to_upper name) ≡ false
    → let d' = served (level_from_string name) answered d in
      Changed name level_info (client_main ("setlevel" ∷ name ∷ more) none answered)
      × (d'.service_logger.level ≡ level_info)
      × (d'.internal_logger.level ≡ level_info)
unfolding level_from_string
set_level-unknown_name name more d h =
    let e = level_named-unknown (to_upper name) h in
    let (c, s, i) = set_level-answered name more d in
    (
      subst (λ l. Changed name l (client_main ("setlevel" ∷ name ∷ more) none answered)) e c,
      s ∙ e,
      i ∙ e,
    )
