-- ===== src/Cmd/Logger.antt =====
-- `SetupLogger` of cmd/common/common.go, and the functions of log/log.go that it replaces.
use securetunnel.Base.{
  ℕ, ◌≡◌, refl, Bool, true, false, ◌||◌, List, [], ◌∷◌, Option, none, some, Text, text_eq, text_eqb,
  codes, map, leb, arith, if◌then◌else◌,
}
use securetunnel.Base.Dict.{lookup}

pub data Level : Type 0 where
  debug info warn error : Level

-- Which of the functions of `log` print. `NilLog` and `NilLogf` do not.
pub record Logs : Type 0 where
  pub debug_on : Bool
  pub info_on : Bool
  pub warn_on : Bool
  pub error_on : Bool

-- The values of the variables of `log` before `SetupLogger`.
abbrev pub silent : Logs
silent = record { debug_on = false; info_on = false; warn_on = false; error_on = false }

abbrev pub priority : Level → ℕ
priority debug = 1
priority info = 2
priority warn = 3
priority error = 4

abbrev pub log_level_map : List (Text × ℕ)
log_level_map =
    (codes "debug", priority debug)
    ∷ (codes "info", priority info)
    ∷ (codes "warn", priority warn)
    ∷ (codes "error", priority error)
    ∷ []

pub data LoggerError : Type 0 where
  invalid_log_level failed_to_setup_logger : LoggerError

-- The assignments to the variables of `log`.
unfoldable pub replace_logs : ℕ → Logs → Logs
replace_logs n logs = record {
  debug_on = if leb n 1 then true else logs.debug_on;
  info_on = if leb n 2 then true else logs.info_on;
  warn_on = if leb n 3 then true else logs.warn_on;
  error_on = if leb n 4 then true else logs.error_on;
}

-- `to_lower` is `unicode.ToLower` on a code point, and `build_ok` whether zap builds the logger.
unfoldable pub setup_logger : (ℕ → ℕ) → Bool → Text → Logs → Option LoggerError × Logs
unfolding replace_logs
setup_logger to_lower build_ok level logs = elim (lookup (map to_lower level) log_level_map) [
  | none ↦ (some invalid_log_level, logs)
  | some n ↦ if build_ok then (none, replace_logs n logs) else (some failed_to_setup_logger, logs)
]

abbrev pub is_on : Level → Logs → Bool
is_on debug logs = logs.debug_on
is_on info logs = logs.info_on
is_on warn logs = logs.warn_on
is_on error logs = logs.error_on

abbrev pub level_text : Level → Text
level_text debug = codes "debug"
level_text info = codes "info"
level_text warn = codes "warn"
level_text error = codes "error"

lookup-log_level_map : (l : Level) → lookup (level_text l) log_level_map ≡ some (priority l)
unfolding lookup text_eqb
lookup-log_level_map debug = refl
lookup-log_level_map info = refl
lookup-log_level_map warn = refl
lookup-log_level_map error = refl

replaced :
    (n : ℕ) (l : Level) (logs : Logs)
    → is_on l (replace_logs n logs) ≡ (leb n (priority l) || is_on l logs)
unfolding replace_logs
replaced n debug logs = ground arith
replaced n info logs = ground arith
replaced n warn logs = ground arith
replaced n error logs = ground arith

-- If the name of a level is given, in whatever case, and the logger can be built, then a level
-- prints afterwards if it is at or above the chosen one, or if it printed before.
pub setup_logger-on :
    (to_lower : ℕ → ℕ) (level : Text) (chosen l : Level) (logs : Logs)
    → map to_lower level ≡ level_text chosen
    → ((setup_logger to_lower true level logs).0 ≡ none)
      × (is_on l (setup_logger to_lower true level logs).1
          ≡ (leb (priority chosen) (priority l) || is_on l logs))
unfolding setup_logger
setup_logger-on to_lower level chosen l logs e =
    rw (e, setup_logger, lookup-log_level_map chosen) (refl, replaced (priority chosen) l logs)
