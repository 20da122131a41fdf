-- ===== src/Logging/Macros.antt =====
-- logging/details/default_logger.hpp, src/default_logger.cpp and logging/xlogger.hpp: the logger of
-- the process and the macros that use it; the macros of logging/rt_logger.hpp. A macro is a
-- function of what the build defines. `none` is an exception of the first use of the logger.
pub mod Filters
pub mod Records
pub mod Lifetime
pub mod HardRt
mod Tests
use xm_sigma.Common.{ℕ, ◌+◌, ◌≤◌, leb, Bool, true, false, ◌&&◌, Option, none, some, List, [], ◌∷◌}
use xm_sigma.Common.{if◌then◌else◌, ◌>>=◌}
use xm_sigma.Logging.Level.{LogLevel}
use xm_sigma.Logging.Rows.{Text}
use xm_sigma.Logging.Environment.{level_of}
use xm_sigma.Logging.Paths.{Platform, get_current_process_name}
use xm_sigma.Logging.Spdlog.{Spdlog, plain}
use xm_sigma.Logging.Vendor.{
  Vendor, construct, initialize, log, should_log, set_logger_level, get_logger_level,
}
use xm_sigma.Logging.RtLogger.{Call, Event}
use xm_sigma.Logging.RtLogger.Outcome.{whole_call}

-- The `static` of `GetInstance` with the registry of spdlog; `built` counts the
-- `std::ostringstream`s that a stream macro made.
pub record Process (L : Spdlog) : Type 0 where
  pub default_logger : Option (Vendor L)
  pub registry : L.Registry
  pub built : ℕ

-- "%^[%l] [%E.%F] [%n]: %v%$"
abbrev pub default_pattern : Text
default_pattern =
    0x25 ∷ 0x5e ∷ 0x5b ∷ 0x25 ∷ 0x6c ∷ 0x5d ∷ 0x20 ∷ 0x5b ∷ 0x25 ∷ 0x45 ∷ 0x2e ∷ 0x25 ∷ 0x46 ∷ 0x5d
    ∷ 0x20 ∷ 0x5b ∷ 0x25 ∷ 0x6e ∷ 0x5d ∷ 0x3a ∷ 0x20 ∷ 0x25 ∷ 0x76 ∷ 0x25 ∷ 0x24 ∷ []

-- A thrown exception leaves the `static` as it was.
unfoldable pub get_instance :
    (L : Spdlog) → Platform → ℕ → Process L → Option (Vendor L × Process L)
get_instance L sys now p = elim p.default_logger [
  | some v ↦ some (v, p)
  | none ↦ do
    let name = get_current_process_name sys
    (v, registry) ←
        initialize L sys now name default_pattern (0x2e ∷ 0x6c ∷ 0x6f ∷ 0x67 ∷ []) (construct L)
          p.registry
    some (v, record p { default_logger = some v; registry = registry })
]

-- What the build defines: ENABLE_LOGGING and XMSIGMA_ACTIVE_LEVEL.
pub record Build : Type 0 where
  pub enable_logging : Bool
  pub active_level : ℕ

-- XLOG_TRACE to XLOG_FATAL, XLOG_TRACE_STREAM to XLOG_FATAL_STREAM and XLOG_RT_TRACE to
-- XLOG_RT_FATAL.
pub data Macro : Type 0 where
  trace debug info warn error fatal : Macro

-- The level that a macro passes on.
abbrev pub macro_level : Macro → LogLevel
macro_level Macro.trace = LogLevel.trace
macro_level Macro.debug = LogLevel.debug
macro_level Macro.info = LogLevel.info
macro_level Macro.warn = LogLevel.warn
macro_level Macro.error = LogLevel.error
macro_level Macro.fatal = LogLevel.fatal

-- The number in the `#if XMSIGMA_ACTIVE_LEVEL <= ...` around it.
abbrev pub macro_floor : Macro → ℕ
macro_floor Macro.trace = 0
macro_floor Macro.debug = 1
macro_floor Macro.info = 2
macro_floor Macro.warn = 3
macro_floor Macro.error = 4
macro_floor Macro.fatal = 5

unfoldable pub compiled_in : Build → Macro → Bool
compiled_in b m = if b.enable_logging then leb b.active_level (macro_floor m) else false

unfoldable pub xlog_impl :
    (L : Spdlog) → Platform → ℕ → LogLevel → Text → List Text → Process L → Option (Process L)
unfolding get_instance
xlog_impl L sys now lvl format args p = do
  (v, p) ← get_instance L sys now p
  v ← log L lvl format args v
  some (record p { default_logger = some v })

-- `text` is what `operator<<` makes of the arguments.
unfoldable pub xlog_stream_impl :
    (L : Spdlog) → Platform → ℕ → LogLevel → Text → Process L → Option (Process L)
unfolding get_instance
xlog_stream_impl L sys now lvl text p = do
  (v, p) ← get_instance L sys now p
  passes ← should_log L lvl v
  let logged = do
    v ← log L lvl plain (text ∷ []) v
    some (record p { default_logger = some v; built = p.built + 1 })
  if passes then logged else some p

unfoldable pub xlog :
    (L : Spdlog) → Build → Platform → ℕ → Macro → Text → List Text → Process L → Option (Process L)
unfolding compiled_in xlog_impl
xlog L b sys now m format args p =
    if compiled_in b m then xlog_impl L sys now (macro_level m) format args p else some p

unfoldable pub xlog_stream :
    (L : Spdlog) → Build → Platform → ℕ → Macro → Text → Process L → Option (Process L)
unfolding compiled_in xlog_stream_impl
xlog_stream L b sys now m text p =
    if compiled_in b m then xlog_stream_impl L sys now (macro_level m) text p else some p

-- XLOG_LEVEL; a number above 6 is a level that `ToSpdlogLevel` takes for off.
unfoldable pub xlog_level : (L : Spdlog) → Build → Platform → ℕ → ℕ → Process L → Option (Process L)
unfolding get_instance
xlog_level L b sys now level p =
    let set = (do
      (v, p) ← get_instance L sys now p
      v ← set_logger_level L (level_of level) v
      some (record p { default_logger = some v })) in
    if b.enable_logging then set else some p

unfoldable pub xlog_get_level :
    (L : Spdlog) → Build → Platform → ℕ → Process L → Option (LogLevel × Process L)
unfolding get_instance
xlog_get_level L b sys now p =
    let got = (do
      (v, p) ← get_instance L sys now p
      level ← get_logger_level L v
      some (level, p)) in
    if b.enable_logging then got else some (LogLevel.off, p)

-- The accesses that a hard-RT macro makes when no other thread comes between; `outcome` is what
-- fmt makes of its arguments, and the clock reads `now`.
unfoldable pub xlog_rt : Build → Macro → Option Text → ℕ → List Event
unfolding compiled_in
xlog_rt b m outcome now =
    if compiled_in b m
    then whole_call (record { level = macro_level m; outcome = outcome }) now
    else []
