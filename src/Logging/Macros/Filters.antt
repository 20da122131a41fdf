-- ===== src/Logging/Macros/Filters.antt =====
-- Which macros leave a record, at which levels of the build and of the logger.
use xm_sigma.Common.{◌≡◌, refl, leb, Bool, true, false, ◌&&◌}
use xm_sigma.Common.{if◌then◌else◌}
use xm_sigma.Logging.Level.{LogLevel, SpdlogLevel, to_spdlog_level, to_int}
use xm_sigma.Logging.Level.Laws.{rank, rank_lem}
use xm_sigma.Logging.Macros.{Build, Macro, macro_level, macro_floor, compiled_in}

-- The level that a macro's name says, in the program's scale and in spdlog's.
abbrev pub named : Macro → LogLevel
named Macro.trace = LogLevel.trace
named Macro.debug = LogLevel.debug
named Macro.info = LogLevel.info
named Macro.warn = LogLevel.warn
named Macro.error = LogLevel.error
named Macro.fatal = LogLevel.fatal

abbrev pub named_for_sinks : Macro → SpdlogLevel
named_for_sinks Macro.trace = SpdlogLevel.trace
named_for_sinks Macro.debug = SpdlogLevel.debug
named_for_sinks Macro.info = SpdlogLevel.info
named_for_sinks Macro.warn = SpdlogLevel.warn
named_for_sinks Macro.error = SpdlogLevel.err
named_for_sinks Macro.fatal = SpdlogLevel.critical

-- Whether a macro leaves a record: logging is enabled, and the level of its name is below neither
-- the level of the build nor the runtime level.
abbrev pub leaves : Build → Macro → LogLevel → Bool
leaves b m level =
    b.enable_logging && (leb b.active_level (rank (named m)) && leb (rank level) (rank (named m)))

-- The same test in the program's words.
abbrev pub passes : Build → Macro → LogLevel → Bool
passes b m level = compiled_in b m && leb (to_int level) (to_int (macro_level m))

pub named_lem : (m : Macro) → macro_level m ≡ named m
named_lem Macro.trace = refl
named_lem Macro.debug = refl
named_lem Macro.info = refl
named_lem Macro.warn = refl
named_lem Macro.error = refl
named_lem Macro.fatal = refl

pub sinks_lem : (m : Macro) → to_spdlog_level (macro_level m) ≡ named_for_sinks m
unfolding to_spdlog_level
sinks_lem Macro.trace = refl
sinks_lem Macro.debug = refl
sinks_lem Macro.info = refl
sinks_lem Macro.warn = refl
sinks_lem Macro.error = refl
sinks_lem Macro.fatal = refl

floor_lem : (m : Macro) → macro_floor m ≡ rank (named m)
floor_lem Macro.trace = refl
floor_lem Macro.debug = refl
floor_lem Macro.info = refl
floor_lem Macro.warn = refl
floor_lem Macro.error = refl
floor_lem Macro.fatal = refl

guarded : (a b c : Bool) → ((if a then b else false) && c) ≡ (a && (b && c))
guarded true b c = refl
guarded false b c = refl

pub passes_lem : (b : Build) (m : Macro) (level : LogLevel) → passes b m level ≡ leaves b m level
unfolding compiled_in
passes_lem b m level =
    rw (floor_lem m, named_lem m, rank_lem level, rank_lem (named m))
      (guarded b.enable_logging (leb b.active_level (rank (named m)))
        (leb (rank level) (rank (named m))))
