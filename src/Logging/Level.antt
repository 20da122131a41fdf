-- ===== src/Logging/Level.antt =====
-- logging/details/logger_interface.hpp: `LogLevel`; src/logger_vendor_spdlog.cpp: its conversions.
pub mod Laws
use xm_sigma.Common.{ℕ, Bool, ltb}

pub data LogLevel : Type 0 where
  trace debug info warn error fatal off : LogLevel

-- `spdlog::level::level_enum`, by the names that the sources use.
pub data SpdlogLevel : Type 0 where
  trace debug info warn err critical off : SpdlogLevel

-- The enumerators' values.
abbrev pub to_int : LogLevel → ℕ
to_int LogLevel.trace = 0
to_int LogLevel.debug = 1
to_int LogLevel.info = 2
to_int LogLevel.warn = 3
to_int LogLevel.error = 4
to_int LogLevel.fatal = 5
to_int LogLevel.off = 6

abbrev pub default_log_level : LogLevel
default_log_level = LogLevel.info

-- `a < b` on the enum
abbrev pub below : LogLevel → LogLevel → Bool
below a b = ltb (to_int a) (to_int b)

unfoldable pub to_spdlog_level : LogLevel → SpdlogLevel
to_spdlog_level LogLevel.trace = SpdlogLevel.trace
to_spdlog_level LogLevel.debug = SpdlogLevel.debug
to_spdlog_level LogLevel.info = SpdlogLevel.info
to_spdlog_level LogLevel.warn = SpdlogLevel.warn
to_spdlog_level LogLevel.error = SpdlogLevel.err
to_spdlog_level LogLevel.fatal = SpdlogLevel.critical
to_spdlog_level LogLevel.off = SpdlogLevel.off

unfoldable pub from_spdlog_level : SpdlogLevel → LogLevel
from_spdlog_level SpdlogLevel.trace = LogLevel.trace
from_spdlog_level SpdlogLevel.debug = LogLevel.debug
from_spdlog_level SpdlogLevel.info = LogLevel.info
from_spdlog_level SpdlogLevel.warn = LogLevel.warn
from_spdlog_level SpdlogLevel.err = LogLevel.error
from_spdlog_level SpdlogLevel.critical = LogLevel.fatal
from_spdlog_level SpdlogLevel.off = LogLevel.off
