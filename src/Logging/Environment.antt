-- ===== src/Logging/Environment.antt =====
-- logging/details/logging_utils.hpp: what the loggers read from the environment. `getenv` and
-- `strtol` are parameters: the value of a variable, and the number that a text starts with
-- together with how many characters it takes up.
pub mod Level
use xm_sigma.Common.{
  ℕ, zero, suc, ◌==◌, ltb, Bool, true, false, Option, none, some, List, [], ◌∷◌, if◌then◌else◌,
}
use xm_sigma.Common.Int.{ℤ, pos, negsuc}
use xm_sigma.Logging.Level.{LogLevel}
use xm_sigma.Logging.Rows.{Text}

-- "XLOG_LEVEL"
abbrev pub log_level_env_var_name : Text
log_level_env_var_name = 0x58 ∷ 0x4c ∷ 0x4f ∷ 0x47 ∷ 0x5f ∷ 0x4c ∷ 0x45 ∷ 0x56 ∷ 0x45 ∷ 0x4c ∷ []

-- `static_cast<LogLevel>(level)` for 0 to 6
unfoldable pub level_of : ℕ → LogLevel
level_of zero = LogLevel.trace
level_of (suc zero) = LogLevel.debug
level_of (suc (suc zero)) = LogLevel.info
level_of (suc (suc (suc zero))) = LogLevel.warn
level_of (suc (suc (suc (suc zero)))) = LogLevel.error
level_of (suc (suc (suc (suc (suc zero))))) = LogLevel.fatal
level_of n = LogLevel.off

-- `level < 0 || level > 6` falls back.
unfoldable pub level_or : LogLevel → ℤ → LogLevel
unfolding level_of
level_or fallback (pos n) = if ltb 6 n then fallback else level_of n
level_or fallback (negsuc n) = fallback

module _ (getenv : Text → Option Text) (strtol : Text → ℤ × ℕ) where
  unfoldable pub get_environment_variable : Text → Text
  get_environment_variable name = elim (getenv name) [ none ↦ [] | some value ↦ value ]

  unfoldable pub level_of_text : LogLevel → Text → LogLevel
  unfolding level_or
  level_of_text fallback [] = fallback
  level_of_text fallback (c ∷ value) =
      let (level, used) = strtol (c ∷ value) in
      if used == 0 then fallback else level_or fallback level

  unfoldable pub resolve_log_level_from_env : LogLevel → LogLevel
  unfolding get_environment_variable level_of_text
  resolve_log_level_from_env fallback =
      level_of_text fallback (get_environment_variable log_level_env_var_name)
