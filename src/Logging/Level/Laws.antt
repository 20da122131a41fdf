-- ===== src/Logging/Level/Laws.antt =====
-- The order of the levels, and that the two level scales match.
use xm_sigma.Common.{ℕ, ltb, ◌≡◌, refl}
use xm_sigma.Logging.Level.{
  LogLevel, SpdlogLevel, to_spdlog_level, from_spdlog_level, to_int, below,
}

-- How severe a level is, by the order trace, debug, info, warn, error, fatal, off.
abbrev pub rank : LogLevel → ℕ
rank LogLevel.trace = 0
rank LogLevel.debug = 1
rank LogLevel.info = 2
rank LogLevel.warn = 3
rank LogLevel.error = 4
rank LogLevel.fatal = 5
rank LogLevel.off = 6

pub rank_lem : (l : LogLevel) → to_int l ≡ rank l
rank_lem LogLevel.trace = refl
rank_lem LogLevel.debug = refl
rank_lem LogLevel.info = refl
rank_lem LogLevel.warn = refl
rank_lem LogLevel.error = refl
rank_lem LogLevel.fatal = refl
rank_lem LogLevel.off = refl

pub below-rank : (a b : LogLevel) → below a b ≡ ltb (rank a) (rank b)
below-rank a b = rw (rank_lem a, rank_lem b) refl

-- The conversions between the program's levels and spdlog's are inverse to each other, both ways.
pub level_round_trip :
    (l : LogLevel) (s : SpdlogLevel)
    → (from_spdlog_level (to_spdlog_level l) ≡ l) × (to_spdlog_level (from_spdlog_level s) ≡ s)
unfolding to_spdlog_level from_spdlog_level
level_round_trip l s = (there l, back s)
  where
    there : (l : LogLevel) → from_spdlog_level (to_spdlog_level l) ≡ l
    there LogLevel.trace = refl
    there LogLevel.debug = refl
    there LogLevel.info = refl
    there LogLevel.warn = refl
    there LogLevel.error = refl
    there LogLevel.fatal = refl
    there LogLevel.off = refl

    back : (s : SpdlogLevel) → to_spdlog_level (from_spdlog_level s) ≡ s
    back SpdlogLevel.trace = refl
    back SpdlogLevel.debug = refl
    back SpdlogLevel.info = refl
    back SpdlogLevel.warn = refl
    back SpdlogLevel.err = refl
    back SpdlogLevel.critical = refl
    back SpdlogLevel.off = refl
