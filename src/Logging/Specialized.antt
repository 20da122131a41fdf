-- ===== src/Logging/Specialized.antt =====
-- logging/details/specialized_logger.hpp with csv_logger.hpp and event_logger.hpp: the loggers that
-- write a file of their own, over a `Spdlog`. `enabled` says whether ENABLE_LOGGING is defined.
-- `none` is an exception of the constructor, and the use of a null `logger_` in the other methods.
pub mod Taken
mod Tests
use xm_sigma.Common.{ℕ, Bool, true, false, Option, none, some, List, [], ◌∷◌, if◌then◌else◌, ◌>>=◌}
use xm_sigma.Logging.Level.{SpdlogLevel}
use xm_sigma.Logging.Rows.{Text, log_row}
use xm_sigma.Logging.Paths.{Platform, create_log_file_name}
use xm_sigma.Logging.Spdlog.{Spdlog, plain}

pub record SpecializedLogger (L : Spdlog) : Type 0 where
  pub logger : Option L.Logger
  pub logfile_prefix : Text
  pub logfile_path : Text

-- "%v"
abbrev pub row_pattern : Text
row_pattern = 0x25 ∷ 0x76 ∷ []

unfoldable pub construct :
    (L : Spdlog)
    → Bool
    → Platform
    → ℕ
    → Text
    → Text
    → L.Registry
    → Option (SpecializedLogger L × L.Registry)
construct L enabled sys now pre path registry =
    let filename = create_log_file_name sys now pre path in
    let made = (do
      (x, registry) ← L.basic_logger_mt filename filename registry
      some (
        record {
          logger = some (L.set_pattern row_pattern x);
          logfile_prefix = pre;
          logfile_path = path;
        },
        registry,
      )) in
    if enabled
    then made
    else some (record { logger = none; logfile_prefix = pre; logfile_path = path }, registry)

-- `GetLogger` of the csv and control loggers, with its `static`: the first call constructs.
unfoldable pub get_logger :
    (L : Spdlog)
    → Bool
    → Platform
    → ℕ
    → Text
    → Text
    → Option (SpecializedLogger L)
    → L.Registry
    → Option (SpecializedLogger L × L.Registry)
unfolding construct
get_logger L enabled sys now pre path instance_ registry = elim instance_ [
  | some s ↦ some (s, registry)
  | none ↦ construct L enabled sys now pre path registry
]

unfoldable pub flush : (L : Spdlog) → Bool → SpecializedLogger L → SpecializedLogger L
flush L enabled s =
    if enabled
    then elim s.logger [ none ↦ s | some x ↦ record s { logger = some (L.flush x) } ]
    else s

-- `logger_->info("{}", text)` and its like.
unfoldable pub pass :
    (L : Spdlog) → Bool → SpdlogLevel → Text → SpecializedLogger L → Option (SpecializedLogger L)
pass L enabled l text s =
    let passed = (do
      x ← s.logger
      some (record s { logger = some (L.log l plain (text ∷ []) x) })) in
    if enabled then passed else some s

-- `LogInfo`, `LogWarn` and `LogFatal`
unfoldable pub log_info :
    (L : Spdlog) → Bool → Text → SpecializedLogger L → Option (SpecializedLogger L)
unfolding pass
log_info L enabled msg s = pass L enabled SpdlogLevel.info msg s

unfoldable pub log_warn :
    (L : Spdlog) → Bool → Text → SpecializedLogger L → Option (SpecializedLogger L)
unfolding pass
log_warn L enabled msg s = pass L enabled SpdlogLevel.warn msg s

unfoldable pub log_fatal :
    (L : Spdlog) → Bool → Text → SpecializedLogger L → Option (SpecializedLogger L)
unfolding pass
log_fatal L enabled msg s = pass L enabled SpdlogLevel.critical msg s

-- `LogData` and `LogEvent`, of the texts that their values are written as.
unfoldable pub log_data :
    (L : Spdlog) → Bool → List Text → SpecializedLogger L → Option (SpecializedLogger L)
unfolding pass
log_data L enabled values s = elim (log_row values) [
  | none ↦ some s
  | some data_ ↦ pass L enabled SpdlogLevel.info data_ s
]
