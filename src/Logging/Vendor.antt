-- ===== src/Logging/Vendor.antt =====
-- logging/details/logger_vendor_spdlog.hpp and src/logger_vendor_spdlog.cpp: `LoggerVendorSpdlog`,
-- over a `Spdlog`. `none` is an exception in `initialize`, after which the object is given up, and
-- the use of a null `logger_` in the other methods.
pub mod Initialize
use xm_sigma.Common.{
  ℕ, ◌<◌, ltb, Bool, true, false, ◌&&◌, ◌||◌, Option, none, some, List, [], ◌∷◌, ◌++◌,
}
use xm_sigma.Common.{if◌then◌else◌, ◌>>=◌}
use xm_sigma.Logging.Level.{
  LogLevel, SpdlogLevel, to_spdlog_level, from_spdlog_level, default_log_level,
}
use xm_sigma.Logging.Rows.{Text, same_text}
use xm_sigma.Logging.Environment.{get_environment_variable, resolve_log_level_from_env}
use xm_sigma.Logging.Paths.{Platform, create_log_name_with_full_path}
use xm_sigma.Logging.Spdlog.{Spdlog, severity}

pub record Vendor (L : Spdlog) : Type 0 where
  pub process_name : Text
  pub logger : Option L.Logger
  pub sinks : List L.Sink

-- "uninitialized"
abbrev pub construct : (L : Spdlog) → Vendor L
construct L = record {
  process_name =
      0x75 ∷ 0x6e ∷ 0x69 ∷ 0x6e ∷ 0x69 ∷ 0x74 ∷ 0x69 ∷ 0x61 ∷ 0x6c ∷ 0x69 ∷ 0x7a ∷ 0x65 ∷ 0x64 ∷ [];
  logger = none;
  sinks = [];
}

-- "XLOG_ENABLE_LOGFILE"
abbrev pub log_logfile_env_var_name : Text
log_logfile_env_var_name =
    0x58 ∷ 0x4c ∷ 0x4f ∷ 0x47 ∷ 0x5f ∷ 0x45 ∷ 0x4e ∷ 0x41 ∷ 0x42 ∷ 0x4c ∷ 0x45 ∷ 0x5f ∷ 0x4c ∷ 0x4f
    ∷ 0x47 ∷ 0x46 ∷ 0x49 ∷ 0x4c ∷ 0x45 ∷ []

abbrev pub async_queue_size : ℕ
async_queue_size = 8192

abbrev pub async_worker_threads : ℕ
async_worker_threads = 1

-- "TRUE", "true" or "1"
unfoldable pub enable_logfile : Platform → Bool
enable_logfile sys =
    let var = get_environment_variable sys.getenv sys.strtol log_logfile_env_var_name in
    same_text var (0x54 ∷ 0x52 ∷ 0x55 ∷ 0x45 ∷ [])
    || same_text var (0x74 ∷ 0x72 ∷ 0x75 ∷ 0x65 ∷ [])
    || same_text var (0x31 ∷ [])

-- `log_level < spdlog::level::off`
abbrev pub below_off : SpdlogLevel → Bool
below_off l = ltb (severity l) (severity SpdlogLevel.off)

-- What `sinks_` is after the two `push_back`.
unfoldable pub push_sinks :
    (L : Spdlog) → Platform → ℕ → Text → Text → SpdlogLevel → List L.Sink → Option (List L.Sink)
unfolding enable_logfile
push_sinks L sys now name suffix log_level sinks =
    let console = sinks ++ (L.stdout_sink ∷ []) in
    let file = L.file_sink (create_log_name_with_full_path sys now name suffix) in
    if enable_logfile sys && below_off log_level
    then elim file [ none ↦ none | some sink ↦ some (console ++ (sink ∷ [])) ]
    else some console

unfoldable pub set_logger_level : (L : Spdlog) → LogLevel → Vendor L → Option (Vendor L)
set_logger_level L level v = do
  logger ← v.logger
  some (record v { logger = some (L.set_level (to_spdlog_level level) logger) })

unfoldable pub get_logger_level : (L : Spdlog) → Vendor L → Option LogLevel
get_logger_level L v = do logger ← v.logger; some (from_spdlog_level (L.level logger))

unfoldable pub should_log : (L : Spdlog) → LogLevel → Vendor L → Option Bool
should_log L level v = do logger ← v.logger; some (L.should_log logger (to_spdlog_level level))

-- `now` is what the clock answers when the name of the log file is made.
unfoldable pub initialize :
    (L : Spdlog)
    → Platform
    → ℕ
    → Text
    → Text
    → Text
    → Vendor L
    → L.Registry
    → Option (Vendor L × L.Registry)
unfolding push_sinks set_logger_level
initialize L sys now name pattern suffix v registry = do
  let log_level =
      to_spdlog_level (resolve_log_level_from_env sys.getenv sys.strtol default_log_level)
  sinks ← push_sinks L sys now name suffix log_level v.sinks
  let registry =
      if L.thread_pool registry
      then registry
      else L.init_thread_pool async_queue_size async_worker_threads registry
  let logger = L.set_pattern pattern (L.async_logger name sinks)
  registry ← L.register_logger name (L.drop name registry)
  let logger = L.flush_on SpdlogLevel.err logger
  let registry = L.flush_every 1 registry
  v ←
      set_logger_level L (from_spdlog_level log_level)
        (record v { logger = some logger; sinks = sinks })
  some (v, registry)

unfoldable pub terminate : (L : Spdlog) → Vendor L → Option (Vendor L)
terminate L v = do logger ← v.logger; some (record v { logger = some (L.flush logger) })

-- `logger_->trace(args...)` and its like.
unfoldable pub log_at : (L : Spdlog) → SpdlogLevel → Text → List Text → Vendor L → Option (Vendor L)
log_at L l format args v = do
  logger ← v.logger
  some (record v { logger = some (L.log l format args logger) })

unfoldable pub log : (L : Spdlog) → LogLevel → Text → List Text → Vendor L → Option (Vendor L)
unfolding log_at
log L LogLevel.trace format args v = log_at L SpdlogLevel.trace format args v
log L LogLevel.debug format args v = log_at L SpdlogLevel.debug format args v
log L LogLevel.info format args v = log_at L SpdlogLevel.info format args v
log L LogLevel.warn format args v = log_at L SpdlogLevel.warn format args v
log L LogLevel.error format args v = log_at L SpdlogLevel.err format args v
log L LogLevel.fatal format args v = log_at L SpdlogLevel.critical format args v
log L LogLevel.off format args v = some v
