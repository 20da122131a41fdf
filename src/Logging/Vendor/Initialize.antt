-- ===== src/Logging/Vendor/Initialize.antt =====
-- `Initialize` of a new logger, and its level.
use xm_sigma.Common.{ℕ, ◌≡◌, refl, ◌∙◌, ap, Bool, true, ◌&&◌, some}
use xm_sigma.Common.{List, [], ◌∷◌, if◌then◌else◌, Bool-cases, inl, inr}
use xm_sigma.Logging.Level.{
  LogLevel, SpdlogLevel, to_spdlog_level, from_spdlog_level, default_log_level, to_int,
}
use xm_sigma.Logging.Level.Laws.{level_round_trip}
use xm_sigma.Logging.Rows.{Text}
use xm_sigma.Logging.Environment.{resolve_log_level_from_env}
use xm_sigma.Logging.Paths.{Platform, create_log_name_with_full_path}
use xm_sigma.Logging.Spdlog.{Spdlog, IsSpdlog, severity}
use xm_sigma.Logging.Vendor.{Vendor, construct, enable_logfile, below_off, push_sinks, initialize}
use xm_sigma.Logging.Vendor.{
  set_logger_level, get_logger_level, async_queue_size, async_worker_threads,
}

pub severity_lem : (l : LogLevel) → severity (to_spdlog_level l) ≡ to_int l
unfolding to_spdlog_level
severity_lem LogLevel.trace = refl
severity_lem LogLevel.debug = refl
severity_lem LogLevel.info = refl
severity_lem LogLevel.warn = refl
severity_lem LogLevel.error = refl
severity_lem LogLevel.fatal = refl
severity_lem LogLevel.off = refl

-- A logger that takes records: with this level, these sinks, and nothing taken yet.
pub record Fresh (L : Spdlog) (v : Vendor L) (level : LogLevel) (sinks : List L.Sink) : Type 0 where
  pub logger : L.Logger
  pub logger_is : v.logger ≡ some logger
  pub level_is : get_logger_level L v ≡ some level
  pub sinks_are : L.sinks_of logger ≡ sinks
  pub queue_is : L.queued logger ≡ []

-- The level that the environment gives.
abbrev pub env_level : Platform → LogLevel
env_level sys = resolve_log_level_from_env sys.getenv sys.strtol default_log_level

abbrev pub wants_file : Platform → Bool
wants_file sys = enable_logfile sys && below_off (to_spdlog_level (env_level sys))

-- The console, and the file if the environment asks for one and the level is not off.
abbrev pub wanted_sinks : (L : Spdlog) → Platform → L.Sink → List L.Sink
wanted_sinks L sys file = if wants_file sys then L.stdout_sink ∷ file ∷ [] else L.stdout_sink ∷ []

push_sinks_lem :
    (L : Spdlog) (sys : Platform) (now : ℕ) (name suffix : Text) (file : L.Sink)
    → (wants_file sys ≡ true
        → L.file_sink (create_log_name_with_full_path sys now name suffix) ≡ some file)
    → push_sinks L sys now name suffix (to_spdlog_level (env_level sys)) []
      ≡ some (wanted_sinks L sys file)
unfolding push_sinks
push_sinks_lem L sys now name suffix file opens = elim (Bool-cases (wants_file sys)) [
  | inl wanted ↦ rw (push_sinks, wanted, opens wanted) refl
  | inr other ↦ rw (push_sinks, other) refl
]

-- If the log file can be opened when it is wanted, `Initialize` of a new logger does not throw, whatever loggers the
-- registry has, also one of the same name: the logger has the level that the environment gives,
-- writes to the console and, if the environment asks for it and the level is not off, to the file,
-- and has taken no record.
pub initialize_succeeds :
    (L : Spdlog) (laws : IsSpdlog L) (sys : Platform) (now : ℕ) (name pattern suffix : Text)
    → (registry : L.Registry) (file : L.Sink)
    → (wants_file sys ≡ true
        → L.file_sink (create_log_name_with_full_path sys now name suffix) ≡ some file)
    → (v : Vendor L) × (registry' : L.Registry) × (initialize L sys now name pattern suffix
          (construct L)
          registry
        ≡ some (v, registry'))
      × Fresh L v (env_level sys) (wanted_sinks L sys file)
unfolding initialize set_logger_level get_logger_level
initialize_succeeds L laws sys now name pattern suffix registry file opens =
    let pool =
      if L.thread_pool registry
      then registry
      else L.init_thread_pool async_queue_size async_worker_threads registry in
    let (registered, done) = laws.registers name (L.drop name pool) (laws.forgets name pool) in
    let sinks = wanted_sinks L sys file in
    let logger = L.flush_on SpdlogLevel.err (L.set_pattern pattern (L.async_logger name sinks)) in
    let level = to_spdlog_level (env_level sys) in
    let final = L.set_level (to_spdlog_level (from_spdlog_level level)) logger in
    (
      record { process_name = (construct L).process_name; logger = some final; sinks = sinks },
      L.flush_every 1 registered,
      rw (push_sinks_lem L sys now name suffix file opens, done) refl,
      record {
        logger = final;
        logger_is = refl;
        level_is =
            ap (λ (l : SpdlogLevel). some (from_spdlog_level l))
              (laws.level_of_set (to_spdlog_level (from_spdlog_level level)) logger)
            ∙ ap some (
                (level_round_trip (from_spdlog_level level) SpdlogLevel.off).0
                ∙ (level_round_trip (env_level sys) SpdlogLevel.off).0);
        sinks_are =
            laws.sinks_of_set (to_spdlog_level (from_spdlog_level level)) logger
            ∙ laws.sinks_of_new name pattern SpdlogLevel.err sinks;
        queue_is =
            laws.queued_of_set (to_spdlog_level (from_spdlog_level level)) logger
            ∙ laws.queued_of_new name pattern SpdlogLevel.err sinks;
      },
    )
