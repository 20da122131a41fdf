-- ===== src/Logging/Macros/Tests.antt =====
-- An instance of each theorem on the logger of the process.
use xm_sigma.Common.{ℕ, ◌≡◌, refl, arith, ◌==◌, true, not, none, some}
use xm_sigma.Common.{List, [], ◌∷◌, ◌++◌, if◌then◌else◌, sub64}
use xm_sigma.Logging.Level.{LogLevel, SpdlogLevel, from_spdlog_level}
use xm_sigma.Logging.Rows.{Text}
use xm_sigma.Logging.Paths.{Platform, get_current_process_name}
use xm_sigma.Logging.Paths.Names.{process_name_is_last}
use xm_sigma.Logging.Spdlog.{taken, plain}
use xm_sigma.Logging.Vendor.{Vendor}
use xm_sigma.Logging.Vendor.Initialize.{env_level}
use xm_sigma.Logging.Macros.{Process, Build, Macro, get_instance, xlog, xlog_stream, xlog_rt}
use xm_sigma.Logging.Macros.Records.{Runs, xlog_lem, stream_same_records}
use xm_sigma.Logging.Macros.Filters.{leaves}
use xm_sigma.Logging.Macros.Lifetime.{first_use}
use xm_sigma.Logging.RtLogger.Outcome.{LogDid}
use xm_sigma.Logging.Macros.HardRt.{xlog_rt_lem}
use xm_sigma.Logging.Samples.{two, slots, slots-AreSlots}
use xm_sigma.Logging.RtLogger.{State, Entry, Call, construct, idle}
use xm_sigma.Logging.RtLogger
use xm_sigma.Logging.Spdlog.Keeping.{keeping, keeping-IsSpdlog, sys}

abbrev before_use : Process keeping
before_use = record { default_logger = none; registry = []; built = 0 }

first_use_example :
    (v : Vendor keeping) × (q : Process keeping) × (get_instance keeping sys 0x31 before_use
      ≡ some (v, q))
    × Runs keeping q (env_level sys) []
    × (q.built ≡ 0)
    × ((later : Platform) (then_ : ℕ) → get_instance keeping later then_ q ≡ some (v, q))
first_use_example = first_use keeping keeping-IsSpdlog sys 0x31 before_use 1 refl (λ wanted. refl)

-- A process whose logger is up, at level info and with one record.
abbrev up : Process keeping
up = record {
  default_logger = some (record {
    process_name = [];
    logger = some (record {
      threshold = SpdlogLevel.info;
      queue = (SpdlogLevel.warn, 0x61 ∷ []) ∷ [];
      to_sinks = 0 ∷ [];
    });
    sinks = 0 ∷ [];
  });
  registry = [];
  built = 0;
}

up-Runs : Runs keeping up LogLevel.info ((SpdlogLevel.warn, 0x61 ∷ []) ∷ [])
unfolding from_spdlog_level
up-Runs = record {
  vendor = _;
  logger = _;
  default_is = refl;
  logger_is = refl;
  level_is = refl;
  queue_is = refl;
}

abbrev build : Build
build = record { enable_logging = true; active_level = 1 }

abbrev held : List (SpdlogLevel × Text)
held = (SpdlogLevel.warn, 0x61 ∷ []) ∷ []

xlog_lem_example :
    (q : Process keeping) × (xlog keeping build sys 0 Macro.error (0x62 ∷ []) [] up ≡ some q)
    × (q.built ≡ 0)
    × Runs keeping q LogLevel.info
        (held ++ taken (leaves build Macro.error LogLevel.info) SpdlogLevel.err (some (0x62 ∷ [])))
xlog_lem_example =
    xlog_lem keeping keeping-IsSpdlog build sys 0 Macro.error (0x62 ∷ []) [] up LogLevel.info held
      up-Runs

stream_same_records_example :
    (q : Process keeping) × (q' : Process keeping) × (xlog keeping build sys 0 Macro.debug plain
        ((0x62 ∷ []) ∷ [])
        up
      ≡ some q)
    × (xlog_stream keeping build sys 0 Macro.debug (0x62 ∷ []) up ≡ some q')
    × (records' : List (SpdlogLevel × Text)) × Runs keeping q LogLevel.info records'
    × Runs keeping q' LogLevel.info records'
    × (q'.built ≡ (if leaves build Macro.debug LogLevel.info then 1 else 0))
stream_same_records_example =
    stream_same_records keeping keeping-IsSpdlog build sys 0 Macro.debug (0x62 ∷ []) up
      LogLevel.info held up-Runs

abbrev start : State
start = RtLogger.run (construct 2 slots LogLevel.info) []

start_idle : (start.producer ≡ idle) × (start.running ≡ true)
unfolding RtLogger.run construct
start_idle = (refl, refl)

xlog_rt_lem_example :
    LogDid 2 start
      (RtLogger.run start (xlog_rt build Macro.warn (some (0x62 ∷ [])) 5))
      (record { level = LogLevel.warn; outcome = some (0x62 ∷ []) })
      5
      (not (leaves build Macro.warn start.min_level))
      (sub64 start.head start.tail == 2)
xlog_rt_lem_example =
    xlog_rt_lem 2 slots LogLevel.info [] build Macro.warn (some (0x62 ∷ [])) 5 two slots-AreSlots
      start_idle.0 start_idle.1

process_name_is_last_example : get_current_process_name sys ≡ 0x61 ∷ []
process_name_is_last_example =
    process_name_is_last sys (0x2f ∷ 0x62 ∷ []) (0x61 ∷ []) refl
      (omega arith, (omega arith, (omega arith, (omega arith, tt)))) (omega arith, tt)
