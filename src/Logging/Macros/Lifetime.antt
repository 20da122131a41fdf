-- ===== src/Logging/Macros/Lifetime.antt =====
-- The logger of the process: its first use, and its level.
use xm_sigma.Common.{ℕ, ◌≡◌, refl, sym, ◌∙◌, ap, true, none, some}
use xm_sigma.Common.{List, [], ◌∷◌, if◌then◌else◌, Bool-cases, inl, inr}
use xm_sigma.Logging.Level.{LogLevel, SpdlogLevel, to_spdlog_level, from_spdlog_level, to_int}
use xm_sigma.Logging.Level.Laws.{level_round_trip}
use xm_sigma.Logging.Rows.{Text}
use xm_sigma.Logging.Environment.{level_of}
use xm_sigma.Logging.Paths.{Platform, get_current_process_name, create_log_name_with_full_path}
use xm_sigma.Logging.Spdlog.{Spdlog, IsSpdlog}
use xm_sigma.Logging.Vendor.{Vendor, set_logger_level, get_logger_level}
use xm_sigma.Logging.Vendor.Initialize.{env_level, wants_file, Fresh, initialize_succeeds}
use xm_sigma.Logging.Macros.{Process, Build, get_instance, default_pattern}
use xm_sigma.Logging.Macros.{xlog_level, xlog_get_level}
use xm_sigma.Logging.Macros.Records.{Runs, get_instance_up}
use xm_sigma.Logging.Vendor.Initialize.{wanted_sinks}
use xm_sigma.Logging.Environment.Level.{level_of-to_int}

set_up :
    (L : Spdlog) (l : LogLevel) (v : Vendor L) (x : L.Logger)
    → v.logger ≡ some x
    → set_logger_level L l v ≡ some (record v { logger = some (L.set_level (to_spdlog_level l) x) })
unfolding set_logger_level
set_up L l v x e = rw (set_logger_level, e) refl

level_of_fresh :
    {L : Spdlog} (v : Vendor L) (x : L.Logger) (level : LogLevel)
    → v.logger ≡ some x
    → get_logger_level L v ≡ some level
    → from_spdlog_level (L.level x) ≡ level
unfolding get_logger_level
level_of_fresh {L} v x level e is =
    let same : some (from_spdlog_level (L.level x)) ≡ some level =
      sym (rw (get_logger_level, e) refl) ∙ is in
    cc

-- XLOG_LEVEL with the number of a level sets the level that XLOG_GET_LEVEL then answers, and
-- changes no record; without ENABLE_LOGGING it does nothing and the answer is off.
pub level_set_get :
    (L : Spdlog) (laws : IsSpdlog L) (b : Build) (sys : Platform) (now : ℕ) (p : Process L)
    → (level new : LogLevel) (records : List (SpdlogLevel × Text)) → Runs L p level records
    → (q : Process L) × (xlog_level L b sys now (to_int new) p ≡ some q)
      × Runs L q (if b.enable_logging then new else level) records
      × (xlog_get_level L b sys now q ≡ some (if b.enable_logging then new else LogLevel.off, q))
unfolding xlog_level xlog_get_level get_logger_level
level_set_get L laws b sys now p level new records r = elim (Bool-cases b.enable_logging) [
  | inl enabled ↦
      let x = L.set_level (to_spdlog_level new) r.logger in
      let v = record r.vendor { logger = some x } in
      let q = record p { default_logger = some v } in
      let number : level_of (to_int new) ≡ new = level_of-to_int new in
      let level_is : from_spdlog_level (L.level x) ≡ new =
        ap from_spdlog_level (laws.level_of_set (to_spdlog_level new) r.logger)
        ∙ (level_round_trip new SpdlogLevel.off).0 in
      (
        q,
        rw
            (
              enabled,
              get_instance_up L sys now p r.vendor r.default_is,
              number,
              set_up L new r.vendor r.logger r.logger_is,
            )
            refl,
        rw enabled (record {
          vendor = v;
          logger = x;
          default_is = refl;
          logger_is = refl;
          level_is = level_is;
          queue_is = laws.queued_of_set (to_spdlog_level new) r.logger ∙ r.queue_is;
        }),
        rw enabled (ap (λ (l : LogLevel). some (l, q)) level_is),
      )
  | inr disabled ↦ (p, rw disabled refl, rw disabled r, rw disabled refl)
]

-- The first use of the logger, if the log file can be opened when it is wanted: the logger is up,
-- at the level that the environment gives and without a record, no stream is built, and each later
-- use finds the same logger, whatever the environment then is.
pub first_use :
    (L : Spdlog) (laws : IsSpdlog L) (sys : Platform) (now : ℕ) (p : Process L) (file : L.Sink)
    → p.default_logger ≡ none
    → (wants_file sys ≡ true
        → L.file_sink (
            create_log_name_with_full_path sys now
              (get_current_process_name sys)
              (0x2e ∷ 0x6c ∷ 0x6f ∷ 0x67 ∷ []))
          ≡ some file)
    → (v : Vendor L) × (q : Process L) × (get_instance L sys now p ≡ some (v, q))
      × Runs L q (env_level sys) []
      × (q.built ≡ p.built)
      × ((later : Platform) (then_ : ℕ) → get_instance L later then_ q ≡ some (v, q))
unfolding get_instance
first_use L laws sys now p file e opens =
    let (v, registry, done, fresh) =
      initialize_succeeds L laws sys now (get_current_process_name sys) default_pattern
        (0x2e ∷ 0x6c ∷ 0x6f ∷ 0x67 ∷ []) p.registry file opens in
    (
      v,
      record p { default_logger = some v; registry = registry },
      simp (get_instance, e, done),
      up v fresh registry,
      refl,
      λ later then_. refl,
    )
  where
    up :
        (v : Vendor L)
        → Fresh L v (env_level sys) (wanted_sinks L sys file)
        → (registry : L.Registry)
        → Runs L (record p { default_logger = some v; registry = registry }) (env_level sys) []
    up v fresh registry = record {
      vendor = v;
      logger = fresh.logger;
      default_is = refl;
      logger_is = fresh.logger_is;
      level_is = level_of_fresh v fresh.logger (env_level sys) fresh.logger_is fresh.level_is;
      queue_is = fresh.queue_is;
    }
