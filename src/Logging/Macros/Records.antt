-- ===== src/Logging/Macros/Records.antt =====
-- The records that the macros leave, over a spdlog that does what its documentation says.
use xm_sigma.Logging.Macros.Filters.{named_for_sinks, leaves, passes, sinks_lem, passes_lem}
use xm_sigma.Common.{ℕ, ◌+◌, ◌≡◌, refl, sym, ◌∙◌, ap, subst, leb, Bool, true, false, some}
use xm_sigma.Common.{List, [], ◌∷◌, ◌++◌, append-nil, if◌then◌else◌, Bool-cases, inl, inr}
use xm_sigma.Logging.Level.{LogLevel, SpdlogLevel, to_spdlog_level, from_spdlog_level, to_int}
use xm_sigma.Logging.Level.Laws.{level_round_trip}
use xm_sigma.Logging.Rows.{Text}
use xm_sigma.Logging.Paths.{Platform}
use xm_sigma.Logging.Spdlog.{Spdlog, IsSpdlog, severity, taken, plain}
use xm_sigma.Logging.Vendor.{Vendor, log, log_at, should_log}
use xm_sigma.Logging.Vendor.Initialize.{severity_lem}
use xm_sigma.Logging.Macros.{Process, Build, Macro, macro_level, compiled_in, get_instance}
use xm_sigma.Logging.Macros.{xlog_impl, xlog_stream_impl, xlog, xlog_stream}

-- The logger of the process is up, at this level, and has taken these records.
pub record Runs (L : Spdlog) (p : Process L) (level : LogLevel)
    (records : List (SpdlogLevel × Text)) : Type 0 where
  pub vendor : Vendor L
  pub logger : L.Logger
  pub default_is : p.default_logger ≡ some vendor
  pub logger_is : vendor.logger ≡ some logger
  pub level_is : from_spdlog_level (L.level logger) ≡ level
  pub queue_is : L.queued logger ≡ records

log_macro :
    (L : Spdlog) (m : Macro) (format : Text) (args : List Text) (v : Vendor L) (x : L.Logger)
    → v.logger ≡ some x
    → log L (macro_level m) format args v
      ≡ some (record v { logger = some (L.log (to_spdlog_level (macro_level m)) format args x) })
unfolding log log_at to_spdlog_level
log_macro L Macro.trace format args v x e = rw (log, log_at, e) refl
log_macro L Macro.debug format args v x e = rw (log, log_at, e) refl
log_macro L Macro.info format args v x e = rw (log, log_at, e) refl
log_macro L Macro.warn format args v x e = rw (log, log_at, e) refl
log_macro L Macro.error format args v x e = rw (log, log_at, e) refl
log_macro L Macro.fatal format args v x e = rw (log, log_at, e) refl

pub get_instance_up :
    (L : Spdlog) (sys : Platform) (now : ℕ) (p : Process L) (v : Vendor L)
    → p.default_logger ≡ some v
    → get_instance L sys now p ≡ some (v, p)
unfolding get_instance
get_instance_up L sys now p v e = simp (get_instance, e)

should_log_up :
    (L : Spdlog) (l : LogLevel) (v : Vendor L) (x : L.Logger)
    → v.logger ≡ some x
    → should_log L l v ≡ some (L.should_log x (to_spdlog_level l))
unfolding should_log
should_log_up L l v x e = rw (should_log, e) refl

module _ (L : Spdlog) (laws : IsSpdlog L) where
  -- The runtime test, in the program's levels.
  admits_level :
      (x : L.Logger) (level l : LogLevel)
      → from_spdlog_level (L.level x) ≡ level
      → L.should_log x (to_spdlog_level l) ≡ leb (to_int level) (to_int l)
  admits_level x level l e =
      let back : L.level x ≡ to_spdlog_level level =
        sym (level_round_trip LogLevel.off (L.level x)).1 ∙ ap to_spdlog_level e in
      laws.admits x (to_spdlog_level l)
      ∙ ap (λ (k : SpdlogLevel). leb (severity k) (severity (to_spdlog_level l))) back
      ∙ rw (severity_lem level, severity_lem l) refl

  -- The process after its logger was given a message.
  after_log :
      {p : Process L} {level : LogLevel} {records : List (SpdlogLevel × Text)}
      → (r : Runs L p level records) → (l : LogLevel) (format : Text) (args : List Text) (built : ℕ)
      → let x = L.log (to_spdlog_level l) format args r.logger in
        Runs L
          (record p { default_logger = some (record r.vendor { logger = some x }); built = built })
          level
          (records
            ++ taken (leb (to_int level) (to_int l)) (to_spdlog_level l) (L.format format args))
  after_log {level = level} r l format args built = record {
    vendor = record r.vendor { logger = some (L.log (to_spdlog_level l) format args r.logger) };
    logger = L.log (to_spdlog_level l) format args r.logger;
    default_is = refl;
    logger_is = refl;
    level_is =
        ap from_spdlog_level (laws.level_of_log (to_spdlog_level l) format args r.logger)
        ∙ r.level_is;
    queue_is =
        laws.queued_of_log (to_spdlog_level l) format args r.logger
        ∙ rw (r.queue_is, admits_level r.logger level l r.level_is) refl;
  }

xlog_takes :
    (L : Spdlog) (laws : IsSpdlog L) (b : Build) (sys : Platform) (now : ℕ) (m : Macro)
    → (format : Text) (args : List Text) (p : Process L) (level : LogLevel)
    → (records : List (SpdlogLevel × Text)) → Runs L p level records
    → (q : Process L) × (xlog L b sys now m format args p ≡ some q)
      × (q.built ≡ p.built)
      × Runs L q level (
          records
          ++ taken (passes b m level) (to_spdlog_level (macro_level m)) (L.format format args))
unfolding xlog xlog_impl
xlog_takes L laws b sys now m format args p level records r = elim (Bool-cases (compiled_in b m)) [
  | inl inside ↦
      let x = L.log (to_spdlog_level (macro_level m)) format args r.logger in
      (
        record p { default_logger = some (record r.vendor { logger = some x }) },
        rw
            (
              inside,
              get_instance_up L sys now p r.vendor r.default_is,
              log_macro L m format args r.vendor r.logger r.logger_is,
            )
            refl,
        refl,
        rw inside (after_log L laws r (macro_level m) format args p.built),
      )
  | inr outside ↦ (p, rw outside refl, refl, rw (outside, append-nil records) r)
]

-- With the logger of the process up, XLOG_TRACE to XLOG_FATAL do not throw, keep the level, build
-- no stream, and leave a record, at their level and with the text that fmt makes of the arguments,
-- if logging is enabled, the macro is not below the level of the build and not below the level of
-- the logger, and fmt does not throw; else they leave none.
pub xlog_lem :
    (L : Spdlog) (laws : IsSpdlog L) (b : Build) (sys : Platform) (now : ℕ) (m : Macro)
    → (format : Text) (args : List Text) (p : Process L) (level : LogLevel)
    → (records : List (SpdlogLevel × Text)) → Runs L p level records
    → (q : Process L) × (xlog L b sys now m format args p ≡ some q)
      × (q.built ≡ p.built)
      × Runs L q level
          (records ++ taken (leaves b m level) (named_for_sinks m) (L.format format args))
xlog_lem L laws b sys now m format args p level records r =
    rw (← sinks_lem m, ← passes_lem b m level)
      (xlog_takes L laws b sys now m format args p level records r)

stream_inside :
    (L : Spdlog) (laws : IsSpdlog L) (sys : Platform) (now : ℕ) (m : Macro)
    → (text : Text) (p : Process L) (level : LogLevel) (records : List (SpdlogLevel × Text))
    → Runs L p level records
    → (passes : Bool) → leb (to_int level) (to_int (macro_level m)) ≡ passes
    → (q : Process L) × (xlog_stream_impl L sys now (macro_level m) text p ≡ some q)
      × Runs L q level
          (records ++ taken passes (to_spdlog_level (macro_level m)) (L.format plain (text ∷ [])))
      × (q.built ≡ (if passes then p.built + 1 else p.built))
unfolding xlog_stream_impl
stream_inside L laws sys now m text p level records r true e =
    let x = L.log (to_spdlog_level (macro_level m)) plain (text ∷ []) r.logger in
    (
      record p { default_logger = some (record r.vendor { logger = some x }); built = p.built + 1 },
      rw
          (
            get_instance_up L sys now p r.vendor r.default_is,
            should_log_up L (macro_level m) r.vendor r.logger r.logger_is,
            admits_level L laws r.logger level (macro_level m) r.level_is,
            e,
            log_macro L m plain (text ∷ []) r.vendor r.logger r.logger_is,
          )
          refl,
      subst
          (λ (t : Bool).
            Runs L
              (record p {
                default_logger = some (record r.vendor { logger = some x });
                built = p.built + 1;
              })
              level
              (records ++ taken t (to_spdlog_level (macro_level m)) (L.format plain (text ∷ []))))
          e (after_log L laws r (macro_level m) plain (text ∷ []) (p.built + 1)),
      refl,
    )
stream_inside L laws sys now m text p level records r false e = (
  p,
  rw
      (
        get_instance_up L sys now p r.vendor r.default_is,
        should_log_up L (macro_level m) r.vendor r.logger r.logger_is,
        admits_level L laws r.logger level (macro_level m) r.level_is,
        e,
      )
      refl,
  rw (append-nil records) r,
  refl,
)

stream_takes :
    (L : Spdlog) (laws : IsSpdlog L) (b : Build) (sys : Platform) (now : ℕ) (m : Macro)
    → (text : Text) (p : Process L) (level : LogLevel) (records : List (SpdlogLevel × Text))
    → Runs L p level records
    → (q : Process L) × (q' : Process L) × (xlog L b sys now m plain (text ∷ []) p ≡ some q)
      × (xlog_stream L b sys now m text p ≡ some q')
      × (records' : List (SpdlogLevel × Text)) × Runs L q level records'
      × Runs L q' level records'
      × (q'.built ≡ (if passes b m level then p.built + 1 else p.built))
unfolding xlog_stream
stream_takes L laws b sys now m text p level records r =
    let (q, plain_is, _, up) = xlog_takes L laws b sys now m plain (text ∷ []) p level records r in
    let records' =
      records
      ++ taken (passes b m level) (to_spdlog_level (macro_level m)) (L.format plain (text ∷ [])) in
    elim (Bool-cases (compiled_in b m)) [
      | inl inside ↦
          let high = leb (to_int level) (to_int (macro_level m)) in
          let (q', stream_is, up', built_is) =
            stream_inside L laws sys now m text p level records r high refl in
          (q, q', plain_is, rw inside stream_is, records', up, rw inside up', rw inside built_is)
      | inr outside ↦ (
        q,
        p,
        plain_is,
        rw outside refl,
        records',
        up,
        rw (outside, append-nil records) r,
        rw outside refl,
      )
    ]

-- A stream macro leaves the same records as the fmt macro of the same level does with "{}" and the
-- streamed text, whatever the build defines and whatever the runtime level is, and it builds a
-- stream only when a record is left.
pub stream_same_records :
    (L : Spdlog) (laws : IsSpdlog L) (b : Build) (sys : Platform) (now : ℕ) (m : Macro)
    → (text : Text) (p : Process L) (level : LogLevel) (records : List (SpdlogLevel × Text))
    → Runs L p level records
    → (q : Process L) × (q' : Process L) × (xlog L b sys now m plain (text ∷ []) p ≡ some q)
      × (xlog_stream L b sys now m text p ≡ some q')
      × (records' : List (SpdlogLevel × Text)) × Runs L q level records'
      × Runs L q' level records'
      × (q'.built ≡ (if leaves b m level then p.built + 1 else p.built))
stream_same_records L laws b sys now m text p level records r =
    rw (← passes_lem b m level) (stream_takes L laws b sys now m text p level records r)
