-- ===== src/Logging/Specialized/Taken.antt =====
-- What the loggers with a file of their own take.
use xm_sigma.Common.{ℕ, ◌≡◌, refl, ◌∙◌, leb, true, false, none, some}
use xm_sigma.Common.{List, [], ◌∷◌, ◌++◌, All}
use xm_sigma.Logging.Level.{SpdlogLevel}
use xm_sigma.Logging.Rows.{Text}
use xm_sigma.Logging.Rows.Split.{NoComma, split, split-log_row}
use xm_sigma.Logging.Paths.{Platform, create_log_file_name}
use xm_sigma.Logging.Spdlog.{Spdlog, IsSpdlog, severity, plain}
use xm_sigma.Logging.Specialized.{
  SpecializedLogger, construct, pass, log_info, log_warn, log_fatal, log_data, row_pattern,
}

-- The logger is open, at level info, and has taken these records.
pub record Open (L : Spdlog) (s : SpecializedLogger L) (records : List (SpdlogLevel × Text))
    : Type 0 where
  pub logger : L.Logger
  pub logger_is : s.logger ≡ some logger
  pub level_is : L.level logger ≡ SpdlogLevel.info
  pub queue_is : L.queued logger ≡ records

pass_takes :
    (L : Spdlog) (laws : IsSpdlog L) (l : SpdlogLevel) (text : Text) (s : SpecializedLogger L)
    → (records : List (SpdlogLevel × Text)) → leb 2 (severity l) ≡ true
    → Open L s records
    → (s' : SpecializedLogger L) × (pass L true l text s ≡ some s')
      × Open L s' (records ++ ((l, text) ∷ []))
unfolding pass
pass_takes L laws l text s records high o =
    let x = L.log l plain (text ∷ []) o.logger in
    (
      record s { logger = some x },
      simp (pass, o.logger_is),
      record {
        logger = x;
        logger_is = refl;
        level_is = laws.level_of_log l plain (text ∷ []) o.logger ∙ o.level_is;
        queue_is =
            laws.queued_of_log l plain (text ∷ []) o.logger
            ∙ rw (laws.admits o.logger l, o.level_is, high, laws.formats_plain text, o.queue_is)
                refl;
      },
    )

-- With logging enabled, on an open logger: LogInfo, LogWarn and LogFatal take their message as it
-- is, with any braces, at their level; LogData and LogEvent take one row at level info that splits
-- at its commas into the values, if there is a value and no value holds a comma.
pub messages_verbatim :
    (L : Spdlog) (laws : IsSpdlog L) (msg value : Text) (values : List Text)
    → (s : SpecializedLogger L) (records : List (SpdlogLevel × Text)) → Open L s records
    → All NoComma (value ∷ values)
    → ((s' : SpecializedLogger L) × (log_info L true msg s ≡ some s')
        × Open L s' (records ++ ((SpdlogLevel.info, msg) ∷ [])))
      × ((s' : SpecializedLogger L) × (log_warn L true msg s ≡ some s')
          × Open L s' (records ++ ((SpdlogLevel.warn, msg) ∷ [])))
      × ((s' : SpecializedLogger L) × (log_fatal L true msg s ≡ some s')
          × Open L s' (records ++ ((SpdlogLevel.critical, msg) ∷ [])))
      × ((s' : SpecializedLogger L) × (row : Text) × (log_data L true (value ∷ values) s ≡ some s')
          × Open L s' (records ++ ((SpdlogLevel.info, row) ∷ []))
          × (split row ≡ value ∷ values))
unfolding log_info log_warn log_fatal log_data
messages_verbatim L laws msg value values s records o plain_values =
    let (row, row_is, _, splits, _) = split-log_row value values plain_values in
    let (s', passed, open_) = pass_takes L laws SpdlogLevel.info row s records refl o in
    (
      pass_takes L laws SpdlogLevel.info msg s records refl o,
      pass_takes L laws SpdlogLevel.warn msg s records refl o,
      pass_takes L laws SpdlogLevel.critical msg s records refl o,
      (s', row, rw (log_data, row_is) passed, open_, splits),
    )

-- If the file can be opened and no logger has its name, the constructor gives an open logger that
-- has taken nothing; and a second logger with the same prefix and path in the same second throws.
pub same_second_throws :
    (L : Spdlog) (laws : IsSpdlog L) (sys : Platform) (now : ℕ) (pre path : Text)
    → (registry : L.Registry) (sink : L.Sink)
    → L.knows registry (create_log_file_name sys now pre path) ≡ false
    → L.file_sink (create_log_file_name sys now pre path) ≡ some sink
    → (s : SpecializedLogger L) × (registry' : L.Registry) × (construct L true sys now pre path
          registry
        ≡ some (s, registry'))
      × Open L s []
      × (construct L true sys now pre path registry' ≡ none)
unfolding construct
same_second_throws L laws sys now pre path registry sink new opens =
    let name = create_log_file_name sys now pre path in
    let (x, registry', made, known, empty, level) = laws.makes name name sink registry new opens in
    (
      record {
        logger = some (L.set_pattern row_pattern x);
        logfile_prefix = pre;
        logfile_path = path;
      },
      registry',
      rw made refl,
      record {
        logger = L.set_pattern row_pattern x;
        logger_is = refl;
        level_is = laws.level_of_pattern row_pattern x ∙ level;
        queue_is = laws.queued_of_pattern row_pattern x ∙ empty;
      },
      rw (laws.refuses name name registry' known) refl,
    )
