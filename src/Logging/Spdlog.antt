-- ===== src/Logging/Spdlog.antt =====
-- What the soft-real-time logger uses of spdlog, which is not part of the repository: the
-- operations of a logger and of the registry, and what its documentation says of them.
pub mod Keeping
use xm_sigma.Common.{ℕ, leb, ◌≡◌, Bool, true, false, Option, none, some, List, [], ◌∷◌, ◌++◌}
use xm_sigma.Logging.Level.{SpdlogLevel}
use xm_sigma.Logging.Rows.{Text}

-- `none` is an exception: of `file_sink`, `register_logger` and `basic_logger_mt`, and of `format`
-- one of fmt, which the logger catches. `queued`, `sinks_of` and `knows` observe: the records that a logger took,
-- oldest first, the sinks it was made with, and whether the registry has a name.
pub record Spdlog : Type 1 where
  pub Logger : Type 0
  pub Registry : Type 0
  pub Sink : Type 0
  pub format : Text → List Text → Option Text
  pub stdout_sink : Sink
  pub file_sink : Text → Option Sink
  pub thread_pool : Registry → Bool
  pub init_thread_pool : ℕ → ℕ → Registry → Registry
  pub async_logger : Text → List Sink → Logger
  pub set_pattern : Text → Logger → Logger
  pub flush_on : SpdlogLevel → Logger → Logger
  pub set_level : SpdlogLevel → Logger → Logger
  pub level : Logger → SpdlogLevel
  pub should_log : Logger → SpdlogLevel → Bool
  pub log : SpdlogLevel → Text → List Text → Logger → Logger
  pub flush : Logger → Logger
  pub drop : Text → Registry → Registry
  pub register_logger : Text → Registry → Option Registry
  pub basic_logger_mt : Text → Text → Registry → Option (Logger × Registry)
  pub flush_every : ℕ → Registry → Registry
  pub queued : Logger → List (SpdlogLevel × Text)
  pub sinks_of : Logger → List Sink
  pub knows : Registry → Text → Bool

-- The order of `level_enum`.
abbrev pub severity : SpdlogLevel → ℕ
severity SpdlogLevel.trace = 0
severity SpdlogLevel.debug = 1
severity SpdlogLevel.info = 2
severity SpdlogLevel.warn = 3
severity SpdlogLevel.err = 4
severity SpdlogLevel.critical = 5
severity SpdlogLevel.off = 6

-- The record that a logger takes: none when its level is filtered or fmt throws.
abbrev pub taken : Bool → SpdlogLevel → Option Text → List (SpdlogLevel × Text)
taken false l message = []
taken true l none = []
taken true l (some text) = (l, text) ∷ []

-- "{}"
abbrev pub plain : Text
plain = 0x7b ∷ 0x7d ∷ []

pub record IsSpdlog (L : Spdlog) : Type 0 where
  pub level_of_set : (l : SpdlogLevel) (x : L.Logger) → L.level (L.set_level l x) ≡ l
  pub queued_of_set : (l : SpdlogLevel) (x : L.Logger) → L.queued (L.set_level l x) ≡ L.queued x
  pub sinks_of_set : (l : SpdlogLevel) (x : L.Logger) → L.sinks_of (L.set_level l x) ≡ L.sinks_of x
  pub admits :
      (x : L.Logger) (l : SpdlogLevel) → L.should_log x l ≡ leb (severity (L.level x)) (severity l)
  pub level_of_log :
      (l : SpdlogLevel) (format : Text) (args : List Text) (x : L.Logger)
      → L.level (L.log l format args x) ≡ L.level x
  pub queued_of_log :
      (l : SpdlogLevel) (format : Text) (args : List Text) (x : L.Logger)
      → L.queued (L.log l format args x)
        ≡ L.queued x ++ taken (L.should_log x l) l (L.format format args)
  pub formats_plain : (text : Text) → L.format plain (text ∷ []) ≡ some text
  pub queued_of_new :
      (name pattern : Text) (l : SpdlogLevel) (sinks : List L.Sink)
      → L.queued (L.flush_on l (L.set_pattern pattern (L.async_logger name sinks))) ≡ []
  pub sinks_of_new :
      (name pattern : Text) (l : SpdlogLevel) (sinks : List L.Sink)
      → L.sinks_of (L.flush_on l (L.set_pattern pattern (L.async_logger name sinks))) ≡ sinks
  pub registers :
      (name : Text) (r : L.Registry)
      → L.knows r name ≡ false
      → (r' : L.Registry) × (L.register_logger name r ≡ some r')
  pub forgets : (name : Text) (r : L.Registry) → L.knows (L.drop name r) name ≡ false
  pub queued_of_pattern :
      (pattern : Text) (x : L.Logger) → L.queued (L.set_pattern pattern x) ≡ L.queued x
  pub level_of_pattern :
      (pattern : Text) (x : L.Logger) → L.level (L.set_pattern pattern x) ≡ L.level x
  pub makes :
      (name file : Text) (sink : L.Sink) (r : L.Registry)
      → L.knows r name ≡ false
      → L.file_sink file ≡ some sink
      → (x : L.Logger) × (r' : L.Registry) × (L.basic_logger_mt name file r ≡ some (x, r'))
        × (L.knows r' name ≡ true)
        × (L.queued x ≡ [])
        × (L.level x ≡ SpdlogLevel.info)
  pub refuses :
      (name file : Text) (r : L.Registry)
      → L.knows r name ≡ true
      → L.basic_logger_mt name file r ≡ none
