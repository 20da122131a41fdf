-- ===== src/Logging/Spdlog/Keeping.antt =====
-- A spdlog that keeps what it takes, and a platform, for the tests.
use xm_sigma.Common.{==_self, ℕ, ◌≡◌, refl, leb, Bool, true, false, ◌||◌, none, some}
use xm_sigma.Common.{List, [], ◌∷◌, ◌++◌, if◌then◌else◌, Bool-cases, inl, inr}
use xm_sigma.Logging.Level.{SpdlogLevel}
use xm_sigma.Logging.Rows.{Text, same_text}
use xm_sigma.Common.Int.{pos}
use xm_sigma.Logging.Paths.{Platform}
use xm_sigma.Logging.Spdlog.{Spdlog, IsSpdlog, severity, taken}

pub record Taker : Type 0 where
  pub threshold : SpdlogLevel
  pub queue : List (SpdlogLevel × Text)
  pub to_sinks : List ℕ

unfoldable pub knows_name : List Text → Text → Bool
knows_name [] name = false
knows_name (known ∷ names) name = same_text known name || knows_name names name

abbrev pub drop_name : Text → List Text → List Text
drop_name name [] = []
drop_name name (known ∷ names) =
    let rest = drop_name name names in if same_text known name then rest else known ∷ rest

forgets : (name : Text) (names : List Text) → knows_name (drop_name name names) name ≡ false
unfolding knows_name
forgets name [] = refl
forgets name (known ∷ names) = elim (Bool-cases (same_text known name)) [
  | inl same ↦ rw same (forgets name names)
  | inr other ↦ rw (other, other) (forgets name names)
]

knows_first : (name : Text) (names : List Text) → knows_name (name ∷ names) name ≡ true
unfolding knows_name
knows_first name names = rw (same_text_refl name) refl
  where
    same_text_refl : (text : Text) → same_text text text ≡ true
    same_text_refl [] = refl
    same_text_refl (c ∷ text) = rw (==_self c) (same_text_refl text)

abbrev pub keeping : Spdlog
keeping = record {
  Logger = Taker;
  Registry = List Text;
  Sink = ℕ;
  format = λ format args. elim args [ [] ↦ some format | arg ∷ more ↦ some arg ];
  stdout_sink = 0;
  file_sink = λ name. some 1;
  thread_pool = λ r. true;
  init_thread_pool = λ size threads r. r;
  async_logger =
      λ name sinks. record { threshold = SpdlogLevel.info; queue = []; to_sinks = sinks };
  set_pattern = λ pattern x. x;
  flush_on = λ l x. x;
  set_level = λ l x. record x { threshold = l };
  level = λ x. x.threshold;
  should_log = λ x l. leb (severity x.threshold) (severity l);
  log = λ l format args x. record x {
    queue =
        x.queue
        ++ taken (leb (severity x.threshold) (severity l)) l
            (elim args [ [] ↦ some format | arg ∷ more ↦ some arg ]);
  };
  flush = λ x. x;
  drop = drop_name;
  register_logger = λ name r. if knows_name r name then none else some (name ∷ r);
  basic_logger_mt = λ name file r.
      if knows_name r name
      then none
      else some (record { threshold = SpdlogLevel.info; queue = []; to_sinks = 1 ∷ [] }, name ∷ r);
  flush_every = λ seconds r. r;
  queued = λ x. x.queue;
  sinks_of = λ x. x.to_sinks;
  knows = knows_name;
}

pub keeping-IsSpdlog : IsSpdlog keeping
keeping-IsSpdlog = record {
  level_of_set = λ l x. refl;
  queued_of_set = λ l x. refl;
  sinks_of_set = λ l x. refl;
  admits = λ x l. refl;
  level_of_log = λ l format args x. refl;
  queued_of_log = λ l format args x. refl;
  formats_plain = λ text. refl;
  queued_of_new = λ name pattern l sinks. refl;
  sinks_of_new = λ name pattern l sinks. refl;
  registers = λ name r new. (name ∷ r, rw new refl);
  forgets = forgets;
  queued_of_pattern = λ pattern x. refl;
  level_of_pattern = λ pattern x. refl;
  makes = λ name file sink r new opens. (
    record { threshold = SpdlogLevel.info; queue = []; to_sinks = 1 ∷ [] },
    name ∷ r,
    rw new refl,
    knows_first name r,
    refl,
    refl,
  );
  refuses = λ name file r known. rw known refl;
}

-- The process "a" in "/b"; the environment is empty, and the clock is written in one digit.
abbrev pub sys : Platform
sys = record {
  Tm = ℕ;
  getenv = λ name. none;
  strtol = λ text. (pos 0, 0);
  readlink = λ path size. some (0x2f ∷ 0x62 ∷ 0x2f ∷ 0x61 ∷ []);
  localtime_r = λ now. now;
  strftime = λ size format now. now ∷ [];
}
