-- ===== src/Logging/Rows.antt =====
-- logging/csv_logger.hpp, logging/event_logger.hpp and `build_string` of
-- logging/details/specialized_logger.hpp: the row that a call writes. What `operator<<` makes of a
-- value is a parameter: a row's values are the texts that it gives. A text is a list of bytes.
pub mod Split
use xm_sigma.Common.{ℕ, ◌==◌, ◌&&◌, Bool, true, false, Option, none, some, List, [], ◌∷◌, ◌++◌}

abbrev pub Text : Type 0
Text = List ℕ

abbrev pub same_text : Text → Text → Bool
same_text [] [] = true
same_text [] (d ∷ t) = false
same_text (c ∷ s) [] = false
same_text (c ∷ s) (d ∷ t) = (c == d) && same_text s t

-- ","
abbrev pub comma : ℕ
comma = 0x2c

unfoldable pub build_string : List Text → Text
build_string [] = []
build_string (value ∷ rest) = value ++ (comma ∷ build_string rest)

-- `std::string::pop_back` on a text that is not empty
unfoldable pub pop_back : Text → Text
pop_back [] = []
pop_back (c ∷ []) = []
pop_back (c ∷ d ∷ text) = c ∷ pop_back (d ∷ text)

-- What `LogData` and `LogEvent` hand to the logger; `none` is nothing.
unfoldable pub log_row : List Text → Option Text
unfolding build_string pop_back
log_row values = elim (build_string values) [ [] ↦ none | c ∷ text ↦ some (pop_back (c ∷ text)) ]
