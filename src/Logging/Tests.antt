-- ===== src/Logging/Tests.antt =====
-- An instance of each theorem on levels and formatting.
use xm_sigma.Common.{◌≤◌, ◌≡◌, refl, arith, some, [], ◌∷◌, length, take}
use xm_sigma.Logging.Level.{LogLevel}
use xm_sigma.Common.{true, ◌++◌, map, none}
use xm_sigma.Common.Int.{ℤ, pos}
use xm_sigma.Common.{ℕ, ap, ◌-◌, ◌+◌, Option}
use xm_sigma.Logging.Environment.{resolve_log_level_from_env}
use xm_sigma.Logging.Environment.Level.{ReadsDigits, level_from_environment}
use xm_sigma.Logging.Rows.{Text}
use xm_sigma.Logging.CtrlLogger.{
  CtrlLogger, construct, find, put_name, add_item_name, add_data_by_name, pass_header, pass_data,
  shown,
}
use xm_sigma.Logging.CtrlLogger.{head_string, rfind, erase_from, resize, data_string}
use xm_sigma.Logging.CtrlLogger.Header.{join, cell_text, rows_match}
use xm_sigma.Logging.CtrlLogger.Safety.{late_name_undefined}
use xm_sigma.Logging.Format.{format_into, format_into_lem}

-- "hey" into two bytes
format_into_lem_example :
    let (msg, len) = format_into (0 ∷ 0 ∷ []) 2 (some (0x68 ∷ 0x65 ∷ 0x79 ∷ [])) in
    (length msg ≡ 2) × (len ≤ 2) × (take len msg ≡ 0x68 ∷ 0x65 ∷ [])
format_into_lem_example =
    format_into_lem (0 ∷ 0 ∷ []) 2 (some (0x68 ∷ 0x65 ∷ 0x79 ∷ [])) refl (omega arith)

-- Items "x" and "y"
abbrev x : Text
x = 0x78 ∷ []

abbrev y : Text
y = 0x79 ∷ []

two_names : CtrlLogger
two_names = add_item_name y (add_item_name x construct)

two_names_lem : (two_names.entry_names ≡ (0, x) ∷ (1, y) ∷ []) × (two_names.item_counter ≡ 2)
unfolding two_names add_item_name find put_name
two_names_lem = (refl, refl)

-- "x , y", and a row without values
rows_lem :
    (pass_data true (pass_header true two_names)).rows
    ≡ (0x78 ∷ 0x20 ∷ 0x2c ∷ 0x20 ∷ 0x79 ∷ []) ∷ (0x30 ∷ 0x20 ∷ 0x2c ∷ 0x20 ∷ 0x30 ∷ []) ∷ []
unfolding two_names add_item_name find put_name pass_header pass_data head_string rfind erase_from
    resize data_string shown
rows_lem = refl

rows_match_example :
    ((pass_data true (pass_header true two_names)).rows
      ≡ two_names.rows
        ++ (join (x ∷ y ∷ []) ∷ join (map cell_text (pass_header true two_names).item_data) ∷ []))
    × (length (pass_header true two_names).item_data ≡ 2)
    × ((pass_header true two_names).head_added ≡ true)
rows_match_example = rows_match true two_names x (y ∷ []) two_names_lem.0 two_names_lem.1

late_facts :
    ((pass_header true two_names).head_added ≡ true)
    × (length (pass_header true two_names).item_data ≡ (pass_header true two_names).item_counter)
    × (find (0x7a ∷ []) (pass_header true two_names).entry_ids ≡ none)
unfolding two_names add_item_name find put_name pass_header head_string rfind erase_from resize
late_facts = (refl, refl, refl)

late_name_undefined_example :
    add_data_by_name
      (0x7a ∷ [])
      (0x31 ∷ [])
      (add_item_name (0x7a ∷ []) (pass_header true two_names))
    ≡ none
late_name_undefined_example =
    late_name_undefined (pass_header true two_names) (0x7a ∷ []) (0x31 ∷ []) late_facts.0
      late_facts.1 late_facts.2

-- An environment in which every variable is "4", and a `strtol` that reads one digit.
abbrev all_four : Text → Option Text
all_four name = some (0x34 ∷ [])

abbrev one_digit : Text → ℤ × ℕ
one_digit [] = (pos 0, 0)
one_digit (c ∷ text) = (pos (c - 0x30), 1)

one_digit-ReadsDigits : ReadsDigits one_digit
one_digit-ReadsDigits n small = ap (λ (k : ℕ). (pos k, 1)) {x = 0x30 + n - 0x30} (omega arith)

level_from_environment_example :
    resolve_log_level_from_env all_four one_digit LogLevel.info ≡ LogLevel.error
level_from_environment_example =
    level_from_environment all_four one_digit LogLevel.info LogLevel.error one_digit-ReadsDigits
      refl
