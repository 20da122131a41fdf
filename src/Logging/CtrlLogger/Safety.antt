-- ===== src/Logging/CtrlLogger/Safety.antt =====
-- When writing a value by name stays inside the row, and when it does not.
use xm_sigma.Common.{
  Bool, ℕ, ◌+◌, ◌==◌, ◌<◌, ◌≤◌, ◌≡◌, refl, ap, ◌∙◌, arith, true, false, Bool-cases, inl, inr,
}
use xm_sigma.Common.{
  Option, none, some, List, [], ◌∷◌, ◌++◌, length, set, length-set, ltb, if◌then◌else◌, u64,
  Option-cases, ==_self,
}
use xm_sigma.Logging.Rows.{Text, same_text}
use xm_sigma.Logging.CtrlLogger.Header.{length-resize}
use xm_sigma.Logging.CtrlLogger.{CtrlLogger, find, put_name, add_item_name}
use xm_sigma.Logging.CtrlLogger.{
  add_data_by_name, add_data_by_id, pass_header, pass_data, data_string,
}

same_text_self : (t : Text) → same_text t t ≡ true
same_text_self [] = refl
same_text_self (c ∷ t) = rw (==_self c, same_text_self t) refl

with_name : Text → CtrlLogger → CtrlLogger
with_name name s = record s {
  entry_names = put_name s.item_counter name s.entry_names;
  entry_ids = (name, s.item_counter) ∷ s.entry_ids;
  item_counter = u64 (s.item_counter + 1);
}

added :
    (s : CtrlLogger) (name : Text)
    → find name s.entry_ids ≡ none
    → add_item_name name s ≡ with_name name s
unfolding add_item_name with_name
added s name fresh =
    elim (find name s.entry_ids)
        as (λ f.
          f ≡ none
          → elim f as (λ x. CtrlLogger) [ some id ↦ s | none ↦ with_name name s ]
            ≡ with_name name s) [ none ↦ λ e. refl | some id ↦ λ e. cc ]
      fresh

no_column :
    (s : CtrlLogger) (name value : Text)
    → s.head_added ≡ true
    → ltb s.item_counter (length s.item_data) ≡ false
    → add_data_by_name name value (with_name name s) ≡ none
unfolding add_data_by_name find with_name
no_column s name value head outside = simp (head, same_text_self name, outside)

-- A new name that is added after the header, when there is one column for each earlier item, has
-- no column: a value that is written under it is a write out of range.
pub late_name_undefined :
    (s : CtrlLogger) (name value : Text)
    → s.head_added ≡ true
    → length s.item_data ≡ s.item_counter
    → find name s.entry_ids ≡ none
    → add_data_by_name name value (add_item_name name s) ≡ none
late_name_undefined s name value head size fresh =
    ap (add_data_by_name name value) (added s name fresh) ∙ no_column s name value head outside
  where
    outside : ltb s.item_counter (length s.item_data) ≡ false
    outside = ground arith

-- Every id in use is below the counter, and once the header is written there is a column for each.
pub record Safe (s : CtrlLogger) : Type 0 where
  pub ids : (name : Text) (id : ℕ) → find name s.entry_ids ≡ some id → id < s.item_counter
  pub columns : s.head_added ≡ true → s.item_counter ≤ length s.item_data

-- What a client does once the names are added.
pub data Use : Type 0 where
  by_name : Text → Text → Use
  by_id : ℕ → Text → Use
  header : Use
  row : Use

-- `enable_logging` is whether the build defines ENABLE_LOGGING.
unfoldable pub use_logger : Bool → Use → CtrlLogger → Option CtrlLogger
use_logger enable_logging (by_name name value) s = add_data_by_name name value s
use_logger enable_logging (by_id id value) s = some (add_data_by_id id value s)
use_logger enable_logging header s = some (pass_header enable_logging s)
use_logger enable_logging row s = some (pass_data enable_logging s)

unfoldable pub run : Bool → List Use → CtrlLogger → Option CtrlLogger
unfolding use_logger
run enable_logging [] s = some s
run enable_logging (u ∷ us) s = elim (use_logger enable_logging u s) [
  | none ↦ none
  | some s' ↦ run enable_logging us s'
]

unfoldable pub add_names : List Text → CtrlLogger → CtrlLogger
unfolding add_item_name
add_names [] s = s
add_names (t ∷ ts) s = add_names ts (add_item_name t s)

set-Safe :
    (s : CtrlLogger) (id : ℕ) (value : Text)
    → Safe s
    → Safe (record s { item_data = set s.item_data id value })
set-Safe s id value v = record {
  ids = v.ids;
  columns = λ h. omega (arith, v.columns h, length-set s.item_data id value);
}

by_name-Safe :
    (s : CtrlLogger) (name value : Text)
    → Safe s
    → (s' : CtrlLogger) × (add_data_by_name name value s ≡ some s') × Safe s'
unfolding add_data_by_name
by_name-Safe s name value v = elim (Bool-cases s.head_added) [
  | inr off ↦ (s, simp (off), v)
  | inl on ↦ elim (Option-cases (find name s.entry_ids)) [
    | inl missing ↦ (s, simp (on, missing), v)
    | inr (id, e) ↦
        let inside : ltb id (length s.item_data) ≡ true =
          ground (arith, v.ids name id e, v.columns on) in
        (
          record s { item_data = set s.item_data id value },
          simp (on, e, inside),
          set-Safe s id value v,
        )
  ]
]

by_id-Safe : (s : CtrlLogger) (id : ℕ) (value : Text) → Safe s → Safe (add_data_by_id id value s)
unfolding add_data_by_id
by_id-Safe s id value v =
    elim s.head_added
      as (λ b. Safe (
        if b
        then (if ltb id (length s.item_data)
            then record s { item_data = set s.item_data id value }
            else s)
        else s)) [
          | true ↦
              elim (ltb id (length s.item_data))
                as (λ b.
                  Safe (if b then record s { item_data = set s.item_data id value } else s)) [
                    | true ↦ set-Safe s id value v
                    | false ↦ v
                  ]
          | false ↦ v
        ]

header-Safe : (b : Bool) (s : CtrlLogger) → Safe s → Safe (pass_header b s)
unfolding pass_header
header-Safe b s v = elim (Bool-cases (s.item_counter == 0)) [
  | inl none_yet ↦ rw none_yet v
  | inr some_item ↦ rw some_item (record {
    ids = v.ids;
    columns = λ h. omega (arith, length-resize s.item_counter s.item_data);
  })
]

row-Safe : (b : Bool) (s : CtrlLogger) → Safe s → Safe (pass_data b s)
unfolding pass_data
row-Safe b s v = written (data_string s.item_data)
  where
    written :
        (text : Text)
        → Safe (elim text as (λ x. CtrlLogger) [
          | [] ↦ s
          | c ∷ rest ↦ record s { rows = if b then s.rows ++ ((c ∷ rest) ∷ []) else s.rows }
        ])
    written [] = v
    written (c ∷ rest) = record { ids = v.ids; columns = v.columns }

use-Safe :
    (b : Bool) (u : Use) (s : CtrlLogger)
    → Safe s
    → (s' : CtrlLogger) × (use_logger b u s ≡ some s') × Safe s'
unfolding use_logger
use-Safe b (by_name name value) s v = by_name-Safe s name value v
use-Safe b (by_id id value) s v = (add_data_by_id id value s, refl, by_id-Safe s id value v)
use-Safe b header s v = (pass_header b s, refl, header-Safe b s v)
use-Safe b row s v = (pass_data b s, refl, row-Safe b s v)

pub run-Safe :
    (b : Bool) (us : List Use) (s : CtrlLogger)
    → Safe s
    → (s' : CtrlLogger) × (run b us s ≡ some s')
unfolding run
run-Safe b [] s v = (s, refl)
run-Safe b (u ∷ us) s v =
    let (s1, e, v1) = use-Safe b u s v in let (s2, e2) = run-Safe b us s1 v1 in (s2, rw (e, run) e2)
