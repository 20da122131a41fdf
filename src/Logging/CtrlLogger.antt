-- ===== src/Logging/CtrlLogger.antt =====
-- logging/ctrl_logger.hpp and src/ctrl_logger.cpp: `CtrlLogger`, rows of named items. The maps are
-- association lists, `entry_names` in the order of its keys, as `std::map` iterates. `none` is the
-- write out of range, which C++ leaves undefined. `rows` is what the logger was given.
pub mod Header
pub mod Safety
pub mod Session
use xm_sigma.Common.{
  ℕ, zero, suc, ◌+◌, ◌==◌, ◌%◌, ◌^◌, ltb, Bool, true, false, ◌&&◌, Option, none, some,
}
use xm_sigma.Common.{List, [], ◌∷◌, ◌++◌, length, set, take, if◌then◌else◌, u64}
use xm_sigma.Logging.Rows.{Text, same_text}

pub record CtrlLogger : Type 0 where
  pub head_added : Bool
  pub entry_names : List (ℕ × Text)
  pub entry_ids : List (Text × ℕ)
  pub item_counter : ℕ
  pub item_data : List Text
  pub rows : List Text

abbrev pub construct : CtrlLogger
construct = record {
  head_added = false;
  entry_names = [];
  entry_ids = [];
  item_counter = 0;
  item_data = [];
  rows = [];
}

-- `entry_ids_.find(name)`
unfoldable pub find : Text → List (Text × ℕ) → Option ℕ
find name [] = none
find name ((key, id) ∷ ids) = if same_text name key then some id else find name ids

-- `entry_names_[id] = name`
unfoldable pub put_name : ℕ → Text → List (ℕ × Text) → List (ℕ × Text)
put_name id name [] = (id, name) ∷ []
put_name id name ((key, old) ∷ names) =
    let rest = put_name id name names in
    if id == key
    then (id, name) ∷ names
    else if ltb id key
    then (id, name) ∷ (key, old) ∷ names
    else (key, old) ∷ rest

unfoldable pub add_item_name : Text → CtrlLogger → CtrlLogger
unfolding find put_name
add_item_name name s = elim (find name s.entry_ids) [
  | some id ↦ s
  | none ↦ record s {
    entry_names = put_name s.item_counter name s.entry_names;
    entry_ids = (name, s.item_counter) ∷ s.entry_ids;
    item_counter = u64 (s.item_counter + 1);
  }
]

-- `AddItemDataToEntry` by name
unfoldable pub add_data_by_name : Text → Text → CtrlLogger → Option CtrlLogger
unfolding find
add_data_by_name name value s =
    if s.head_added
    then elim (find name s.entry_ids) [
      | none ↦ some s
      | some id ↦
          if ltb id (length s.item_data)
          then some (record s { item_data = set s.item_data id value })
          else none
    ]
    else some s

-- `AddItemDataToEntry` by id
unfoldable pub add_data_by_id : ℕ → Text → CtrlLogger → CtrlLogger
add_data_by_id id value s =
    if s.head_added
    then (if ltb id (length s.item_data)
        then record s { item_data = set s.item_data id value }
        else s)
    else s

-- The two overloads for a double; `to_string` is `std::to_string`.
unfoldable pub add_number_by_name :
    {A : Type 0} → (A → Text) → Text → A → CtrlLogger → Option CtrlLogger
add_number_by_name to_string name number s = add_data_by_name name (to_string number) s

unfoldable pub add_number_by_id : {A : Type 0} → (A → Text) → ℕ → A → CtrlLogger → CtrlLogger
add_number_by_id to_string id number s = add_data_by_id id (to_string number) s

-- " , "
abbrev pub separator : Text
separator = 0x20 ∷ 0x2c ∷ 0x20 ∷ []

unfoldable pub head_string : List (ℕ × Text) → Text
head_string [] = []
head_string ((id, name) ∷ names) = name ++ separator ++ head_string names

abbrev pub starts_with : Text → Text → Bool
starts_with [] t = true
starts_with (c ∷ s) [] = false
starts_with (c ∷ s) (d ∷ t) = (c == d) && starts_with s t

-- `std::string::rfind` of a text that is not empty
unfoldable pub rfind : Text → Text → Option ℕ
rfind key [] = none
rfind key (c ∷ text) = elim (rfind key text) [
  | some i ↦ some (suc i)
  | none ↦ if starts_with key (c ∷ text) then some 0 else none
]

-- `item_data_.resize(n)`
unfoldable pub resize : ℕ → List Text → List Text
resize zero items = []
resize (suc n) [] = [] ∷ resize n []
resize (suc n) (t ∷ items) = t ∷ resize n items

-- `if (found != npos) head_str.erase(found)`
unfoldable pub erase_from : Option ℕ → Text → Text
erase_from none text = text
erase_from (some i) text = take i text

-- `enable_logging` is whether the build defines ENABLE_LOGGING.
unfoldable pub pass_header : Bool → CtrlLogger → CtrlLogger
unfolding head_string rfind erase_from resize
pass_header enable_logging s =
    if s.item_counter == 0
    then s
    else let head_str = head_string s.entry_names in
      record s {
        rows =
            if enable_logging
            then s.rows ++ (erase_from (rfind separator head_str) head_str ∷ [])
            else s.rows;
        item_data = resize s.item_counter s.item_data;
        head_added = true;
      }

-- "0" for an item without a value
unfoldable pub shown : Text → Text
shown [] = 0x30 ∷ []
shown (c ∷ t) = c ∷ t

unfoldable pub data_string : List Text → Text
unfolding shown
data_string [] = []
data_string (t ∷ []) = shown t
data_string (t ∷ u ∷ ts) = shown t ++ separator ++ data_string (u ∷ ts)

unfoldable pub pass_data : Bool → CtrlLogger → CtrlLogger
unfolding data_string
pass_data enable_logging s = elim (data_string s.item_data) [
  | [] ↦ s
  | c ∷ text ↦ record s { rows = if enable_logging then s.rows ++ ((c ∷ text) ∷ []) else s.rows }
]
