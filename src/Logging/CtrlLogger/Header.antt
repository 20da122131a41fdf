-- ===== src/Logging/CtrlLogger/Header.antt =====
-- The two kinds of row: the header names the items in the order in which they were added, and a
-- data row has one column for each item.
use xm_sigma.Common.{ℕ, zero, suc, ◌==◌, ◌≡◌, ◌≢◌, refl, ap, ◌∙◌, sym, arith, true, false, some}
use xm_sigma.Common.{
  Bool, List, [], ◌∷◌, ◌++◌, length, map, if◌then◌else◌, append_assoc, take-append,
}
use xm_sigma.Common.{append-nil}
use xm_sigma.Logging.Rows.{Text}
use xm_sigma.Logging.CtrlLogger.{
  CtrlLogger, head_string, separator, rfind, erase_from, resize, pass_header,
}
use xm_sigma.Logging.CtrlLogger.{shown, data_string, pass_data}

-- The texts with a separator between each two.
unfoldable pub join : List Text → Text
join [] = []
join (t ∷ []) = t
join (t ∷ u ∷ ts) = t ++ separator ++ join (u ∷ ts)

abbrev pub numbered : ℕ → List Text → List (ℕ × Text)
numbered i [] = []
numbered i (t ∷ ts) = (i, t) ∷ numbered (suc i) ts

rfind_end : (t : Text) → rfind separator (t ++ separator) ≡ some (length t)
unfolding rfind
rfind_end [] = refl
rfind_end (c ∷ t) = rw (rfind_end t) refl

head_string-join :
    (i : ℕ) (t : Text) (ts : List Text)
    → head_string (numbered i (t ∷ ts)) ≡ join (t ∷ ts) ++ separator
unfolding head_string join
head_string-join i t [] = append-nil (t ++ separator)
head_string-join i t (u ∷ ts) =
    ap (λ r. t ++ separator ++ r) (head_string-join (suc i) u ts)
    ∙ sym (append_assoc (t ++ separator) (join (u ∷ ts)) separator)

pub length-resize : (n : ℕ) (items : List Text) → length (resize n items) ≡ n
unfolding resize
length-resize zero items = refl
length-resize (suc n) [] = ap suc (length-resize n [])
length-resize (suc n) (t ∷ items) = ap suc (length-resize n items)

header_text :
    (s : CtrlLogger) (t : Text) (ts : List Text)
    → s.entry_names ≡ numbered 0 (t ∷ ts)
    → erase_from (rfind separator (head_string s.entry_names)) (head_string s.entry_names)
      ≡ join (t ∷ ts)
unfolding erase_from
header_text s t ts names =
    ap (λ r. erase_from (rfind separator r) r) (ap head_string names ∙ head_string-join 0 t ts)
    ∙ ap (λ f. erase_from f (join (t ∷ ts) ++ separator)) (rfind_end (join (t ∷ ts)))
    ∙ take-append (join (t ∷ ts)) separator

some_names :
    (s : CtrlLogger) (t : Text) (ts : List Text)
    → s.item_counter ≡ length (t ∷ ts)
    → (s.item_counter == 0) ≡ false
some_names s t ts count = ground arith

header_row :
    (enable_logging : Bool) (s : CtrlLogger) (t : Text) (ts : List Text)
    → s.entry_names ≡ numbered 0 (t ∷ ts)
    → s.item_counter ≡ length (t ∷ ts)
    → let s' = pass_header enable_logging s in
      (s'.rows ≡ s.rows ++ (if enable_logging then join (t ∷ ts) ∷ [] else []))
      × (length s'.item_data ≡ length (t ∷ ts))
      × (s'.head_added ≡ true)
unfolding pass_header
header_row true s t ts names count = rw (some_names s t ts count) (
  ap (λ r. s.rows ++ (r ∷ [])) (header_text s t ts names),
  length-resize s.item_counter s.item_data ∙ count,
  refl,
)
header_row false s t ts names count =
    rw (some_names s t ts count)
      (sym (append-nil s.rows), length-resize s.item_counter s.item_data ∙ count, refl)

-- What a row is to show of an item's value.
abbrev pub cell_text : Text → Text
cell_text [] = 0x30 ∷ []
cell_text (c ∷ t) = c ∷ t

shown_lem : (t : Text) → shown t ≡ cell_text t
unfolding shown
shown_lem [] = refl
shown_lem (c ∷ t) = refl

data_string-join : (ts : List Text) → data_string ts ≡ join (map cell_text ts)
unfolding data_string join
data_string-join [] = refl
data_string-join (t ∷ []) = shown_lem t
data_string-join (t ∷ u ∷ ts) =
    ap (λ r. r ++ separator ++ data_string (u ∷ ts)) (shown_lem t)
    ∙ ap (λ r. cell_text t ++ separator ++ r) (data_string-join (u ∷ ts))

data_string_filled : (t : Text) (ts : List Text) → data_string (t ∷ ts) ≢ []
unfolding data_string shown
data_string_filled [] [] e = cc
data_string_filled [] (u ∷ ts) e = cc
data_string_filled (c ∷ t) [] e = cc
data_string_filled (c ∷ t) (u ∷ ts) e = cc

abbrev row_of : Text → List Text
row_of [] = []
row_of (c ∷ text) = (c ∷ text) ∷ []

row_of-data_string :
    (items : List Text)
    → row_of (data_string items)
      ≡ (if length items == 0 then [] else join (map cell_text items) ∷ [])
unfolding data_string
row_of-data_string [] = refl
row_of-data_string (t ∷ ts) =
    filled (data_string (t ∷ ts)) (data_string_filled t ts)
    ∙ ap (λ r. r ∷ []) (data_string-join (t ∷ ts))
    ∙ rw (some_item) refl
  where
    filled : (text : Text) → text ≢ [] → row_of text ≡ text ∷ []
    filled [] ne = absurd (ne refl)
    filled (c ∷ text) ne = refl

    some_item : (length (t ∷ ts) == 0) ≡ false
    some_item = ground arith

data_row :
    (enable_logging : Bool) (s : CtrlLogger)
    → (pass_data enable_logging s).rows
      ≡ s.rows
        ++ (if enable_logging
            then (if length s.item_data == 0 then [] else join (map cell_text s.item_data) ∷ [])
            else [])
unfolding pass_data
data_row true s =
    written (data_string s.item_data) ∙ ap (λ r. s.rows ++ r) (row_of-data_string s.item_data)
  where
    written :
        (text : Text)
        → (elim text as (λ x. CtrlLogger) [
          | [] ↦ s
          | c ∷ rest ↦ record s { rows = s.rows ++ ((c ∷ rest) ∷ []) }
        ]).rows
          ≡ s.rows ++ row_of text
    written [] = sym (append-nil s.rows)
    written (c ∷ rest) = refl
data_row false s = written (data_string s.item_data) ∙ sym (append-nil s.rows)
  where
    written :
        (text : Text)
        → (elim text as (λ x. CtrlLogger) [ [] ↦ s | c ∷ rest ↦ record s { rows = s.rows } ]).rows
          ≡ s.rows
    written [] = refl
    written (c ∷ rest) = refl

some_columns : (items : List Text) (k : ℕ) → length items ≡ suc k → (length items == 0) ≡ false
some_columns items k e = ground arith

-- The header of at least one item, and the first data row behind it. In a build with logging two
-- rows are written, the names in the order of their ids joined by " , " without a trailing
-- separator, whatever the names hold, and the items' values joined likewise, with "0" for an item
-- without a value; in a build without logging none is. There is one value for each name.
pub rows_match :
    (enable_logging : Bool) (s : CtrlLogger) (t : Text) (ts : List Text)
    → s.entry_names ≡ numbered 0 (t ∷ ts)
    → s.item_counter ≡ length (t ∷ ts)
    → let s' = pass_header enable_logging s in
      ((pass_data enable_logging s').rows
        ≡ s.rows
          ++ (if enable_logging
              then join (t ∷ ts) ∷ join (map cell_text s'.item_data) ∷ []
              else []))
      × (length s'.item_data ≡ length (t ∷ ts))
      × (s'.head_added ≡ true)
rows_match true s t ts names count =
    let (rows, columns, added) = header_row true s t ts names count in
    let values = join (map cell_text (pass_header true s).item_data) in
    (
      data_row true (pass_header true s)
          ∙ ap (λ (b : Bool). (pass_header true s).rows ++ (if b then [] else values ∷ []))
              (some_columns (pass_header true s).item_data (length ts) columns)
          ∙ ap (λ r. r ++ (values ∷ [])) rows
          ∙ append_assoc s.rows (join (t ∷ ts) ∷ []) (values ∷ []),
      columns,
      added,
    )
rows_match false s t ts names count =
    let (rows, columns, added) = header_row false s t ts names count in
    (
      data_row false (pass_header false s) ∙ append-nil (pass_header false s).rows ∙ rows,
      columns,
      added,
    )
