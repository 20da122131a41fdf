-- ===== src/Logging/Rows/Split.antt =====
-- A row splits at its commas into the values it was built from.
use xm_sigma.Common.{ℕ, ◌≡◌, ◌≢◌, refl, ap, ◌∙◌, sym, false, Option, none, some}
use xm_sigma.Common.{List, [], ◌∷◌, ◌++◌, All, ◌==◌, if◌then◌else◌}
use xm_sigma.Logging.Rows.{Text, comma, build_string, pop_back, log_row}

-- The reader: a byte goes to the first of the values behind it.
unfoldable pub onto_first : ℕ → List Text → List Text
onto_first c [] = (c ∷ []) ∷ []
onto_first c (t ∷ ts) = (c ∷ t) ∷ ts

unfoldable pub split : Text → List Text
unfolding onto_first
split [] = [] ∷ []
split (c ∷ text) = let rest = split text in if c == comma then [] ∷ rest else onto_first c rest

abbrev pub NoComma : Text → Type 0
NoComma t = All (λ c. (c == comma) ≡ false) t

-- The row with its values joined by commas.
unfoldable pub join : List Text → Text
join [] = []
join (t ∷ []) = t
join (t ∷ u ∷ ts) = t ++ (comma ∷ join (u ∷ ts))

pop_back-cons : (c : ℕ) (t : Text) → t ≢ [] → pop_back (c ∷ t) ≡ c ∷ pop_back t
unfolding pop_back
pop_back-cons c [] ne = absurd (ne refl)
pop_back-cons c (d ∷ t) ne = refl

pop_back-append : (s t : Text) → t ≢ [] → pop_back (s ++ t) ≡ s ++ pop_back t
pop_back-append [] t ne = refl
pop_back-append (c ∷ s) t ne =
    pop_back-cons c (s ++ t) (some_left s) ∙ ap (λ r. c ∷ r) (pop_back-append s t ne)
  where
    some_left : (s : Text) → s ++ t ≢ []
    some_left [] e = ne e
    some_left (d ∷ s) e = cc

append-nil_text : (t : Text) → t ++ [] ≡ t
append-nil_text [] = refl
append-nil_text (c ∷ t) = ap (λ r. c ∷ r) (append-nil_text t)

build_string_filled : (t : Text) (ts : List Text) → build_string (t ∷ ts) ≢ []
unfolding build_string
build_string_filled [] ts e = cc
build_string_filled (c ∷ t) ts e = cc

build_string-join : (t : Text) (ts : List Text) → pop_back (build_string (t ∷ ts)) ≡ join (t ∷ ts)
unfolding build_string join pop_back
build_string-join t [] = pop_back-append t (comma ∷ []) (λ e. cc) ∙ append-nil_text t
build_string-join t (u ∷ ts) =
    pop_back-append t (comma ∷ build_string (u ∷ ts)) (λ e. cc)
    ∙ ap (λ r. t ++ r)
        (pop_back-cons comma (build_string (u ∷ ts)) (build_string_filled u ts)
          ∙ ap (λ r. comma ∷ r) (build_string-join u ts))

split_plain : (t : Text) → NoComma t → split t ≡ t ∷ []
unfolding split onto_first
split_plain [] h = refl
split_plain (c ∷ t) h = rw (h.0, split_plain t h.1) refl

split_first : (t text : Text) → NoComma t → split (t ++ (comma ∷ text)) ≡ t ∷ split text
unfolding split onto_first
split_first [] text h = refl
split_first (c ∷ t) text h = rw (h.0, split_first t text h.1) refl

split-join : (t : Text) (ts : List Text) → All NoComma (t ∷ ts) → split (join (t ∷ ts)) ≡ t ∷ ts
unfolding join
split-join t [] h = split_plain t h.0
split-join t (u ∷ ts) h = split_first t (join (u ∷ ts)) h.0 ∙ ap (λ r. t ∷ r) (split-join u ts h.1)

log_row-join : (t : Text) (ts : List Text) → log_row (t ∷ ts) ≡ some (join (t ∷ ts))
unfolding log_row
log_row-join t ts = go (build_string (t ∷ ts)) refl
  where
    go :
        (row : Text)
        → row ≡ build_string (t ∷ ts)
        → elim row as (λ r. Option Text) [ [] ↦ none | c ∷ text ↦ some (pop_back (c ∷ text)) ]
          ≡ some (join (t ∷ ts))
    go [] e = absurd (build_string_filled t ts (sym e))
    go (c ∷ text) e = ap some (ap pop_back e ∙ build_string-join t ts)

-- A row of at least one value is the values joined by commas, and splitting it at its commas
-- gives the values back, in order, empty ones included, if no value holds a comma. A call without
-- values writes nothing.
pub split-log_row :
    (t : Text) (ts : List Text)
    → All NoComma (t ∷ ts)
    → (row : Text) × (log_row (t ∷ ts) ≡ some row)
      × (row ≡ join (t ∷ ts))
      × (split row ≡ t ∷ ts)
      × (log_row [] ≡ none)
unfolding log_row
split-log_row t ts h = (join (t ∷ ts), log_row-join t ts, refl, split-join t ts h, refl)
