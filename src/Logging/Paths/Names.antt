-- ===== src/Logging/Paths/Names.antt =====
-- The name of the process.
use xm_sigma.Common.{ℕ, suc, ◌+◌, ◌≡◌, ◌≢◌, refl, ap, arith, ◌==◌, true, false}
use xm_sigma.Common.{none, some, [], ◌∷◌, ◌++◌, drop, length, All}
use xm_sigma.Logging.Rows.{Text}
use xm_sigma.Logging.Paths.{Platform, c_string, find_last_of, get_current_process_name, self_exe}

ne-== : (a b : ℕ) → a ≢ b → (a == b) ≡ false
ne-== a b h = ground arith

c_string_whole : (text : Text) → All (λ c. c ≢ 0) text → c_string text ≡ text
unfolding c_string
c_string_whole [] h = refl
c_string_whole (c ∷ text) h = rw (ne-== c 0 h.0, c_string_whole text h.1) refl

find_last_of_absent : (c : ℕ) (text : Text) → All (λ d. d ≢ c) text → find_last_of c text ≡ none
unfolding find_last_of
find_last_of_absent c [] h = refl
find_last_of_absent c (d ∷ text) h = rw (find_last_of_absent c text h.1, ne-== d c h.0) refl

find_last_of_last :
    (c : ℕ) (before text : Text)
    → All (λ d. d ≢ c) text
    → find_last_of c (before ++ (c ∷ text)) ≡ some (length before)
unfolding find_last_of
find_last_of_last c [] text h = rw (find_last_of_absent c text h, self) refl
  where
    self : (c == c) ≡ true
    self = ground arith
find_last_of_last c (d ∷ before) text h =
    rw (find_last_of_last c before text h)
      (ap some {x = length before + 1} {y = suc (length before)} (omega arith))

drop_past :
    (before : Text) (c : ℕ) (text : Text) → drop (suc (length before)) (before ++ (c ∷ text)) ≡ text
drop_past [] c text = refl
drop_past (d ∷ before) c text = drop_past before c text

-- Where `readlink` reads an absolute path without a zero in it, the process's name is what stands
-- behind its last slash.
pub process_name_is_last :
    (sys : Platform) (dir name : Text)
    → sys.readlink self_exe 1023 ≡ some (dir ++ (0x2f ∷ name))
    → All (λ c. c ≢ 0) (dir ++ (0x2f ∷ name))
    → All (λ c. c ≢ 0x2f) name
    → get_current_process_name sys ≡ name
unfolding get_current_process_name
process_name_is_last sys dir name e whole h =
    let one_more : length dir + 1 ≡ suc (length dir) = omega arith in
    rw
      (
        get_current_process_name,
        e,
        c_string_whole (dir ++ (0x2f ∷ name)) whole,
        find_last_of_last 0x2f dir name h,
        one_more,
      )
      (drop_past dir 0x2f name)
