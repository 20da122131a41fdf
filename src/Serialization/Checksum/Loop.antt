-- ===== src/Serialization/Checksum/Loop.antt =====
-- The loop over the bytes is a fold of the bytes, and reads none behind `len`.
use xm_sigma.Common.{ℕ, zero, suc, ◌+◌, ◌<◌, ◌^◌, ◌≡◌, refl, ◌∙◌, arith, some}
use xm_sigma.Common.{Option-cases, inl, inr, List, [], ◌∷◌, ◌++◌, length, get_elem?}
use xm_sigma.Serialization.Checksum.{scan}

unfoldable pub fold : (ℕ → ℕ → ℕ) → ℕ → List ℕ → ℕ
fold f acc [] = acc
fold f acc (x ∷ xs) = fold f (f acc x) xs

abbrev pub IsByte : ℕ → Type 0
IsByte x = x < 2 ^ 8

abbrev pub AllBytes : List ℕ → Type 0
AllBytes [] = Unit
AllBytes (x ∷ xs) = IsByte x × AllBytes xs

pub fold-append :
    (f : ℕ → ℕ → ℕ) (acc : ℕ) (xs ys : List ℕ) → fold f acc (xs ++ ys) ≡ fold f (fold f acc xs) ys
unfolding fold
fold-append f acc [] ys = refl
fold-append f acc (x ∷ xs) ys = fold-append f (f acc x) xs ys

scan-cons :
    (left : ℕ) (f : ℕ → ℕ → ℕ) (i x : ℕ) (xs : List ℕ) (acc : ℕ)
    → scan left f (suc i) (x ∷ xs) acc ≡ scan left f i xs acc
unfolding scan
scan-cons zero f i x xs acc = refl
scan-cons (suc left) f i x xs acc = elim (Option-cases (get_elem? xs i)) [
  | inl past ↦ rw (past, scan)
  | inr (y, held) ↦ rw (held, scan) (rw suc_add (scan-cons left f (i + 1) x xs (f acc y)))
]
  where
    suc_add : suc i + 1 ≡ suc (i + 1)
    suc_add = omega arith

-- A loop over the length of `xs` reads exactly `xs`.
pub scan-fold :
    (f : ℕ → ℕ → ℕ) (xs rest : List ℕ) (acc : ℕ)
    → scan (length xs) f 0 (xs ++ rest) acc ≡ some (fold f acc xs)
unfolding scan fold
scan-fold f [] rest acc = refl
scan-fold f (x ∷ xs) rest acc =
    scan-cons (length xs) f 0 x (xs ++ rest) (f acc x) ∙ scan-fold f xs rest (f acc x)
