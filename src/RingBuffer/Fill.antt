-- ===== src/RingBuffer/Fill.antt =====
-- What a burst copies into the caller's vector, and what a full queue keeps of a burst.
use xm_sigma.Common.{ℕ, zero, suc, ◌+◌, ◌-◌, ◌≤◌, ◌<◌, ◌≡◌, refl, sym, ◌∙◌, ap, arith}
use xm_sigma.Common.{
  List, [], ◌∷◌, ◌++◌, length, get_elem?, set, drop, take, some, length-append, length-set,
}
use xm_sigma.Common.{length-drop, drop-drop, drop-append, get_elem?-set_self, get_elem?-set_ne}
use xm_sigma.RingBuffer.Queue.{newest}

module _ {ℓ} {T : Type ℓ} where
  -- `out'` is `out` with the first `m` elements of `q` copied to the places from `lo` on.
  pub record Filled (q : List T) (lo m : ℕ) (out out' : List T) : Type ℓ where
    pub same_length : length out' ≡ length out
    pub copied : (j : ℕ) → j < m → get_elem? out' (lo + j) ≡ get_elem? q j
    pub before : (j : ℕ) → j < lo → get_elem? out' j ≡ get_elem? out j
    pub after : (j : ℕ) → lo + m ≤ j → get_elem? out' j ≡ get_elem? out j

  pub Filled_none : (q : List T) (lo : ℕ) (out : List T) → Filled q lo 0 out out
  Filled_none q lo out = record {
    same_length = refl;
    copied = λ j h. absurd (omega arith);
    before = λ j h. refl;
    after = λ j h. refl;
  }

  pub Filled_one_more :
      (x : T) (q : List T) (lo m : ℕ) (out out' : List T)
      → lo < length out
      → Filled q (lo + 1) m (set out lo x) out'
      → Filled (x ∷ q) lo (suc m) out out'
  Filled_one_more x q lo m out out' h f = record {
    same_length = f.same_length ∙ length-set out lo x;
    copied = copied_here;
    before = λ j p. f.before j (omega arith) ∙ get_elem?-set_ne out lo j x (omega arith);
    after = λ j p. f.after j (omega arith) ∙ get_elem?-set_ne out lo j x (omega arith);
  }
    where
      copied_here : (j : ℕ) → j < suc m → get_elem? out' (lo + j) ≡ get_elem? (x ∷ q) j
      copied_here zero p =
          ap (λ (t : ℕ). get_elem? out' t) {x = lo + 0} {y = lo} (omega arith)
          ∙ f.before lo (omega arith)
          ∙ get_elem?-set_self out lo x h
      copied_here (suc j) p =
          ap (λ (t : ℕ). get_elem? out' t) {x = lo + suc j} {y = lo + 1 + j} (omega arith)
          ∙ f.copied j (omega arith)

  same_elements : (xs ys : List T) → ((j : ℕ) → get_elem? xs j ≡ get_elem? ys j) → xs ≡ ys
  same_elements [] [] h = refl
  same_elements [] (y ∷ ys) h = let e = h 0 in cc
  same_elements (x ∷ xs) [] h = let e = h 0 in cc
  same_elements (x ∷ xs) (y ∷ ys) h =
      let e = h 0 in let same : x ≡ y = cc in rw (same, same_elements xs ys (λ j. h (suc j))) refl

  -- What a copy of `m` elements to the front leaves, as a list.
  pub filled_lem :
      (m : ℕ) (q out out' : List T)
      → m ≤ length q
      → m ≤ length out
      → Filled q 0 m out out'
      → out' ≡ take m q ++ drop m out
  filled_lem zero q out out' hq ho f = same_elements _ _ (λ j. f.after j (omega arith))
  filled_lem (suc m) [] out out' hq ho f = absurd (omega arith)
  filled_lem (suc m) (x ∷ q) [] out' hq ho f = absurd (omega arith)
  filled_lem (suc m) (x ∷ q) (y ∷ out) [] hq ho f = let e = f.same_length in absurd (omega arith)
  filled_lem (suc m) (x ∷ q) (y ∷ out) (z ∷ out') hq ho f =
      let e : some z ≡ some x = at 0 (omega arith) in
      let same : z ≡ x = cc in
      rw (same, filled_lem m q out out' (omega arith) (omega arith) rest) refl
    where
      at : (j : ℕ) → j < suc m → get_elem? (z ∷ out') j ≡ get_elem? (x ∷ q) j
      at j h = ap (get_elem? (z ∷ out')) {x = j} {y = 0 + j} (omega arith) ∙ f.copied j h

      rest : Filled q 0 m out out'
      rest = record {
        same_length = omega (arith, f.same_length);
        copied =
            λ j h. ap (get_elem? out') {x = 0 + j} {y = j} (omega arith) ∙ at (suc j) (omega arith);
        before = λ j h. absurd (omega arith);
        after = λ j h. f.after (suc j) (omega arith);
      }

  -- Appending to what is already cut to the newest `cap` elements.
  pub newest-append :
      (cap : ℕ) (ys xs : List T) → newest cap (newest cap ys ++ xs) ≡ newest cap (ys ++ xs)
  newest-append cap ys xs =
      ap (λ zs. drop (length (newest cap ys ++ xs) - cap) zs)
        (sym (drop-append (length ys - cap) ys xs (omega arith)))
      ∙ drop-drop (length (newest cap ys ++ xs) - cap) (length ys - cap) (ys ++ xs)
      ∙ ap (λ (k : ℕ). drop k (ys ++ xs)) total
    where
      total : length ys - cap + (length (newest cap ys ++ xs) - cap) ≡ length (ys ++ xs) - cap
      total = omega (
        arith,
        length-append (newest cap ys) xs,
        length-drop (length ys - cap) ys,
        length-append ys xs,
      )
