-- ===== src/Common/Cells.antt =====
-- The cells of a circular array that hold a queue, from a free-running index on.
use native.Mathlib.Nat.{mod-add-mod}
use xm_sigma.Common.{ℕ, zero, suc, ◌+◌, ◌%◌, ◌<◌, ◌≡◌, ◌≢◌, sym, ◌∙◌, ap, arith}
use xm_sigma.Common.{List, [], ◌∷◌, ◌++◌, some, length, get_elem?, set, u64}
use xm_sigma.Common.{get_elem?-set_self, get_elem?-set_ne, modify, get_elem?-modify_ne, ◌-◌, ◌≤◌}
use xm_sigma.Common.Indices.{IsSize, u64-mod, index_ne, index_in_range}

module _ {ℓ} {T : Type ℓ} where
  -- The cells from the free-running index `i` on hold the elements of `q`.
  abbrev pub Holds : ℕ → List T → ℕ → List T → Type ℓ
  Holds n buf i [] = Unit
  Holds n buf i (x ∷ q) = (get_elem? buf (i % n) ≡ some x) × Holds n buf (i + 1) q

  -- Only the cell of an index counts.
  pub Holds-same_cell :
      (n : ℕ) (buf q : List T) (i j : ℕ) → i % n ≡ j % n → Holds n buf i q → Holds n buf j q
  Holds-same_cell n buf [] i j e h = tt
  Holds-same_cell n buf (x ∷ q) i j e h =
      (rw (← e) h.0, Holds-same_cell n buf q (i + 1) (j + 1) next h.1)
    where
      next : (i + 1) % n ≡ (j + 1) % n
      next = sym (mod-add-mod i n 1) ∙ ap (λ (t : ℕ). (t + 1) % n) e ∙ mod-add-mod j n 1

  pub Holds-get_elem? :
      (n : ℕ) (buf q : List T) (i j : ℕ)
      → Holds n buf i q
      → j < length q
      → get_elem? buf ((i + j) % n) ≡ get_elem? q j
  Holds-get_elem? n buf [] i j h p = absurd (omega arith)
  Holds-get_elem? n buf (x ∷ q) i zero h p =
      ap (λ (t : ℕ). get_elem? buf (t % n)) {x = i + 0} (omega arith) ∙ h.0
  Holds-get_elem? n buf (x ∷ q) i (suc j) h p =
      ap (λ (t : ℕ). get_elem? buf (t % n)) {x = i + suc j} {y = i + 1 + j} (omega arith)
      ∙ Holds-get_elem? n buf q (i + 1) j h.1 (omega arith)

  pub Holds-set :
      {n : ℕ} (size : IsSize n) (buf q : List T) (i t : ℕ) (x : T)
      → length buf ≡ n
      → length q < n
      → t ≡ (i + length q) % n
      → Holds n buf i q
      → Holds n (set buf t x) i (q ++ (x ∷ []))
  Holds-set {n} size buf [] i t x e room et h = (
    rw (et, add_zero) (get_elem?-set_self buf (i % n) x (omega (arith, index_in_range size i, e))),
    tt,
  )
    where
      add_zero : i + 0 ≡ i
      add_zero = omega arith
  Holds-set {n} size buf (y ∷ q) i t x e room et h = (
    get_elem?-set_ne buf t (i % n) x apart ∙ h.0,
    Holds-set size buf q (i + 1) t x e (omega arith) next h.1,
  )
    where
      apart : t ≢ i % n
      apart = rw et (index_ne size i (suc (length q)) (omega arith) room)

      next : t ≡ (i + 1 + length q) % n
      next = et ∙ ap (λ (s : ℕ). s % n) (omega arith)

  pub Holds-step :
      {n : ℕ} (size : IsSize n) (buf q : List T) (i : ℕ) (x : T)
      → Holds n buf i (x ∷ q)
      → Holds n buf (u64 (i + 1)) q
  Holds-step {n} size buf q i x h =
      Holds-same_cell n buf q (i + 1) (u64 (i + 1)) (sym (u64-mod size (i + 1))) h.1

  -- A change to a cell that is not one of the queue's.
  pub Holds-modify :
      {n : ℕ} (size : IsSize n) (buf q : List T) (i d t : ℕ) (f : T → T)
      → length q ≤ d
      → d < n
      → t ≡ (i + d) % n
      → Holds n buf i q
      → Holds n (modify buf t f) i q
  Holds-modify size buf [] i d t f hd room e h = tt
  Holds-modify {n} size buf (x ∷ q) i d t f hd room e h = (
    get_elem?-modify_ne buf t (i % n) f apart ∙ h.0,
    Holds-modify size buf q (i + 1) (d - 1) t f (omega arith) (omega arith) next h.1,
  )
    where
      apart : t ≢ i % n
      apart = rw e (index_ne size i d (omega arith) room)

      next : t ≡ (i + 1 + (d - 1)) % n
      next = e ∙ ap (λ (s : ℕ). s % n) {x = i + d} (omega arith)

  -- A record that stands behind the queue's last cell extends the queue.
  pub Holds-append :
      (n : ℕ) (buf q : List T) (i : ℕ) (x : T)
      → get_elem? buf ((i + length q) % n) ≡ some x
      → Holds n buf i q
      → Holds n buf i (q ++ (x ∷ []))
  Holds-append n buf [] i x e h =
      (ap (λ (s : ℕ). get_elem? buf (s % n)) {y = i + 0} (omega arith) ∙ e, tt)
  Holds-append n buf (y ∷ q) i x e h = (
    h.0,
    Holds-append n buf q (i + 1) x
        (ap (λ (s : ℕ). get_elem? buf (s % n)) {y = i + length (y ∷ q)} (omega arith) ∙ e) h.1,
  )
