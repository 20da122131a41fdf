-- ===== src/RingBuffer/BurstWrite.antt =====
-- `Write(const std::vector<T>&, btw)`: how many elements it takes, and which stay.
use xm_sigma.Common.{ℕ, suc, ◌+◌, ◌-◌, ◌≤◌, ◌≡◌, sym, ◌∙◌, ap, arith, min}
use xm_sigma.Common.{Bool, true, false, Bool-cases, ◌==◌, eq_of_==, inl, inr}
use xm_sigma.Common.{List, [], ◌∷◌, ◌++◌, length, drop, take, ltb, length-take, take_nil}
use xm_sigma.Common.{length-append, if◌then◌else◌, append_assoc, append-nil}
use xm_sigma.RingBuffer.{RingBuffer, store, stored, skip_oldest, write_loop, write_burst}
use xm_sigma.RingBuffer.Sizes.{is_full-IsRing}
use xm_sigma.Common.{zero, refl, subst, get_elem?, some, Option}
use xm_sigma.RingBuffer.Inv.{IsRing}
use xm_sigma.RingBuffer.Single.{store_lem, store-skip_oldest, stored-IsRing, stored-skip_oldest}
use xm_sigma.RingBuffer.Queue.{newest}
use xm_sigma.RingBuffer.Fill.{newest-append}

nothing_left : (k : ℕ) → k - k ≡ 0
nothing_left k = omega arith

module _ {ℓ} {T : Type ℓ} where
  newest_le : (limit : ℕ) (q : List T) → length q ≤ limit → newest limit q ≡ q
  newest_le limit q h = ap (λ (k : ℕ). drop k q) {x = length q - limit} {y = 0} (omega arith)

  newest_one_more :
      (limit : ℕ) (q : List T) (x : T)
      → length q ≡ limit
      → newest limit (q ++ (x ∷ [])) ≡ drop 1 (q ++ (x ∷ []))
  newest_one_more limit q x e =
      ap (λ (k : ℕ). drop k (q ++ (x ∷ []))) {y = 1} (omega (arith, length-append q (x ∷ [])))

  -- The elements that the loop reads from the caller's vector, from place `i` on.
  abbrev Reads : List T → ℕ → List T → Type ℓ
  Reads new_data i [] = Unit
  Reads new_data i (x ∷ xs) = (get_elem? new_data i ≡ some x) × Reads new_data (suc i) xs

  Reads-cons :
      (y : T) (new_data : List T) (i : ℕ) (xs : List T)
      → Reads new_data i xs
      → Reads (y ∷ new_data) (suc i) xs
  Reads-cons y new_data i [] h = tt
  Reads-cons y new_data i (x ∷ xs) h = (h.0, Reads-cons y new_data (suc i) xs h.1)

  take-Reads : (k : ℕ) (new_data : List T) → Reads new_data 0 (take k new_data)
  take-Reads zero new_data = tt
  take-Reads (suc k) [] = tt
  take-Reads (suc k) (x ∷ xs) = (refl, Reads-cons x xs 0 (take k xs) (take-Reads k xs))

  -- What the loop is given: the count clamped to the caller's vector.
  clamped_lem :
      (xs : List T) (btw : ℕ)
      → (if ltb (length xs) btw then length xs else btw) ≡ length (take btw xs)
  clamped_lem xs btw = ground (arith, length-take btw xs)

module _ {ℓ} {T : Type ℓ} {n : ℕ} {overwrite : Bool} where
  -- A round of the loop.
  loop_room :
      (left i : ℕ) (new_data : List T) {r : RingBuffer T} {q : List T} (x : T)
      → IsRing n overwrite r q
      → (length q == n - 1) ≡ false
      → get_elem? new_data i ≡ some x
      → write_loop (suc left) i new_data r ≡ write_loop left (suc i) new_data (stored r x)
  unfolding write_loop
  loop_room left i new_data x v room e =
      rw (is_full-IsRing v, room, e, store_lem x v, write_loop) refl

  skips_to :
      (left i : ℕ) (new_data : List T) {r : RingBuffer T} {q : List T} (x : T) (r' : RingBuffer T)
      → IsRing n overwrite r q
      → (length q == n - 1) ≡ true
      → overwrite ≡ true
      → get_elem? new_data i ≡ some x
      → store (skip_oldest r) x ≡ some r'
      → write_loop (suc left) i new_data r ≡ write_loop left (suc i) new_data r'
  unfolding write_loop
  skips_to left i new_data x r' v full over e s =
      rw (is_full-IsRing v, full, v.policy, over, e, s, write_loop) refl

  loop_skips :
      (left i : ℕ) (new_data : List T) {r : RingBuffer T} {q : List T} (x : T)
      → IsRing n overwrite r q
      → (length q == n - 1) ≡ true
      → overwrite ≡ true
      → get_elem? new_data i ≡ some x
      → write_loop (suc left) i new_data r
        ≡ write_loop left (suc i) new_data (stored (skip_oldest r) x)
  loop_skips left i new_data x v full over e =
      skips_to left i new_data x _ v full over e (store-skip_oldest x v)

  loop_stops :
      (left i : ℕ) (new_data : List T) {r : RingBuffer T} {q : List T}
      → IsRing n overwrite r q
      → (length q == n - 1) ≡ true
      → overwrite ≡ false
      → write_loop (suc left) i new_data r ≡ some (i, r)
  unfolding write_loop
  loop_stops left i new_data v full refuse =
      simp (is_full-IsRing v, full, v.policy, refuse, write_loop)

module _ {ℓ} {T : Type ℓ} (n : ℕ) (overwrite : Bool) where
  -- What a burst write did: how many elements it took, and what the ring holds then.
  pub record DidWrite (count : ℕ) (q : List T) (result : Option (ℕ × RingBuffer T)) : Type ℓ where
    pub ring : RingBuffer T
    pub returns : result ≡ some (count, ring)
    pub holds : IsRing n overwrite ring q

module _ {ℓ} {T : Type ℓ} {n : ℕ} where
  did_more :
      {overwrite : Bool} (first second : Option (ℕ × RingBuffer T)) (k count : ℕ)
      → (q q' : List T) → first ≡ second
      → k ≡ count
      → q ≡ q'
      → DidWrite n overwrite k q second
      → DidWrite n overwrite count q' first
  did_more {overwrite} first second k count q q' step same held did = record {
    ring = did.ring;
    returns = step ∙ did.returns ∙ ap (λ (j : ℕ). some (j, did.ring)) same;
    holds = subst (IsRing n overwrite did.ring) held did.holds;
  }

  -- With overwriting every element is written, and the ring keeps the newest that fit.
  loop_overwrites :
      (xs : List T) (i : ℕ) (new_data : List T) {r : RingBuffer T} (q : List T)
      → Reads new_data i xs
      → IsRing n true r q
      → DidWrite n true
          (i + length xs)
          (newest (n - 1) (q ++ xs))
          (write_loop (length xs) i new_data r)
  loop_overwrites [] i new_data {r} q h v =
      unfold write_loop in
      record {
        ring = r;
        returns = ap (λ (k : ℕ). some (k, r)) {x = i} (omega arith);
        holds = rw (append-nil q, newest_le (n - 1) q (omega (arith, v.room))) v;
      }
  loop_overwrites (x ∷ xs) i new_data {r} q h v = elim (Bool-cases (length q == n - 1)) [
    | inl full ↦
        did_more _ _ _ _ _ _ (loop_skips (length xs) i new_data x v full refl h.0) (omega arith)
          (one_dropped full)
          (loop_overwrites xs (suc i) new_data (drop 1 (q ++ (x ∷ []))) h.1
            (stored-skip_oldest q x v (eq_of_== _ _ full)))
    | inr room ↦
        did_more _ _ _ _ _ _ (loop_room (length xs) i new_data x v room h.0) (omega arith)
          (ap (newest (n - 1)) (append_assoc q (x ∷ []) xs))
          (loop_overwrites xs (suc i) new_data (q ++ (x ∷ [])) h.1
            (stored-IsRing x v (ground (arith, v.room))))
  ]
    where
      one_dropped :
          (length q == n - 1) ≡ true
          → newest (n - 1) (drop 1 (q ++ (x ∷ [])) ++ xs) ≡ newest (n - 1) (q ++ (x ∷ xs))
      one_dropped full =
          ap (λ ys. newest (n - 1) (ys ++ xs))
            (sym (newest_one_more (n - 1) q x (eq_of_== _ _ full)))
          ∙ newest-append (n - 1) (q ++ (x ∷ [])) xs
          ∙ ap (newest (n - 1)) (append_assoc q (x ∷ []) xs)

  -- Without overwriting the loop stops at the first element that does not fit.
  loop_refuses :
      (xs : List T) (i : ℕ) (new_data : List T) {r : RingBuffer T} (q : List T)
      → Reads new_data i xs
      → IsRing n false r q
      → DidWrite n false
          (i + min (length xs) (n - 1 - length q))
          (q ++ take (n - 1 - length q) xs)
          (write_loop (length xs) i new_data r)
  loop_refuses [] i new_data {r} q h v =
      unfold write_loop in
      record {
        ring = r;
        returns = ap (λ (k : ℕ). some (k, r)) {x = i} (omega arith);
        holds = rw (take_nil (n - 1 - length q), append-nil q) v;
      }
  loop_refuses (x ∷ xs) i new_data {r} q h v = elim (Bool-cases (length q == n - 1)) [
    | inl full ↦ record {
      ring = r;
      returns =
          loop_stops (length xs) i new_data v full refl
          ∙ ap (λ (k : ℕ). some (k, r)) {x = i} (omega (arith, eq_of_== _ _ full));
      holds =
          subst (IsRing n false r)
            (sym (append-nil q)
              ∙ ap (λ (k : ℕ). q ++ take k (x ∷ xs)) {x = 0} (omega (arith, eq_of_== _ _ full)))
            v;
    }
    | inr room ↦
        did_more _ _ _ _ _ _ (loop_room (length xs) i new_data x v room h.0)
          (ground (arith, v.room, length-append q (x ∷ []))) (one_taken room)
          (loop_refuses xs (suc i) new_data (q ++ (x ∷ [])) h.1
            (stored-IsRing x v (ground (arith, v.room))))
  ]
    where
      one_taken :
          (length q == n - 1) ≡ false
          → (q ++ (x ∷ [])) ++ take (n - 1 - length (q ++ (x ∷ []))) xs
            ≡ q ++ take (n - 1 - length q) (x ∷ xs)
      one_taken room =
          append_assoc q (x ∷ []) (take (n - 1 - length (q ++ (x ∷ []))) xs)
          ∙ ap (λ (k : ℕ). q ++ take k (x ∷ xs)) {x = suc (n - 1 - length (q ++ (x ∷ [])))}
              (ground (arith, v.room, length-append q (x ∷ [])))

  -- A burst write keeps to the bounded queue, in either mode, and accesses neither the array nor
  -- the caller's vector out of range. With overwriting it takes as many elements as the count and
  -- the caller's vector allow, and the ring keeps the newest `n - 1` of the old and new elements,
  -- in order; without, it takes no more than the free cells allow, and appends exactly those in
  -- order.
  pub write_burst_refines :
      {r : RingBuffer T} (overwrite : Bool) (q new_data : List T) (btw : ℕ)
      → IsRing n overwrite r q
      → let wanted = take btw new_data in
        let free = n - 1 - length q in
        DidWrite n overwrite
          (if overwrite then length wanted else min (length wanted) free)
          (if overwrite then newest (n - 1) (q ++ wanted) else q ++ take free wanted)
          (write_burst r new_data btw)
  unfolding write_burst
  write_burst_refines true q new_data btw v = rw (clamped_lem new_data btw) (
      did_more _ _ _ _ _ _ refl (omega arith) refl
        (loop_overwrites (take btw new_data) 0 new_data q (take-Reads btw new_data) v))
  write_burst_refines false q new_data btw v = rw (clamped_lem new_data btw) (
      did_more _ _ _ _ _ _ refl (omega arith) refl
        (loop_refuses (take btw new_data) 0 new_data q (take-Reads btw new_data) v))
