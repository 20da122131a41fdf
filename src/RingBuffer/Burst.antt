-- ===== src/RingBuffer/Burst.antt =====
-- The burst methods: how many elements they move, and which.
use xm_sigma.Common.{ℕ, zero, suc, ◌+◌, ◌%◌, ◌≤◌, ◌≡◌, refl, ◌∙◌, ap, arith, min}
use xm_sigma.Common.{Bool, Option, some}
use xm_sigma.Common.{List, [], ◌∷◌, length, get_elem?, set, drop, u64, bit_and, ltb}
use xm_sigma.Common.{length-set, if◌then◌else◌}
use xm_sigma.Common.Indices.{mask_lem, u64-mod}
use xm_sigma.RingBuffer.{RingBuffer, skip_oldest, read_loop, peek_loop}
use xm_sigma.RingBuffer.{read_burst, peek}
use xm_sigma.RingBuffer.Inv.{IsRing}
use xm_sigma.Common.Cells.{Holds, Holds-same_cell}
use xm_sigma.RingBuffer.Sizes.{get_occupied_size-IsRing}
use xm_sigma.RingBuffer.Single.{skip_oldest-IsRing, first_cell, not_empty}
use xm_sigma.RingBuffer.Fill.{Filled, Filled_none, Filled_one_more}

module _ {ℓ} {T : Type ℓ} (n : ℕ) (overwrite : Bool) where
  -- What a burst read of `m` elements did, started at place `i` of the caller's vector.
  pub record DidRead (q : List T) (i m : ℕ) (out : List T)
      (result : Option (ℕ × List T × RingBuffer T)) : Type ℓ where
    pub out' : List T
    pub ring : RingBuffer T
    pub returns : result ≡ some (i + m, out', ring)
    pub filled : Filled q i m out out'
    pub rest : IsRing n overwrite ring (drop m q)

module _ {ℓ} {T : Type ℓ} where
  -- What a peek at `m` elements did.
  pub record DidPeek (q : List T) (i m : ℕ) (out : List T) (result : Option (List T)) : Type ℓ where
    pub out' : List T
    pub returns : result ≡ some out'
    pub filled : Filled q i m out out'

module _ {ℓ} {T : Type ℓ} {n : ℕ} {overwrite : Bool} where
  read_loop_more :
      (left i : ℕ) (out : List T) {r : RingBuffer T} (q : List T) {y : T}
      → IsRing n overwrite r (y ∷ q)
      → read_loop (suc left) i out r ≡ read_loop left (i + 1) (set out i y) (skip_oldest r)
  unfolding read_loop
  read_loop_more left i out q v = ground (arith, not_empty v, first_cell v)

  peek_loop_more :
      (left i : ℕ) (out : List T) (r : RingBuffer T) {q : List T} {y : T}
      → IsRing n overwrite r q
      → get_elem? r.buffer ((r.read_index + i) % n) ≡ some y
      → peek_loop (suc left) i out r ≡ peek_loop left (i + 1) (set out i y) r
  unfolding peek_loop
  peek_loop_more left i out r {y} v e = ground (arith, cell)
    where
      cell : get_elem? r.buffer (bit_and (u64 (r.read_index + i)) r.size_mask) ≡ some y
      cell =
          rw (v.mask, mask_lem v.size (u64 (r.read_index + i)), u64-mod v.size (r.read_index + i)) e

  read_loop-DidRead :
      (left i m : ℕ) (out : List T) (r : RingBuffer T) (q : List T)
      → IsRing n overwrite r q
      → i + left ≤ length out
      → m ≡ min left (length q)
      → DidRead n overwrite q i m out (read_loop left i out r)
  unfolding read_loop
  read_loop-DidRead zero i zero out r q v h e = record {
    out' = out;
    ring = r;
    returns = ground arith;
    filled = Filled_none q i out;
    rest = v;
  }
  read_loop-DidRead zero i (suc m) out r q v h e = absurd (omega arith)
  read_loop-DidRead (suc left) i zero out r [] v h e = record {
    out' = out;
    ring = r;
    returns = ground (arith, v.write_at, v.read_range);
    filled = Filled_none [] i out;
    rest = v;
  }
  read_loop-DidRead (suc left) i (suc m) out r [] v h e = absurd (omega arith)
  read_loop-DidRead (suc left) i zero out r (y ∷ q) v h e = absurd (omega arith)
  read_loop-DidRead (suc left) i (suc m) out r (y ∷ q) v h e =
      let next : DidRead n overwrite q (i + 1) m (set out i y)
          (read_loop left (i + 1) (set out i y) (skip_oldest r)) =
        read_loop-DidRead left (i + 1) m (set out i y) (skip_oldest r) q (skip_oldest-IsRing v)
          (rw (length-set out i y) (omega arith)) (omega arith) in
      record {
        out' = next.out';
        ring = next.ring;
        returns =
            read_loop_more left i out q v
            ∙ next.returns
            ∙ ap (λ (t : ℕ). some (t, next.out', next.ring)) {x = i + 1 + m} (omega arith);
        filled = Filled_one_more y q i m out next.out' (omega arith) next.filled;
        rest = next.rest;
      }

  -- A burst read moves as many elements as the count, the caller's vector and the queue allow,
  -- oldest first, to the front of the vector, and leaves the rest of both alone. It never reads
  -- or writes out of range.
  pub read_burst_refines :
      {r : RingBuffer T} (q out : List T) (btr : ℕ)
      → IsRing n overwrite r q
      → DidRead n overwrite q 0 (min (min btr (length out)) (length q)) out (read_burst r out btr)
  unfolding read_burst
  read_burst_refines {r} q out btr v =
      read_loop-DidRead (if ltb (length out) btr then length out else btr) 0
        (min (min btr (length out)) (length q)) out r q v (ground arith) (ground arith)

  -- `s` is what the ring holds from its `i`-th element on.
  peek_loop-DidPeek :
      (left i : ℕ) (out : List T) (r : RingBuffer T) {q : List T} (s : List T)
      → IsRing n overwrite r q
      → Holds n r.buffer (r.read_index + i) s
      → left ≤ length s
      → i + left ≤ length out
      → DidPeek s i left out (peek_loop left i out r)
  unfolding peek_loop
  peek_loop-DidPeek zero i out r s v held hs ho = record {
    out' = out;
    returns = refl;
    filled = Filled_none s i out;
  }
  peek_loop-DidPeek (suc left) i out r [] v held hs ho = absurd (omega arith)
  peek_loop-DidPeek (suc left) i out r (x ∷ s) v held hs ho =
      let next : DidPeek s (i + 1) left (set out i x) (peek_loop left (i + 1) (set out i x) r) =
        peek_loop-DidPeek left (i + 1) (set out i x) r s v
          (Holds-same_cell n r.buffer s (r.read_index + i + 1) (r.read_index + (i + 1))
            (ap (λ (t : ℕ). t % n) (omega arith)) held.1)
          (omega arith) (rw (length-set out i x) (omega arith)) in
      record {
        out' = next.out';
        returns = peek_loop_more left i out r v held.0 ∙ next.returns;
        filled = Filled_one_more x s i left out next.out' (omega arith) next.filled;
      }

  -- `Peek` copies what a burst read of the same count would return, and moves no index: as many
  -- elements as the count, the caller's vector and the queue allow. It stays inside the arrays.
  pub peek_refines :
      {r : RingBuffer T} (q out : List T) (btp : ℕ)
      → IsRing n overwrite r q
      → let m = min (min btp (length out)) (length q) in
        (out' : List T) × (peek r out btp ≡ some (m, out')) × Filled q 0 m out out'
  unfolding peek
  peek_refines {r} q out btp v =
      let m = min (min btp (length out)) (length q) in
      let did : DidPeek q 0 m out (peek_loop m 0 out r) =
        peek_loop-DidPeek m 0 out r q v
          (Holds-same_cell n r.buffer q r.read_index (r.read_index + 0)
            (ap (λ (t : ℕ). t % n) {x = r.read_index} (omega arith)) v.cells)
          (omega arith) (omega arith) in
      (did.out', rw (get_occupied_size-IsRing v, did.returns), did.filled)
