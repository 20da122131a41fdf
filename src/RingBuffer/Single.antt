-- ===== src/RingBuffer/Single.antt =====
-- `Write(const T&)`, `Read(T&)` and `PeekAt` against the bounded queue.
use xm_sigma.Common.{ℕ, ◌+◌, ◌-◌, ◌<◌, ◌≡◌, refl, ◌∙◌, arith}
use xm_sigma.Common.{Bool, true, false, Bool-cases, ◌==◌, eq_of_==, inl, inr, some}
use xm_sigma.Common.{List, [], ◌∷◌, ◌++◌, length, get_elem?, drop, u64, bit_and}
use xm_sigma.Common.{length-append, length-set, if◌then◌else◌, leb, ltb}
use xm_sigma.Common.Indices.{size_pos, size_bound, mask_lem, u64-mod, index_in_range}
use xm_sigma.RingBuffer.{RingBuffer, stored, store, skip_oldest, read_one, write_one, peek_at}
use xm_sigma.RingBuffer.Inv.{IsRing}
use xm_sigma.Common.Cells.{Holds-set, Holds-step, Holds-get_elem?}
use xm_sigma.RingBuffer.Sizes.{is_full-IsRing, get_occupied_size-IsRing, next_cell}
use xm_sigma.RingBuffer.Queue
use mathlib.Core.Option

module _ {ℓ} {T : Type ℓ} {n : ℕ} {overwrite : Bool} where
  -- Storing where there is room appends to the queue.
  pub stored-IsRing :
      {r : RingBuffer T} {q : List T} (x : T)
      → IsRing n overwrite r q
      → length q < n - 1
      → IsRing n overwrite (stored r x) (q ++ (x ∷ []))
  stored-IsRing {r} {q} x v h = record {
    size = v.size;
    policy = v.policy;
    mask = v.mask;
    array = length-set r.buffer (bit_and r.write_index r.size_mask) x ∙ v.array;
    read_range = v.read_range;
    write_at = rw (v.write_at, length-append q (x ∷ [])) (omega arith);
    room = rw (length-append q (x ∷ [])) (omega arith);
    cells =
        Holds-set v.size r.buffer q r.read_index (bit_and r.write_index r.size_mask) x v.array
          v.room (next_cell v) v.cells;
  }

  -- Skipping the oldest element.
  pub skip_oldest-IsRing :
      {r : RingBuffer T} {q : List T} {y : T}
      → IsRing n overwrite r (y ∷ q)
      → IsRing n overwrite (skip_oldest r) q
  skip_oldest-IsRing {r} {q} {y} v = record {
    size = v.size;
    policy = v.policy;
    mask = v.mask;
    array = v.array;
    read_range = omega arith;
    write_at = rw v.write_at (omega arith);
    room = omega (arith, v.room);
    cells = Holds-step v.size r.buffer q r.read_index y v.cells;
  }

  -- Storing into a full ring after its oldest element was skipped.
  pub stored-skip_oldest :
      {r : RingBuffer T} (q : List T) (x : T)
      → IsRing n overwrite r q
      → length q ≡ n - 1
      → IsRing n overwrite (stored (skip_oldest r) x) (drop 1 (q ++ (x ∷ [])))
  stored-skip_oldest {r} [] x v e = record {
    size = v.size;
    policy = v.policy;
    mask = v.mask;
    array = length-set r.buffer (bit_and r.write_index r.size_mask) x ∙ v.array;
    read_range = omega arith;
    write_at = omega (arith, v.write_at, v.read_range);
    room = size_pos v.size;
    cells = tt;
  }
  stored-skip_oldest (y ∷ q) x v e =
      stored-IsRing x (skip_oldest-IsRing v) (omega (arith, size_pos v.size))

  -- The write index is masked into the array.
  in_array :
      {r : RingBuffer T} {q : List T}
      → IsRing n overwrite r q
      → ltb (bit_and r.write_index r.size_mask) (length r.buffer) ≡ true
  in_array {r} v =
      rw (v.mask, mask_lem v.size r.write_index, v.array)
        (ground (arith, index_in_range v.size r.write_index))

  pub store_lem :
      {r : RingBuffer T} {q : List T} (x : T)
      → IsRing n overwrite r q
      → store r x ≡ some (stored r x)
  unfolding store
  store_lem {r} x v = rw (in_array v) refl

  pub store-skip_oldest :
      {r : RingBuffer T} {q : List T} (x : T)
      → IsRing n overwrite r q
      → store (skip_oldest r) x ≡ some (stored (skip_oldest r) x)
  unfolding store
  store-skip_oldest {r} x v = rw (in_array v) refl

  pub write_one_lem :
      {r : RingBuffer T} {q : List T} (x : T)
      → IsRing n overwrite r q
      → write_one r x ≡ (
          if length q == n - 1
          then (if overwrite then some (1, stored (skip_oldest r) x) else some (0, r))
          else some (1, stored r x))
  unfolding write_one
  write_one_lem {r} x v =
      rw (store_lem x v, store-skip_oldest x v)
        (λ i.
          if is_full-IsRing v i
          then (if v.policy i then some (1, stored (skip_oldest r) x) else some (0, r))
          else some (1, stored r x))

  -- A write of one element returns what the bounded queue's `push` returns, inside the array, and
  -- leaves the ring holding the queue that `push` makes: appended, refused, or with the oldest
  -- element dropped.
  pub write_one_refines :
      {r : RingBuffer T} (q : List T) (x : T)
      → IsRing n overwrite r q
      → let (count, q') = Queue.push (n - 1) overwrite q x in
        (r' : RingBuffer T) × (write_one r x ≡ some (count, r')) × IsRing n overwrite r' q'
  unfolding Queue.push
  write_one_refines {r} q x v = elim (Bool-cases (length q == n - 1)) [
    | inl full ↦ elim (Bool-cases overwrite) [
      | inl over ↦
          rw (write_one_lem x v, full, over)
            (
              stored (skip_oldest r) x,
              refl,
              rw over at (stored-skip_oldest q x v (eq_of_== _ _ full)),
            )
      | inr refuse ↦ rw (write_one_lem x v, full, refuse) (r, refl, rw refuse at v)
    ]
    | inr room ↦
        rw (write_one_lem x v, room) (stored r x, refl, stored-IsRing x v (ground (arith, v.room)))
  ]

  pub read_one_empty :
      {r : RingBuffer T} (old : T) → IsRing n overwrite r [] → read_one r old ≡ some (0, old, r)
  unfolding read_one
  read_one_empty {r} old v = ground (arith, v.write_at, v.read_range)

  pub first_cell :
      {r : RingBuffer T} {q : List T} {y : T}
      → IsRing n overwrite r (y ∷ q)
      → get_elem? r.buffer (bit_and r.read_index r.size_mask) ≡ some y
  first_cell {r} v = rw (v.mask, mask_lem v.size r.read_index) (v.cells.0)

  pub not_empty :
      {r : RingBuffer T} {q : List T} {y : T}
      → IsRing n overwrite r (y ∷ q)
      → (r.read_index == r.write_index) ≡ false
  not_empty v = ground (arith, v.write_at, v.read_range, v.room, size_bound v.size)

  -- A read of one element returns what the queue's `pop` returns, inside the array, and leaves
  -- the ring holding the rest.
  pub read_one_refines :
      {r : RingBuffer T} (q : List T) (old : T)
      → IsRing n overwrite r q
      → let (count, out, q') = Queue.pop q old in
        (r' : RingBuffer T) × (read_one r old ≡ some (count, out, r')) × IsRing n overwrite r' q'
  unfolding read_one Queue.pop
  read_one_refines {r} [] old v = (r, read_one_empty old v, v)
  read_one_refines {r} (y ∷ q) old v =
      (skip_oldest r, rw (not_empty v, first_cell v), skip_oldest-IsRing v)

  -- `PeekAt` finds the element that stands `i` places behind the oldest, inside the array, and
  -- fails exactly from the number of elements on.
  pub peek_at_refines :
      {r : RingBuffer T} {q : List T} (old : T) (i : ℕ)
      → IsRing n overwrite r q
      → peek_at r old i
        ≡ (if leb (length q) i then some (0, old) else Option.map (λ x. (1, x)) (get_elem? q i))
  unfolding peek_at
  peek_at_refines {r} {q} old i v =
      rw (get_occupied_size-IsRing v) (elim (Bool-cases (leb (length q) i)) [
        | inl past ↦ rw past
        | inr held ↦ rw (
          held,
          v.mask,
          mask_lem v.size (u64 (r.read_index + i)),
          u64-mod v.size (r.read_index + i),
          Holds-get_elem? n r.buffer q r.read_index i v.cells (ground arith),
        )
      ])
