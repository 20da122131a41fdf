-- ===== src/RingBuffer/Sizes.antt =====
-- The size queries of a ring that holds a queue.
use xm_sigma.Common.{ℕ, ◌+◌, ◌-◌, ◌%◌, ◌≡◌, sym, ◌∙◌, ap, arith}
use xm_sigma.Common.{Bool, ◌==◌, ℕ_discrete}
use xm_sigma.Common.{List, length, u64, sub64, bit_and}
use xm_sigma.Common.Indices.{
  size_pos, size_bound, mask_lem, u64-mod, index_ne, index_again, sub64-u64,
}
use native.Mathlib.Nat.{mod-eq_of_lt, mod-add-mod}
use xm_sigma.RingBuffer.{RingBuffer, is_empty, is_full, get_occupied_size, get_free_size}
use xm_sigma.RingBuffer.Inv.{IsRing}

module _ {ℓ} {T : Type ℓ} {n : ℕ} {overwrite : Bool} {r : RingBuffer T} {q : List T}
    (v : IsRing n overwrite r q) where
  distance : sub64 r.write_index r.read_index ≡ length q
  distance =
      rw v.write_at
        (sub64-u64 r.read_index (length q) v.read_range (omega (arith, size_bound v.size, v.room)))

  -- `GetOccupiedSize` is the number of elements held.
  pub get_occupied_size-IsRing : get_occupied_size r ≡ length q
  unfolding get_occupied_size
  get_occupied_size-IsRing = rw (distance, v.mask, mask_lem v.size (length q)) (mod-eq_of_lt v.room)

  -- `GetFreeSize` is what is left of the `n - 1` usable cells; the subtraction does not wrap.
  pub get_free_size-IsRing : get_free_size n r + length q ≡ n - 1
  unfolding get_free_size
  get_free_size-IsRing =
      rw (distance, v.mask, mask_lem v.size (length q), mod-eq_of_lt v.room)
        (omega (arith, size_bound v.size, v.room))

  -- `IsEmpty` says that nothing is held.
  pub is_empty-IsRing : is_empty r ≡ (length q == 0)
  unfolding is_empty
  is_empty-IsRing = rw v.write_at (ground (arith, size_bound v.size, v.room, v.read_range))

  -- The cell that is `d` past the write index.
  pub write_cell : (d : ℕ) → u64 (r.write_index + d) % n ≡ (r.read_index + (length q + d)) % n
  write_cell d =
      u64-mod v.size (r.write_index + d)
      ∙ ap (λ (t : ℕ). (t + d) % n) v.write_at
      ∙ sym (mod-add-mod (u64 (r.read_index + length q)) n d)
      ∙ ap (λ (t : ℕ). (t + d) % n) (u64-mod v.size (r.read_index + length q))
      ∙ mod-add-mod (r.read_index + length q) n d
      ∙ ap (λ (t : ℕ). t % n) (omega arith)

  -- The cell that the next write goes to.
  pub next_cell : bit_and r.write_index r.size_mask ≡ (r.read_index + length q) % n
  next_cell =
      rw (v.mask, mask_lem v.size r.write_index, v.write_at)
        (u64-mod v.size (r.read_index + length q))

  full_cell : ((r.read_index + (length q + 1)) % n == r.read_index % n) ≡ (length q == n - 1)
  full_cell = elim (ℕ_discrete (length q + 1) n) [
    | yes e ↦
        ground (arith, ap (λ (t : ℕ). (r.read_index + t) % n) e, index_again v.size r.read_index)
    | no ne ↦ ground (
      arith,
      v.room,
      size_pos v.size,
      index_ne v.size r.read_index (length q + 1) (omega arith) (omega (arith, v.room)),
    )
  ]

  -- `IsFull` says that `n - 1` elements are held.
  pub is_full-IsRing : is_full r ≡ (length q == n - 1)
  unfolding is_full
  is_full-IsRing =
      rw
        (
          v.mask,
          mask_lem v.size (u64 (r.write_index + 1)),
          mask_lem v.size r.read_index,
          write_cell 1,
        )
        full_cell
