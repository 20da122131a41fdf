-- ===== src/RingBuffer/Inv.antt =====
-- When a `RingBuffer` holds a queue: which cells hold it, and where the indices stand.
use xm_sigma.Common.{ℕ, ◌+◌, ◌-◌, ◌^◌, ◌<◌, ◌≡◌, Bool, List, length, u64}
use xm_sigma.Common.Indices.{IsSize}
use xm_sigma.Common.Cells.{Holds}
use xm_sigma.RingBuffer.{RingBuffer}

module _ {ℓ} {T : Type ℓ} where
  -- `r` holds the queue `q`, oldest first, in an array of `n` cells. One cell stays empty.
  -- `overwrite` is the policy that the constructor was given.
  pub record IsRing (n : ℕ) (overwrite : Bool) (r : RingBuffer T) (q : List T) : Type ℓ where
    pub size : IsSize n
    pub policy : r.enable_overwrite ≡ overwrite
    pub mask : r.size_mask ≡ n - 1
    pub array : length r.buffer ≡ n
    pub read_range : r.read_index < 2 ^ 64
    pub write_at : r.write_index ≡ u64 (r.read_index + length q)
    pub room : length q < n
    pub cells : Holds n r.buffer r.read_index q
