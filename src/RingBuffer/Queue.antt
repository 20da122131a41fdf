-- ===== src/RingBuffer/Queue.antt =====
-- What a ring buffer promises: a FIFO of at most `cap` elements, oldest first, that when full
-- either refuses a new element or makes room by dropping the oldest.
use xm_sigma.Common.{ℕ, ◌-◌, Bool, List, [], ◌∷◌, ◌++◌}
use xm_sigma.Common.{length, drop, ◌==◌, if◌then◌else◌}

module _ {ℓ} {T : Type ℓ} where
  unfoldable pub push : ℕ → Bool → List T → T → ℕ × List T
  push cap overwrite q x =
      if length q == cap
      then (if overwrite then (1, drop 1 (q ++ (x ∷ []))) else (0, q))
      else (1, q ++ (x ∷ []))

  -- the newest `cap` of the elements of `q`
  abbrev pub newest : ℕ → List T → List T
  newest cap q = drop (length q - cap) q

  unfoldable pub pop : List T → T → ℕ × T × List T
  pop [] old = (0, old, [])
  pop (x ∷ q) old = (1, x, q)
