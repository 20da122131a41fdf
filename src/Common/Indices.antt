-- ===== src/Common/Indices.antt =====
-- Free-running 64-bit indices into an array whose size is a power of two: `i & (n - 1)` is
-- `i mod n`, also after the index has wrapped around.
use native.Mathlib.Nat.{one-le-pow, pow-le-pow_right, pow-suc, mod-mod_of_dvd, mod-lt}
use native.Mathlib.Nat.{mod-eq_of_lt, mod-eq-sub-mod, mod-add-mod, dvd_refl, dvd-mul_right_of_dvd}
use native.Mathlib.Nat.{add-mod_right}
use Prim.Native.Nat.{◌∣◌}
use xm_sigma.Common.{ℕ, zero, suc, ◌+◌, ◌-◌, ◌%◌, ◌^◌, ◌≤◌, ◌<◌, ◌≡◌, ◌≢◌, arith, u64, sub64}
use xm_sigma.Common.{bit_and, dec_lt, ap}
use xm_sigma.Common.Masks.{and_mask}

-- A power of two that a `std::size_t` can hold.
pub record IsSize (n : ℕ) : Type 0 where
  pub k : ℕ
  pub small : k ≤ 63
  pub pow : n ≡ 2 ^ k

two_pow-dvd : (k gap : ℕ) → 2 ^ k ∣ 2 ^ (gap + k)
two_pow-dvd k zero = rw (zero_add k) (dvd_refl (2 ^ k))
  where
    zero_add : (x : ℕ) → 0 + x ≡ x
    zero_add x = omega arith
two_pow-dvd k (suc gap) =
    rw (suc_add gap k, pow-suc 2 (gap + k)) (dvd-mul_right_of_dvd (2 ^ k) (two_pow-dvd k gap) 2)
  where
    suc_add : (x y : ℕ) → suc x + y ≡ suc (x + y)
    suc_add x y = omega arith

module _ {n : ℕ} (size : IsSize n) where
  pub size_pos : 0 < n
  size_pos = rw size.pow (one-le-pow size.k 2 (omega arith))

  pub size_bound : n ≤ 2 ^ 63
  size_bound = rw size.pow (pow-le-pow_right (omega arith) size.small)

  pub size-dvd : n ∣ 2 ^ 64
  size-dvd = rw (size.pow, whole) (two_pow-dvd size.k (64 - size.k))
    where
      whole : 2 ^ 64 ≡ 2 ^ (64 - size.k + size.k)
      whole = ap (λ (t : ℕ). 2 ^ t) {x = 64} (omega (arith, size.small))

  pub mask_lem : (i : ℕ) → bit_and i (n - 1) ≡ i % n
  mask_lem i = rw size.pow (and_mask size.k i)

  pub u64-mod : (i : ℕ) → u64 i % n ≡ i % n
  u64-mod i = mod-mod_of_dvd n i size-dvd

  -- The cell of an index is inside the array.
  pub index_in_range : (i : ℕ) → i % n < n
  index_in_range i = mod-lt i size_pos

  -- Fewer than `n` steps on, another cell; `n` steps on, the same cell.
  pub index_ne : (i d : ℕ) → 0 < d → d < n → (i + d) % n ≢ i % n
  index_ne i d hd hn = rw (← mod-add-mod i n d) (elim (dec_lt (i % n + d) n) [
    | yes p ↦ omega (arith, mod-eq_of_lt p)
    | no p ↦ omega (
      arith,
      index_in_range i,
      mod-eq-sub-mod {n = i % n + d} {m = n} (omega arith),
      mod-eq_of_lt {n = i % n + d - n} {m = n} (omega (arith, index_in_range i)),
    )
  ])

  pub index_again : (i : ℕ) → (i + n) % n ≡ i % n
  index_again i = add-mod_right i n

-- The difference of two free-running indices is the distance between them.
pub sub64-u64 : (i d : ℕ) → i < 2 ^ 64 → d < 2 ^ 64 → sub64 (u64 (i + d)) i ≡ d
sub64-u64 i d hi hd = omega arith
