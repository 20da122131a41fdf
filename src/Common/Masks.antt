-- ===== src/Common/Masks.antt =====
-- Masks and packed fields: `&` with a low mask, `&` with one bit, `|` of disjoint fields.
use Prim.Native.Nat.{ℕ, zero, suc, ◌+◌, ◌-◌, ◌*◌, ◌/◌, ◌%◌, ◌^◌, ◌≤◌, ◌<◌}
use Prim.Native.Nat.{bit_and, bit_or}
use mathlib.Core.Path.{◌≡◌, refl, ap, ◌∙◌}
use native.Mathlib.Nat.{pow-suc, one-le-pow, mod-lt, mod-eq_of_lt, div-add-mod}
use native.Mathlib.Nat.{mul-add-mod_self_left, div-div-eq-div-mul}
use native.Mathlib.Omega.{arith}
use xm_sigma.Common.Bits.{bit_and_step, bit_or_step}

and-zero_below : (n a : ℕ) → a ≤ n → bit_and a 0 ≡ 0
and-zero_below n zero h = refl
and-zero_below zero a h = absurd (omega arith)
and-zero_below (suc n) a h = omega (arith, bit_and_step a 0, and-zero_below n (a / 2) (omega arith))

pub and-zero : (a : ℕ) → bit_and a 0 ≡ 0
and-zero a = and-zero_below a a (omega arith)

or-zero_below : (n a : ℕ) → a ≤ n → bit_or a 0 ≡ a
or-zero_below n zero h = refl
or-zero_below zero a h = absurd (omega arith)
or-zero_below (suc n) a h = omega (arith, bit_or_step a 0, or-zero_below n (a / 2) (omega arith))

-- The remainder by twice `m`: the lowest digit, and the remainder of the rest by `m`.
mod_double : (m a : ℕ) → 0 < m → a % (2 * m) ≡ a / 2 % m * 2 + a % 2
mod_double m a h =
    ap (λ (t : ℕ). t % (2 * m)) split
    ∙ mul-add-mod_self_left (2 * m) (a / 2 / m) (a / 2 % m * 2 + a % 2)
    ∙ mod-eq_of_lt (omega (arith, mod-lt (a / 2) h))
  where
    split : a ≡ 2 * m * (a / 2 / m) + (a / 2 % m * 2 + a % 2)
    split = omega (arith, div-add-mod (a / 2) m)

-- `x & (2^k - 1)` is `x mod 2^k`.
pub and_mask : (k a : ℕ) → bit_and a (2 ^ k - 1) ≡ a % 2 ^ k
and_mask zero a = rw (and-zero a) (omega arith)
and_mask (suc k) a =
    rw
      (
        bit_and_step a (2 ^ suc k - 1),
        mask_half,
        and_mask k (a / 2),
        two_pow,
        mod_double (2 ^ k) a pos,
      )
      (omega (arith, pos))
  where
    pos : 0 < 2 ^ k
    pos = one-le-pow k 2 (omega arith)

    two_pow : 2 ^ suc k ≡ 2 * 2 ^ k
    two_pow = omega (arith, pow-suc 2 k)

    mask_half : (2 ^ suc k - 1) / 2 ≡ 2 ^ k - 1
    mask_half = omega (arith, pow-suc 2 k, pos)

-- `x & (1 << k)` keeps bit k in its place.
pub and_bit : (k a : ℕ) → bit_and a (2 ^ k) ≡ a / 2 ^ k % 2 * 2 ^ k
and_bit zero a = rw (bit_and_step a 1, and-zero (a / 2)) (omega arith)
and_bit (suc k) a =
    rw
      (
        bit_and_step a (2 ^ suc k),
        half,
        and_bit k (a / 2),
        two_pow,
        ← div-div-eq-div-mul a 2 (2 ^ k),
      )
      (omega arith)
  where
    two_pow : 2 ^ suc k ≡ 2 * 2 ^ k
    two_pow = omega (arith, pow-suc 2 k)

    half : 2 ^ suc k / 2 ≡ 2 ^ k
    half = omega (arith, pow-suc 2 k)

-- `(hi << k) | lo` is a sum where `lo` has at most k bits.
pub or_fields : (k hi lo : ℕ) → lo < 2 ^ k → bit_or (hi * 2 ^ k) lo ≡ hi * 2 ^ k + lo
or_fields zero hi lo h =
    rw (zero_of_lt lo h, or-zero_below (hi * 1) (hi * 1) (omega arith)) (omega arith)
  where
    zero_of_lt : (x : ℕ) → x < 1 → x ≡ 0
    zero_of_lt x p = omega arith
or_fields (suc k) hi lo h =
    rw (bit_or_step (hi * 2 ^ suc k) lo, half, or_fields k hi (lo / 2) (omega (arith, pow-suc 2 k)))
      (omega (arith, double))
  where
    double : hi * 2 ^ suc k ≡ 2 * (hi * 2 ^ k)
    double = omega (arith, ap (λ (t : ℕ). hi * t) (pow-suc 2 k))

    half : hi * 2 ^ suc k / 2 ≡ hi * 2 ^ k
    half = omega (arith, double)
