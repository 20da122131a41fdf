-- ===== src/Common/Bits.antt =====
-- The bit operators at variables: one equation for the lowest digit of each, and the laws of `^`.
use Prim.Native.Nat.{ℕ, zero, suc, ◌+◌, ◌*◌, ◌/◌, ◌%◌, ◌^◌, ◌≤◌, ◌<◌, min, max, differ}
use Prim.Native.Nat.{bit_and, bit_or, bit_xor, digits}
use Prim.Native.Nat.{bit_and-bitwise, bit_or-bitwise, bit_xor-bitwise}
use mathlib.Core.Path.{◌≡◌, refl, ◌∙◌, ap}
use native.Mathlib.Nat.{pow-suc}
use native.Mathlib.Omega.{arith}

-- `digits` spends one unit of fuel on a digit, so all fuels from `a` on give the same number.
module _ (rest : ℕ → ℕ) (digit : ℕ → ℕ → ℕ) where
  same_digits : (p q a b : ℕ) → a ≤ p → a ≤ q → digits rest digit p a b ≡ digits rest digit q a b
  same_digits zero zero a b hp hq = refl
  same_digits zero (suc q) zero b hp hq = refl
  same_digits (suc p) zero zero b hp hq = refl
  same_digits (suc p) (suc q) zero b hp hq = refl
  same_digits zero (suc q) (suc a) b hp hq = absurd (omega arith)
  same_digits (suc p) zero (suc a) b hp hq = absurd (omega arith)
  same_digits (suc p) (suc q) (suc a) b hp hq =
      rw (same_digits p q (suc a / 2) (b / 2) (omega arith) (omega arith))

  low_digit :
      (a b : ℕ)
      → digits rest digit (suc a) (suc a) b
        ≡ digits rest digit (suc a / 2) (suc a / 2) (b / 2) * 2 + digit (suc a % 2) (b % 2)
  low_digit a b = rw (same_digits a (suc a / 2) (suc a / 2) (b / 2) (omega arith) (omega arith))

pub bit_and_step : (a b : ℕ) → bit_and a b ≡ bit_and (a / 2) (b / 2) * 2 + min (a % 2) (b % 2)
bit_and_step zero b = rw (bit_and-bitwise 0 b, bit_and-bitwise 0 (b / 2)) (omega arith)
bit_and_step (suc a) b =
    rw (bit_and-bitwise (suc a) b, bit_and-bitwise (suc a / 2) (b / 2)) (low_digit _ min a b)

pub bit_or_step : (a b : ℕ) → bit_or a b ≡ bit_or (a / 2) (b / 2) * 2 + max (a % 2) (b % 2)
bit_or_step zero b = rw (bit_or-bitwise 0 b, bit_or-bitwise 0 (b / 2)) (omega arith)
bit_or_step (suc a) b =
    rw (bit_or-bitwise (suc a) b, bit_or-bitwise (suc a / 2) (b / 2)) (low_digit _ max a b)

differ_lem : (x y : ℕ) → x < 2 → y < 2 → differ x y ≡ (x + y) % 2
differ_lem zero y hx hy = omega arith
differ_lem (suc x) zero hx hy = omega arith
differ_lem (suc zero) (suc zero) hx hy = refl
differ_lem (suc zero) (suc (suc y)) hx hy = absurd (omega arith)
differ_lem (suc (suc x)) (suc y) hx hy = absurd (omega arith)

pub bit_xor_step : (a b : ℕ) → bit_xor a b ≡ bit_xor (a / 2) (b / 2) * 2 + (a + b) % 2
bit_xor_step zero b = rw (bit_xor-bitwise 0 b, bit_xor-bitwise 0 (b / 2)) (omega arith)
bit_xor_step (suc a) b =
    rw (bit_xor-bitwise (suc a) b, bit_xor-bitwise (suc a / 2) (b / 2))
      (low_digit _ differ a b
        ∙ omega (arith, differ_lem (suc a % 2) (b % 2) (omega arith) (omega arith)))

pub half-xor : (a b : ℕ) → bit_xor a b / 2 ≡ bit_xor (a / 2) (b / 2)
half-xor a b = omega (arith, bit_xor_step a b)

pub parity-xor : (a b : ℕ) → bit_xor a b % 2 ≡ (a + b) % 2
parity-xor a b = omega (arith, bit_xor_step a b)

-- The laws of `^` go by induction on a bound `n` of their arguments.
comm_below : (n a b : ℕ) → a + b ≤ n → bit_xor a b ≡ bit_xor b a
comm_below n zero zero h = refl
comm_below zero a b h = absurd (omega arith)
comm_below (suc n) a b h =
    omega (arith, bit_xor_step a b, bit_xor_step b a, comm_below n (a / 2) (b / 2) (omega arith))

pub xor_comm : (a b : ℕ) → bit_xor a b ≡ bit_xor b a
xor_comm a b = comm_below (a + b) a b (omega arith)

assoc_digit :
    (a b c : ℕ)
    → bit_xor (bit_xor (a / 2) (b / 2)) (c / 2) ≡ bit_xor (a / 2) (bit_xor (b / 2) (c / 2))
    → bit_xor (bit_xor a b) c ≡ bit_xor a (bit_xor b c)
assoc_digit a b c h =
    rw (bit_xor_step (bit_xor a b) c, bit_xor_step a (bit_xor b c), half-xor a b, half-xor b c, h)
      (omega (arith, parity-xor a b, parity-xor b c))

assoc_below : (n a b c : ℕ) → a + b + c ≤ n → bit_xor (bit_xor a b) c ≡ bit_xor a (bit_xor b c)
assoc_below n zero zero zero h = refl
assoc_below zero a b c h = absurd (omega arith)
assoc_below (suc n) a b c h =
    assoc_digit a b c (assoc_below n (a / 2) (b / 2) (c / 2) (omega arith))

pub xor_assoc : (a b c : ℕ) → bit_xor (bit_xor a b) c ≡ bit_xor a (bit_xor b c)
xor_assoc a b c = assoc_below (a + b + c) a b c (omega arith)

self_below : (n a : ℕ) → a ≤ n → bit_xor a a ≡ 0
self_below n zero h = refl
self_below zero a h = absurd (omega arith)
self_below (suc n) a h = omega (arith, bit_xor_step a a, self_below n (a / 2) (omega arith))

pub xor_self : (a : ℕ) → bit_xor a a ≡ 0
xor_self a = self_below a a (omega arith)

zero_below : (n a : ℕ) → a ≤ n → bit_xor a 0 ≡ a
zero_below n zero h = refl
zero_below zero a h = absurd (omega arith)
zero_below (suc n) a h = omega (arith, bit_xor_step a 0, zero_below n (a / 2) (omega arith))

pub xor-zero : (a : ℕ) → bit_xor a 0 ≡ a
xor-zero a = zero_below a a (omega arith)

-- `x ^= b` twice gives `x` back.
pub xor_cancel : (a b : ℕ) → bit_xor (bit_xor a b) b ≡ a
xor_cancel a b = rw (xor_assoc a b b, xor_self b, xor-zero a)

pub bit_xor-lt : (k a b : ℕ) → a < 2 ^ k → b < 2 ^ k → bit_xor a b < 2 ^ k
bit_xor-lt zero a b ha hb = rw (lem a ha, lem b hb) (omega arith)
  where
    lem : (x : ℕ) → x < 1 → x ≡ 0
    lem x h = omega arith
bit_xor-lt (suc k) a b ha hb = omega (
  arith,
  pow-suc 2 k,
  bit_xor_step a b,
  bit_xor-lt k (a / 2) (b / 2) (omega (arith, pow-suc 2 k)) (omega (arith, pow-suc 2 k)),
)

-- Fields that do not overlap add up.
pub xor_fields : (k hi lo : ℕ) → lo < 2 ^ k → bit_xor (hi * 2 ^ k) lo ≡ hi * 2 ^ k + lo
xor_fields zero hi lo h = rw (zero_of_lt lo h, xor-zero (hi * 1)) (omega arith)
  where
    zero_of_lt : (x : ℕ) → x < 1 → x ≡ 0
    zero_of_lt x p = omega arith
xor_fields (suc k) hi lo h =
    rw
      (
        bit_xor_step (hi * 2 ^ suc k) lo,
        half,
        xor_fields k hi (lo / 2) (omega (arith, pow-suc 2 k)),
      )
      (omega (arith, double))
  where
    double : hi * 2 ^ suc k ≡ 2 * (hi * 2 ^ k)
    double = omega (arith, ap (λ (t : ℕ). hi * t) (pow-suc 2 k))

    half : hi * 2 ^ suc k / 2 ≡ hi * 2 ^ k
    half = omega (arith, double)

-- `^` with the high field takes it away.
pub xor_clear_high : (k hi lo : ℕ) → lo < 2 ^ k → bit_xor (hi * 2 ^ k + lo) (hi * 2 ^ k) ≡ lo
xor_clear_high k hi lo h =
    rw (← xor_fields k hi lo h, xor_comm (hi * 2 ^ k) lo) (xor_cancel lo (hi * 2 ^ k))
