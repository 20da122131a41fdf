-- ===== src/Logging/RtLogger/RoundUp.antt =====
-- The constructor's rounding of the wanted capacity up to a power of two.
use native.Mathlib.Nat.{pow-suc, pow-le-pow_right}
use xm_sigma.Common.{ℕ, zero, suc, ◌+◌, ◌*◌, ◌^◌, ◌≤◌, ◌<◌, ◌≡◌, refl, subst, arith, u64, ltb}
use xm_sigma.Common.{none, some, true, false, dec_lt}
use xm_sigma.Common.Indices.{IsSize}
use xm_sigma.Logging.RtLogger.{round_up}

-- The least power of two, from 2 ^ k on, that is not below `wanted`.
pub record RoundsTo (wanted fuel k : ℕ) : Type 0 where
  pub exponent : ℕ
  pub small : exponent ≤ 63
  pub reached : round_up fuel wanted (2 ^ k) ≡ some (2 ^ exponent)
  pub enough : wanted ≤ 2 ^ exponent
  pub least : (i : ℕ) → k ≤ i → i < exponent → 2 ^ i < wanted

doubled : (k : ℕ) → k < 63 → u64 (2 ^ k * 2) ≡ 2 ^ suc k
doubled k h =
    omega (
      arith,
      pow-suc 2 k,
      pow-le-pow_right {n = 2} (omega arith) {i = suc k} {j = 63} (omega arith),
    )

rounds_on :
    {fuel wanted k : ℕ}
    → 2 ^ k < wanted
    → k < 63
    → RoundsTo wanted fuel (suc k)
    → RoundsTo wanted (suc fuel) k
unfolding round_up
rounds_on {fuel = fuel} {wanted = wanted} {k = k} below hk more = record {
  exponent = more.exponent;
  small = more.small;
  reached = rw (test, doubled k hk) more.reached;
  enough = more.enough;
  least = λ i lo hi. elim (dec_lt k i) [
    | yes p ↦ more.least i p hi
    | no p ↦ subst (λ j. 2 ^ j < wanted) {x = k} (omega arith) below
  ];
}
  where
    test : ltb (2 ^ k) wanted ≡ true
    test = ground arith

rounds_from :
    (fuel wanted k : ℕ) → wanted ≤ 2 ^ 63 → k ≤ 63 → 64 ≤ k + fuel → RoundsTo wanted fuel k
unfolding round_up
rounds_from zero wanted k small hk h = absurd (omega arith)
rounds_from (suc fuel) wanted k small hk h = elim (dec_lt (2 ^ k) wanted) [
  | yes below ↦
      let lt : k < 63 = strict k wanted small hk below in
      rounds_on below lt (rounds_from fuel wanted (suc k) small lt (omega arith))
  | no enough ↦ record {
    exponent = k;
    small = hk;
    reached = rw (test enough) refl;
    enough = omega arith;
    least = λ i lo hi. absurd (omega arith);
  }
]
  where
    strict : (k wanted : ℕ) → wanted ≤ 2 ^ 63 → k ≤ 63 → 2 ^ k < wanted → k < 63
    strict k wanted small hk below = elim (dec_lt k 63) [
      | yes lt ↦ lt
      | no ge ↦ omega (arith, pow-le-pow_right {n = 2} (omega arith) {i = 63} {j = k} (omega arith))
    ]

    test : ((2 ^ k < wanted) → ⊥) → ltb (2 ^ k) wanted ≡ false
    test enough = ground arith

-- For a wanted capacity of at most 2 ^ 63 the loop ends within 64 rounds, with the least power of
-- two that is not below it, which is a size that the indices' mask works with.
pub round_up_least :
    (wanted : ℕ)
    → wanted ≤ 2 ^ 63
    → (cap : ℕ) × (round_up 64 wanted 1 ≡ some cap)
      × IsSize cap
      × (wanted ≤ cap)
      × ((i : ℕ) → 2 ^ i < cap → 2 ^ i < wanted)
round_up_least wanted small =
    let r = rounds_from 64 wanted 0 small (omega arith) (omega arith) in
    (
      2 ^ r.exponent,
      r.reached,
      record { k = r.exponent; small = r.small; pow = refl },
      r.enough,
      λ i lt. r.least i (omega arith) (exponent_lt i r.exponent lt),
    )
  where
    exponent_lt : (i j : ℕ) → 2 ^ i < 2 ^ j → i < j
    exponent_lt i j h = elim (dec_lt i j) [
      | yes lt ↦ lt
      | no ge ↦
          absurd
            (omega (arith, pow-le-pow_right {n = 2} (omega arith) {i = j} {j = i} (omega arith)))
    ]

-- From zero, which a shift out of the top leaves, the loop never ends.
from_zero : (fuel wanted : ℕ) → 0 < wanted → round_up fuel wanted 0 ≡ none
unfolding round_up
from_zero zero wanted h = refl
from_zero (suc fuel) wanted h = rw (test, from_zero fuel wanted h) refl
  where
    test : ltb 0 wanted ≡ true
    test = ground arith

stuck_from : (fuel wanted k : ℕ) → 2 ^ 63 < wanted → k ≤ 63 → round_up fuel wanted (2 ^ k) ≡ none
unfolding round_up
stuck_from zero wanted k big hk = refl
stuck_from (suc fuel) wanted k big hk = rw test (elim (dec_lt k 63) [
  | yes lt ↦ rw (doubled k lt) (stuck_from fuel wanted (suc k) big lt)
  | no ge ↦ rw (out ge) (from_zero fuel wanted (omega arith))
])
  where
    test : ltb (2 ^ k) wanted ≡ true
    test = ground (arith, pow-le-pow_right {n = 2} (omega arith) {i = k} {j = 63} hk)

    out : ((k < 63) → ⊥) → u64 (2 ^ k * 2) ≡ 0
    out ge = rw (last ge) refl
      where
        last : ((k < 63) → ⊥) → k ≡ 63
        last ge = omega arith

-- For a wanted capacity above 2 ^ 63 the loop never ends: no number of rounds gives a capacity.
pub round_up_stuck : (wanted fuel : ℕ) → 2 ^ 63 < wanted → round_up fuel wanted 1 ≡ none
round_up_stuck wanted fuel big = stuck_from fuel wanted 0 big (omega arith)
