-- ===== src/Types/Tests.antt =====
-- Runs on coordinates that are integers modulo 2 ^ 64, and an instance of each theorem on them.
use xm_sigma.Common.{ℕ, ◌+◌, ◌*◌, ◌≡◌, refl, u64, sub64, ◌==◌, ◌&&◌, not}
use xm_sigma.Common.{Bool, true, List, [], ◌∷◌}
use xm_sigma.Types.Eigen.{Eigen}
use xm_sigma.Types.Quantities.{of_coordinates, equal, not_equal, plus, minus, x, y}
use xm_sigma.Types.Quantities.{scaled, times, Force, zero}
use xm_sigma.Types.Time.{SteadyClock, stamp_all, stamp_now, now}
use xm_sigma.Types.Geometry.{default_pose}

abbrev Triple : Type 0
Triple = ℕ × ℕ × ℕ

abbrev each : (ℕ → ℕ → ℕ) → Triple → Triple → Triple
each f (a, b, c) (a', b', c') = (f a a', f b b', f c c')

abbrev with_scalar : (ℕ → ℕ → ℕ) → Triple → ℕ → Triple
with_scalar f (a, b, c) s = (f a s, f b s, f c s)

abbrev same : Triple → Triple → Bool
same (a, b, c) (a', b', c') = (a == a') && (b == b') && (c == c')

abbrev integers : Eigen
integers = record {
  Scalar = ℕ;
  Vector3d = Triple;
  Quaterniond = ℕ;
  vector = λ a b c. (a, b, c);
  first = λ v. v.0;
  second = λ v. v.1;
  third = λ v. v.2;
  length_of = λ v. u64 (v.0 + v.1 + v.2);
  add = each (λ a b. u64 (a + b));
  sub = each sub64;
  opposite = each sub64 (0, 0, 0);
  mul = with_scalar (λ a s. u64 (a * s));
  div = with_scalar (λ a s. a);
  add_to = each (λ a b. u64 (a + b));
  sub_from = each sub64;
  eq = same;
  ne = λ a b. not (same a b);
  zero_vector = (0, 0, 0);
  identity = 1;
}

-- `a + b`, `2.0 * a` and `a - a` for two forces.
abbrev a : Force integers
a = of_coordinates 1 2 3

abbrev b : Force integers
b = of_coordinates 4 5 6

sum_test : (x (plus a b) ≡ 5) × (y (plus a b) ≡ 7) × (y (scaled 2 a) ≡ 4)
unfolding x y plus scaled times
sum_test = (refl, refl, refl)

difference_test : (equal (minus a a) zero ≡ true) × (not_equal (minus a b) zero ≡ true)
unfolding equal not_equal minus
difference_test = (refl, refl)

default_test : (default_pose integers).orientation ≡ 1
default_test = refl

abbrev clock : SteadyClock
clock = record { reading = λ k. 3 * k + 1; nanoseconds = λ t. 10 * t }

abbrev samples : List ℕ
samples = 7 ∷ 8 ∷ []

stamps_test :
    stamp_all clock samples 0
    ≡ record { stamp = 10; value = 7 } ∷ record { stamp = 40; value = 8 } ∷ []
unfolding stamp_all stamp_now now
stamps_test = refl
