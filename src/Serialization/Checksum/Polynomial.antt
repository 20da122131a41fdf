-- ===== src/Serialization/Checksum/Polynomial.antt =====
-- Polynomials over the field of two elements, as the reference for the CRCs: a number stands for
-- the polynomial whose coefficients are its binary digits, so that `^` is the sum and doubling is
-- the product with x.
use xm_sigma.Common.{ℕ, suc, ◌*◌, ◌^◌, ◌/◌, ◌≤◌, ◌<◌, ◌≡◌, ◌⊎◌, refl, sym, ◌∙◌, ap, arith}
use xm_sigma.Common.{Bool, true, false, List, [], ◌∷◌, if◌then◌else◌, bit_xor, dec_lt, inl, inr}
use native.Mathlib.Nat.{pow-suc}
use xm_sigma.Common.Bits.{
  bit_xor_step, xor_comm, xor_assoc, xor_self, xor-zero, xor_cancel, bit_xor-lt,
}

-- `b` times `g`.
abbrev pub scaled : Bool → ℕ → ℕ
scaled b g = if b then g else 0

-- The product of `g` with the polynomial that has these coefficients, the lowest first.
unfoldable pub multiple : List Bool → ℕ → ℕ
multiple [] g = 0
multiple (b ∷ q) g = bit_xor (scaled b g) (2 * multiple q g)

-- `m` is a multiple of `g` and `r`.
pub record IsSum (g m r : ℕ) : Type 0 where
  pub quotient : List Bool
  pub sum_is : m ≡ bit_xor (multiple quotient g) r

-- Division with remainder by a polynomial `g` of degree `d`.
abbrev pub IsRemainder : ℕ → ℕ → ℕ → ℕ → Type 0
IsRemainder d g m r = IsSum g m r × (r < 2 ^ d)

pub double-xor : (a b : ℕ) → 2 * bit_xor a b ≡ bit_xor (2 * a) (2 * b)
double-xor a b =
    let half_a : 2 * a / 2 ≡ a = omega arith in
    let half_b : 2 * b / 2 ≡ b = omega arith in
    rw (bit_xor_step (2 * a) (2 * b), half_a, half_b) (omega arith)

xor_exchange : (a b c : ℕ) → bit_xor a (bit_xor b c) ≡ bit_xor (bit_xor b a) c
xor_exchange a b c = sym (xor_assoc a b c) ∙ ap (λ (t : ℕ). bit_xor t c) (xor_comm a b)

xor_interchange :
    (a b c d : ℕ) → bit_xor (bit_xor a b) (bit_xor c d) ≡ bit_xor (bit_xor a c) (bit_xor b d)
xor_interchange a b c d =
    xor_assoc a b (bit_xor c d)
    ∙ ap (λ (t : ℕ). bit_xor a t) (xor_exchange b c d ∙ xor_assoc c b d)
    ∙ sym (xor_assoc a c (bit_xor b d))

-- One step of the long division: `m` and the rest are multiplied by x, and `g` is taken off.
pub divide_step :
    {g m : ℕ} (b : Bool) (r z : ℕ)
    → 2 * r ≡ bit_xor (scaled b g) z
    → IsSum g m r
    → IsSum g (2 * m) z
unfolding multiple
divide_step {g} {m} b r z e s = record {
  quotient = b ∷ s.quotient;
  sum_is =
      ap (λ (t : ℕ). 2 * t) s.sum_is
      ∙ double-xor (multiple s.quotient g) r
      ∙ ap (bit_xor (2 * multiple s.quotient g)) e
      ∙ xor_exchange (2 * multiple s.quotient g) (scaled b g) z;
}

pub divide_more : {g m r : ℕ} (x : ℕ) → IsSum g m r → IsSum g (bit_xor m x) (bit_xor r x)
divide_more {g} {r = r} x s = record {
  quotient = s.quotient;
  sum_is = ap (λ (t : ℕ). bit_xor t x) s.sum_is ∙ xor_assoc (multiple s.quotient g) r x;
}

-- A digit at or above `k` is not touched by a summand below.
xor_high : (k x y : ℕ) → x < 2 ^ k → 2 ^ k ≤ y → 2 ^ k ≤ bit_xor x y
xor_high k x y hx hy = elim (dec_lt (bit_xor x y) (2 ^ k)) [
  | no high ↦ omega arith
  | yes low ↦
      let back : bit_xor (bit_xor x y) x ≡ y =
        ap (λ (t : ℕ). bit_xor t x) (xor_comm x y) ∙ xor_cancel y x in
      absurd (omega (arith, back, bit_xor-lt k (bit_xor x y) x low hx))
]

-- No multiple of `g` but 0 has a lower degree than `g`.
multiple_degree :
    (d g : ℕ) (q : List Bool)
    → 2 ^ d ≤ g
    → g < 2 ^ suc d
    → (multiple q g ≡ 0) ⊎ (2 ^ d ≤ multiple q g)
unfolding multiple
multiple_degree d g [] lo hi = inl refl
multiple_degree d g (b ∷ q) lo hi = by_digit b (multiple_degree d g q lo hi)
  where
    power : 2 ^ suc d ≡ 2 * 2 ^ d
    power = omega (arith, pow-suc 2 d)

    by_digit :
        (b : Bool)
        → (multiple q g ≡ 0) ⊎ (2 ^ d ≤ multiple q g)
        → (bit_xor (scaled b g) (2 * multiple q g) ≡ 0)
          ⊎ (2 ^ d ≤ bit_xor (scaled b g) (2 * multiple q g))
    by_digit true (inl e) = inr (rw (e, xor-zero g) lo)
    by_digit false (inl e) = inl (rw e refl)
    by_digit true (inr high) =
        inr (omega (arith, power, xor_high (suc d) g (2 * multiple q g) hi (omega (arith, power))))
    by_digit false (inr high) =
        inr (omega (arith, xor_comm 0 (2 * multiple q g), xor-zero (2 * multiple q g)))

xor_zero_left : (a : ℕ) → bit_xor 0 a ≡ a
xor_zero_left a = xor_comm 0 a ∙ xor-zero a

differs : Bool → Bool → Bool
differs true true = false
differs true false = true
differs false c = c

scaled-differs : (b c : Bool) (g : ℕ) → scaled (differs b c) g ≡ bit_xor (scaled b g) (scaled c g)
unfolding differs
scaled-differs true true g = sym (xor_self g)
scaled-differs true false g = sym (xor-zero g)
scaled-differs false c g = sym (xor_zero_left (scaled c g))

add_digits : List Bool → List Bool → List Bool
add_digits [] p = p
add_digits (b ∷ q) [] = b ∷ q
add_digits (b ∷ q) (c ∷ p) = differs b c ∷ add_digits q p

multiple-add_digits :
    (g : ℕ) (q p : List Bool) → multiple (add_digits q p) g ≡ bit_xor (multiple q g) (multiple p g)
unfolding multiple add_digits
multiple-add_digits g [] p = sym (xor_zero_left (multiple p g))
multiple-add_digits g (b ∷ q) [] = sym (xor-zero (bit_xor (scaled b g) (2 * multiple q g)))
multiple-add_digits g (b ∷ q) (c ∷ p) =
    rw (scaled-differs b c g, multiple-add_digits g q p, double-xor (multiple q g) (multiple p g))
      (xor_interchange (scaled b g) (scaled c g) (2 * multiple q g) (2 * multiple p g))

-- Division by `g` has one remainder.
pub remainder_unique :
    (d g m r r' : ℕ)
    → 2 ^ d ≤ g
    → g < 2 ^ suc d
    → IsRemainder d g m r
    → IsRemainder d g m r'
    → r ≡ r'
remainder_unique d g m r r' lo hi s t = elim (multiple_degree d g sum lo hi) [
  | inl zero_sum ↦
      sym (xor_cancel r r') ∙ ap (λ (k : ℕ). bit_xor k r') (sym apart ∙ zero_sum) ∙ xor_zero_left r'
  | inr high ↦ absurd (omega (arith, apart, bit_xor-lt d r r' s.1 t.1))
]
  where
    sum : List Bool
    sum = add_digits s.0.quotient t.0.quotient

    taken_off : (q : List Bool) (k : ℕ) → m ≡ bit_xor (multiple q g) k → multiple q g ≡ bit_xor m k
    taken_off q k e = sym (xor_cancel (multiple q g) k) ∙ ap (λ (u : ℕ). bit_xor u k) (sym e)

    apart : multiple sum g ≡ bit_xor r r'
    apart =
        multiple-add_digits g s.0.quotient t.0.quotient
        ∙ rw (taken_off s.0.quotient r s.0.sum_is, taken_off t.0.quotient r' t.0.sum_is) refl
        ∙ xor_interchange m r m r'
        ∙ ap (λ (u : ℕ). bit_xor u (bit_xor r r')) (xor_self m)
        ∙ xor_zero_left (bit_xor r r')
