-- ===== src/Serialization/Checksum/Division.antt =====
-- The CRCs are remainders of the division by their polynomials.
use xm_sigma.Common.{
  ℕ, zero, suc, ◌+◌, ◌*◌, ◌/◌, ◌%◌, ◌^◌, ◌<◌, ◌≡◌, ◌↔◌, refl, sym, ◌∙◌, ap, subst, arith,
}
use xm_sigma.Common.{
  Bool, true, leb, some, List, [], ◌∷◌, ◌++◌, length, map, bit_xor, ◌==◌, eq_of_==,
}
use xm_sigma.Common.{passes, passes_below}
use native.Mathlib.Nat.{pow-suc, mul_assoc}
use xm_sigma.Common.Bits.{xor_fields, bit_xor-lt}
use xm_sigma.Serialization.Checksum.{
  repeat, crc8_step, crc8_byte, crc8_maxim, crc16_step, crc16_byte, crc16_xmodem,
}
use xm_sigma.Serialization.Checksum.Loop.{fold, IsByte, AllBytes}
use xm_sigma.Serialization.Checksum.Undo.{
  crc8_byte-IsCrc, crc16_byte-IsCrc, crc16_byte_lem, crc8_step-lt, crc16_step-lt,
}
use xm_sigma.Serialization.Checksum.Detect.{
  fold-lt, crc8_maxim_lem, crc16_xmodem_lem, some_injective,
}
use xm_sigma.Serialization.Checksum.Polynomial.{
  scaled, multiple, IsSum, IsRemainder, divide_step, divide_more, remainder_unique,
}

-- x^16 + x^12 + x^5 + 1, and x^8 + x^5 + x^4 + 1
abbrev pub xmodem : ℕ
xmodem = 0x11021

abbrev pub maxim : ℕ
maxim = 0x131

-- The bits of a byte in the other order.
unfoldable pub reflected : ℕ → ℕ
reflected x =
    x % 2 * 128
    + x / 2 % 2 * 64
    + x / 4 % 2 * 32
    + x / 8 % 2 * 16
    + x / 16 % 2 * 8
    + x / 32 % 2 * 4
    + x / 64 % 2 * 2
    + x / 128 % 2

-- The polynomial of a message, the first byte with the highest coefficients.
abbrev pub next_byte : ℕ → ℕ → ℕ
next_byte m x = m * 2 ^ 8 + x

unfoldable pub message : List ℕ → ℕ
unfolding fold
message xs = fold next_byte 0 xs

crc16_table :
    passes (λ y. 2 * y == bit_xor (scaled (leb 0x8000 y) xmodem) (crc16_step y)) 65536 ≡ true
unfolding passes crc16_step
crc16_table = refl

crc8_table :
    passes
      (λ y. 2 * reflected y == bit_xor (scaled (y % 2 == 1) maxim) (reflected (crc8_step y)))
      256
    ≡ true
unfolding passes crc8_step reflected
crc8_table = refl

reflected-xor_table :
    passes
      (λ n.
        reflected (bit_xor (n / 256) (n % 256))
        == bit_xor (reflected (n / 256)) (reflected (n % 256)))
      65536
    ≡ true
unfolding passes reflected
reflected-xor_table = refl

reflected_table : passes (λ x. reflected (reflected x) == x) 256 ≡ true
unfolding passes reflected
reflected_table = refl

-- Rounds of a step that divides, seen through `view`.
module _ (g bound : ℕ) (view step : ℕ → ℕ) (top : ℕ → Bool) (closed : (y : ℕ) → step y < bound)
    (divides : (y : ℕ) → y < bound → 2 * view y ≡ bit_xor (scaled (top y) g) (view (step y))) where
  rounds :
      (n y m : ℕ) → y < bound → IsSum g m (view y) → IsSum g (m * 2 ^ n) (view (repeat n step y))
  unfolding repeat
  rounds zero y m h s = subst (λ k. IsSum g k (view y)) {x = m} {y = m * 1} (omega arith) s
  rounds (suc n) y m h s =
      let again =
        rounds n (step y) (2 * m) (closed y)
          (divide_step (top y) (view y) (view (step y)) (divides y h) s) in
      subst (λ k. IsSum g k (view (repeat n step (step y)))) {x = 2 * m * 2 ^ n} {y = m * 2 ^ suc n}
        (ap (λ (k : ℕ). k * 2 ^ n) {x = 2 * m} {y = m * 2} (omega arith)
          ∙ mul_assoc m 2 (2 ^ n)
          ∙ ap (λ (k : ℕ). m * k) (sym (pow-suc' n)))
        again
    where
      pow-suc' : (k : ℕ) → 2 ^ suc k ≡ 2 * 2 ^ k
      pow-suc' k = omega (arith, pow-suc 2 k)

rounds16 :
    (y m : ℕ) → y < 65536 → IsSum xmodem m y → IsSum xmodem (m * 2 ^ 8) (repeat 8 crc16_step y)
rounds16 y m h s =
    rounds xmodem 65536 (λ y. y) crc16_step (λ y. leb 0x8000 y) crc16_step-lt
      (λ y h. eq_of_== _ _ (passes_below _ 65536 crc16_table y h)) 8 y m h s

rounds8 :
    (y m : ℕ)
    → y < 256
    → IsSum maxim m (reflected y)
    → IsSum maxim (m * 2 ^ 8) (reflected (repeat 8 crc8_step y))
rounds8 y m h s =
    rounds maxim 256 reflected crc8_step (λ y. y % 2 == 1) crc8_step-lt
      (λ y h. eq_of_== _ _ (passes_below _ 256 crc8_table y h)) 8 y m h s

reflected-lt : (x : ℕ) → reflected x < 256
unfolding reflected
reflected-lt x = omega arith

reflected-xor :
    (x y : ℕ) → x < 256 → y < 256 → reflected (bit_xor x y) ≡ bit_xor (reflected x) (reflected y)
reflected-xor x y hx hy =
    let high : (x * 256 + y) / 256 ≡ x = omega arith in
    let low : (x * 256 + y) % 256 ≡ y = omega arith in
    let both =
      eq_of_== _ _ (passes_below _ 65536 reflected-xor_table (x * 256 + y) (omega arith)) in
    rw (high, low) at both

pub reflected_twice : (x : ℕ) → x < 256 → reflected (reflected x) ≡ x
reflected_twice x h = eq_of_== _ _ (passes_below _ 256 reflected_table x h)

-- One byte more: the message and the state on either side.
crc16_next :
    (m s x : ℕ)
    → s < 65536
    → IsByte x
    → IsSum xmodem (m * 2 ^ 16) s
    → IsSum xmodem (next_byte m x * 2 ^ 16) (crc16_byte s x)
crc16_next m s x hs hx d =
    let fields : bit_xor (m * 2 ^ 16) (x * 2 ^ 8) ≡ m * 2 ^ 16 + x * 2 ^ 8 =
      xor_fields 16 m (x * 2 ^ 8) (omega arith) in
    let shifted : (m * 2 ^ 16 + x * 2 ^ 8) * 2 ^ 8 ≡ next_byte m x * 2 ^ 16 = omega arith in
    rw (crc16_byte_lem s x hs hx) (
      subst (λ k. IsSum xmodem k (repeat 8 crc16_step (bit_xor s (x * 2 ^ 8)))) shifted
        (rounds16 (bit_xor s (x * 2 ^ 8)) (m * 2 ^ 16 + x * 2 ^ 8)
          (bit_xor-lt 16 s (x * 2 ^ 8) hs (omega arith))
          (subst (λ k. IsSum xmodem k (bit_xor s (x * 2 ^ 8))) fields (divide_more (x * 2 ^ 8) d))))

crc8_byte_lem : (s x : ℕ) → crc8_byte s x ≡ repeat 8 crc8_step (bit_xor s x)
unfolding crc8_byte
crc8_byte_lem s x = refl

crc8_next :
    (m s x : ℕ)
    → s < 256
    → IsByte x
    → IsSum maxim (m * 2 ^ 8) (reflected s)
    → IsSum maxim (next_byte m (reflected x) * 2 ^ 8) (reflected (crc8_byte s x))
crc8_next m s x hs hx d =
    let y = reflected x in
    let fields : bit_xor (m * 2 ^ 8) y ≡ m * 2 ^ 8 + y =
      xor_fields 8 m (reflected x) (reflected-lt x) in
    let more : IsSum maxim (next_byte m y) (reflected (bit_xor s x)) =
      subst (IsSum maxim (next_byte m y)) (sym (reflected-xor s x hs hx))
        (subst (λ k. IsSum maxim k (bit_xor (reflected s) y)) fields (divide_more y d)) in
    rw (crc8_byte_lem s x) (rounds8 (bit_xor s x) (next_byte m y) (bit_xor-lt 8 s x hs hx) more)

crc16_divides :
    (m s : ℕ) (xs : List ℕ)
    → s < 65536
    → AllBytes xs
    → IsSum xmodem (m * 2 ^ 16) s
    → IsSum xmodem (fold next_byte m xs * 2 ^ 16) (fold crc16_byte s xs)
unfolding fold
crc16_divides m s [] hs hx d = d
crc16_divides m s (x ∷ xs) hs hx d =
    crc16_divides (next_byte m x) (crc16_byte s x) xs (crc16_byte-IsCrc.range s x hs hx.0) hx.1
      (crc16_next m s x hs hx.0 d)

crc8_divides :
    (m s : ℕ) (xs : List ℕ)
    → s < 256
    → AllBytes xs
    → IsSum maxim (m * 2 ^ 8) (reflected s)
    → IsSum maxim (fold next_byte m (map reflected xs) * 2 ^ 8) (reflected (fold crc8_byte s xs))
unfolding fold
crc8_divides m s [] hs hx d = d
crc8_divides m s (x ∷ xs) hs hx d =
    crc8_divides (next_byte m (reflected x)) (crc8_byte s x) xs (crc8_byte-IsCrc.range s x hs hx.0)
      hx.1 (crc8_next m s x hs hx.0 d)

empty_divides : (g d : ℕ) → IsSum g (0 * 2 ^ d) 0
unfolding multiple
empty_divides g d = record { quotient = []; sum_is = nothing (2 ^ d) }
  where
    nothing : (k : ℕ) → 0 * k ≡ 0
    nothing k = omega arith

-- The CRC-16 of a message is the remainder that the division of the message, with sixteen zeros
-- behind it, by x^16 + x^12 + x^5 + 1 leaves, and no other number; and the CRC-8 with its bits in
-- the other order is the remainder that the division of the message, the bits of each byte in the
-- other order and eight zeros behind it, by x^8 + x^5 + x^4 + 1 leaves, and no other number.
pub crc_by_division :
    (xs rest : List ℕ) (r t : ℕ)
    → AllBytes xs
    → ((crc16_xmodem (xs ++ rest) (length xs) ≡ some r)
        ↔ IsRemainder 16 xmodem (message xs * 2 ^ 16) r)
      × ((crc8_maxim (xs ++ rest) (length xs) ≡ some (reflected t)) × (t < 2 ^ 8)
          ↔ IsRemainder 8 maxim (message (map reflected xs) * 2 ^ 8) t)
unfolding message reflected
crc_by_division xs rest r t h =
    let c16 = fold crc16_byte 0 xs in
    let c8 = fold crc8_byte 0 xs in
    let lt16 : c16 < 65536 = fold-lt crc16_byte-IsCrc 0 xs (omega arith) h in
    let lt8 : c8 < 256 = fold-lt crc8_byte-IsCrc 0 xs (omega arith) h in
    let sum16 : IsSum xmodem (fold next_byte 0 xs * 2 ^ 16) c16 =
      crc16_divides 0 0 xs (omega arith) h (empty_divides xmodem 16) in
    let sum8 : IsSum maxim (fold next_byte 0 (map reflected xs) * 2 ^ 8) (reflected c8) =
      crc8_divides 0 0 xs (omega arith) h (empty_divides maxim 8) in
    (
      (
        λ e.
            let same : c16 ≡ r = some_injective _ _ (sym (crc16_xmodem_lem xs rest) ∙ e) in
            subst (IsRemainder 16 xmodem (fold next_byte 0 xs * 2 ^ 16)) same (sum16, lt16),
        λ d.
            crc16_xmodem_lem xs rest
            ∙ ap some (
                remainder_unique 16 xmodem (fold next_byte 0 xs * 2 ^ 16) c16 r (omega arith)
                  (omega arith) (sum16, lt16) d),
      ),
      (
        λ e.
            let same : c8 ≡ reflected t = some_injective _ _ (sym (crc8_maxim_lem xs rest) ∙ e.0) in
            subst (IsRemainder 8 maxim (fold next_byte 0 (map reflected xs) * 2 ^ 8))
              (ap reflected same ∙ reflected_twice t e.1) (sum8, reflected-lt c8),
        λ d.
            let same : reflected c8 ≡ t =
              remainder_unique 8 maxim (fold next_byte 0 (map reflected xs) * 2 ^ 8) (reflected c8)
                t (omega arith) (omega arith) (sum8, reflected-lt c8) d in
            (
              crc8_maxim_lem xs rest ∙ ap some (sym (reflected_twice c8 lt8) ∙ ap reflected same),
              d.1,
            ),
      ),
    )
