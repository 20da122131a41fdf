-- ===== src/Serialization/Checksum/Undo.antt =====
-- A byte and the state before it determine, and are determined by, the state after it.
use xm_sigma.Common.{ℕ, zero, suc, ◌+◌, ◌*◌, ◌/◌, ◌%◌, ◌^◌, ◌<◌, ◌≡◌, refl, sym, ◌∙◌, ap, arith}
use xm_sigma.Common.{bit_xor, ◌==◌, ltb, if◌then◌else◌, true}
use xm_sigma.Common.{passes, passes_below, eq_of_==, shl, u16}
use xm_sigma.Common.Bits.{xor_cancel, xor_comm, bit_xor-lt}
use xm_sigma.Serialization.Checksum.{repeat, crc8_step, crc8_byte}
use xm_sigma.Serialization.Checksum.{crc16_step, crc16_byte, sum_byte}
use xm_sigma.Serialization.Checksum.Loop.{IsByte}

-- One step of a CRC can be undone, so two states that differ never meet.
crc8_unstep : ℕ → ℕ
crc8_unstep y = if ltb y 0x80 then y * 2 else bit_xor y 0x8c * 2 + 1

crc8_table : passes (λ x. crc8_unstep (crc8_step x) == x) 256 ≡ true
unfolding passes crc8_unstep crc8_step
crc8_table = refl

crc16_unstep : ℕ → ℕ
crc16_unstep y = if y % 2 == 0 then y / 2 else bit_xor y 0x1021 / 2 + 0x8000

crc16_table : passes (λ x. crc16_unstep (crc16_step x) == x) 65536 ≡ true
unfolding passes crc16_unstep crc16_step
crc16_table = refl

crc8_unstep-step : (x : ℕ) → x < 256 → crc8_unstep (crc8_step x) ≡ x
crc8_unstep-step x h = eq_of_== _ _ (passes_below _ 256 crc8_table x h)

crc16_unstep-step : (x : ℕ) → x < 65536 → crc16_unstep (crc16_step x) ≡ x
crc16_unstep-step x h = eq_of_== _ _ (passes_below _ 65536 crc16_table x h)

pub crc8_step-lt : (x : ℕ) → crc8_step x < 256
unfolding crc8_step
crc8_step-lt x = ground arith

pub crc16_step-lt : (x : ℕ) → crc16_step x < 65536
unfolding crc16_step
crc16_step-lt x = ground arith

-- Rounds of a step that can be undone below `bound` can be undone.
module _ (step unstep : ℕ → ℕ) (bound : ℕ) (closed : (x : ℕ) → step x < bound)
    (undo : (x : ℕ) → x < bound → unstep (step x) ≡ x) where
  repeat-lt : (n x : ℕ) → x < bound → repeat n step x < bound
  unfolding repeat
  repeat-lt zero x h = h
  repeat-lt (suc n) x h = repeat-lt n (step x) (closed x)

  repeat_injective : (n x y : ℕ) → x < bound → y < bound → repeat n step x ≡ repeat n step y → x ≡ y
  unfolding repeat
  repeat_injective zero x y hx hy e = e
  repeat_injective (suc n) x y hx hy e =
      sym (undo x hx)
      ∙ ap unstep (repeat_injective n (step x) (step y) (closed x) (closed y) e)
      ∙ undo y hy

-- A byte operation that keeps states below `bound` and that both of its arguments determine.
pub record IsCrc (f : ℕ → ℕ → ℕ) (bound : ℕ) : Type 0 where
  pub start : 0 < bound
  pub range : (s x : ℕ) → s < bound → IsByte x → f s x < bound
  pub state : (s t x : ℕ) → s < bound → t < bound → IsByte x → f s x ≡ f t x → s ≡ t
  pub byte : (s x y : ℕ) → s < bound → IsByte x → IsByte y → f s x ≡ f s y → x ≡ y

xor_left_injective : (s x y : ℕ) → bit_xor s x ≡ bit_xor s y → x ≡ y
xor_left_injective s x y e =
    sym (xor_cancel x s)
    ∙ ap (λ (t : ℕ). bit_xor t s) (xor_comm x s ∙ e ∙ xor_comm s y)
    ∙ xor_cancel y s

xor_right_injective : (s t x : ℕ) → bit_xor s x ≡ bit_xor t x → s ≡ t
xor_right_injective s t x e = sym (xor_cancel s x) ∙ ap (λ (u : ℕ). bit_xor u x) e ∙ xor_cancel t x

pub crc8_byte-IsCrc : IsCrc crc8_byte 256
unfolding crc8_byte
crc8_byte-IsCrc = record {
  start = omega arith;
  range = λ s x hs hx.
      repeat-lt crc8_step crc8_unstep 256 crc8_step-lt crc8_unstep-step 8 (bit_xor s x)
        (bit_xor-lt 8 s x hs hx);
  state = λ s t x hs ht hx e.
      xor_right_injective s t x
        (injective (bit_xor s x) (bit_xor t x) (bit_xor-lt 8 s x hs hx) (bit_xor-lt 8 t x ht hx) e);
  byte = λ s x y hs hx hy e.
      xor_left_injective s x y
        (injective (bit_xor s x) (bit_xor s y) (bit_xor-lt 8 s x hs hx) (bit_xor-lt 8 s y hs hy) e);
}
  where
    injective : (x y : ℕ) → x < 256 → y < 256 → repeat 8 crc8_step x ≡ repeat 8 crc8_step y → x ≡ y
    injective = repeat_injective crc8_step crc8_unstep 256 crc8_step-lt crc8_unstep-step 8

crc16_input :
    (s x : ℕ) → s < 65536 → IsByte x → u16 (bit_xor s (u16 (shl x 8))) ≡ bit_xor s (x * 2 ^ 8)
crc16_input s x hs hx =
    rw (shifted) (small (bit_xor s (x * 2 ^ 8)) (bit_xor-lt 16 s (x * 2 ^ 8) hs (omega arith)))
  where
    shifted : u16 (shl x 8) ≡ x * 2 ^ 8
    shifted = omega arith

    small : (y : ℕ) → y < 65536 → u16 y ≡ y
    small y h = omega arith

pub crc16_byte_lem :
    (s x : ℕ) → s < 65536 → IsByte x → crc16_byte s x ≡ repeat 8 crc16_step (bit_xor s (x * 2 ^ 8))
unfolding crc16_byte
crc16_byte_lem s x hs hx = ap (repeat 8 crc16_step) (crc16_input s x hs hx)

crc16_injective :
    (x y : ℕ) → x < 65536 → y < 65536 → repeat 8 crc16_step x ≡ repeat 8 crc16_step y → x ≡ y
crc16_injective = repeat_injective crc16_step crc16_unstep 65536 crc16_step-lt crc16_unstep-step 8

high_byte-lt : (x : ℕ) → IsByte x → x * 2 ^ 8 < 65536
high_byte-lt x h = omega arith

pub crc16_byte-IsCrc : IsCrc crc16_byte 65536
crc16_byte-IsCrc = record {
  start = omega arith;
  range = λ s x hs hx. rw (crc16_byte_lem s x hs hx) (
      repeat-lt crc16_step crc16_unstep 65536 crc16_step-lt crc16_unstep-step 8
        (bit_xor s (x * 2 ^ 8)) (bit_xor-lt 16 s (x * 2 ^ 8) hs (high_byte-lt x hx)));
  state = λ s t x hs ht hx e. xor_right_injective s t (x * 2 ^ 8) (
      crc16_injective (bit_xor s (x * 2 ^ 8)) (bit_xor t (x * 2 ^ 8))
        (bit_xor-lt 16 s (x * 2 ^ 8) hs (high_byte-lt x hx))
        (bit_xor-lt 16 t (x * 2 ^ 8) ht (high_byte-lt x hx))
        (sym (crc16_byte_lem s x hs hx) ∙ e ∙ crc16_byte_lem t x ht hx));
  byte = λ s x y hs hx hy e. same_high x y (
      xor_left_injective s (x * 2 ^ 8) (y * 2 ^ 8) (
        crc16_injective (bit_xor s (x * 2 ^ 8)) (bit_xor s (y * 2 ^ 8))
          (bit_xor-lt 16 s (x * 2 ^ 8) hs (high_byte-lt x hx))
          (bit_xor-lt 16 s (y * 2 ^ 8) hs (high_byte-lt y hy))
          (sym (crc16_byte_lem s x hs hx) ∙ e ∙ crc16_byte_lem s y hs hy)));
}
  where
    same_high : (x y : ℕ) → x * 2 ^ 8 ≡ y * 2 ^ 8 → x ≡ y
    same_high x y e = omega arith

pub sum_byte-IsCrc : IsCrc sum_byte 256
unfolding sum_byte
sum_byte-IsCrc = record {
  start = omega arith;
  range = λ s x hs hx. omega arith;
  state = λ s t x hs ht hx e. omega arith;
  byte = λ s x y hs hx hy e. omega arith;
}
