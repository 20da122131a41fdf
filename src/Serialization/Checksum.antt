-- ===== src/Serialization/Checksum.antt =====
-- serialization/checksum.hpp. `data` is the list of bytes that the pointer gives; an access
-- behind its end, which C++ leaves undefined, is `none`.
pub mod Loop
pub mod Undo
pub mod Detect
pub mod Polynomial
pub mod Division
use xm_sigma.Common.{ℕ, zero, suc, ◌+◌, ◌-◌, ◌^◌, ◌%◌, Option, none, some, List, get_elem?}
use xm_sigma.Common.{bit_and, bit_xor, u8, u16, shl, shr, ◌==◌, if◌then◌else◌}
use mathlib.Core.Option

-- `for (b = 0; b < 8; ++b) crc = step(crc)`, with `n` rounds left
unfoldable pub repeat : ℕ → (ℕ → ℕ) → ℕ → ℕ
repeat zero f x = x
repeat (suc n) f x = repeat n f (f x)

-- `for (i = 0; i < len; ++i) acc = f(acc, data[i])` at `i`, with `left` rounds to go
unfoldable pub scan : ℕ → (ℕ → ℕ → ℕ) → ℕ → List ℕ → ℕ → Option ℕ
scan zero f i input acc = some acc
scan (suc left) f i input acc = elim (get_elem? input i) [
  | none ↦ none
  | some x ↦ scan left f (i + 1) input (f acc x)
]

-- The body of the inner loop of `crc8_maxim`.
unfoldable pub crc8_step : ℕ → ℕ
crc8_step crc = if bit_and crc 0x01 == 0 then u8 (shr crc 1) else u8 (bit_xor (shr crc 1) 0x8c)

unfoldable pub crc8_byte : ℕ → ℕ → ℕ
unfolding repeat crc8_step
crc8_byte crc x = repeat 8 crc8_step (bit_xor crc x)

unfoldable pub crc8_maxim : List ℕ → ℕ → Option ℕ
crc8_maxim input len = scan len crc8_byte 0 input 0x00

-- The body of the inner loop of `crc16_xmodem`.
unfoldable pub crc16_step : ℕ → ℕ
crc16_step crc =
    if bit_and crc 0x8000 == 0 then u16 (shl crc 1) else u16 (bit_xor (shl crc 1) 0x1021)

unfoldable pub crc16_byte : ℕ → ℕ → ℕ
unfolding repeat crc16_step
crc16_byte crc x = repeat 8 crc16_step (u16 (bit_xor crc (u16 (shl x 8))))

unfoldable pub crc16_xmodem : List ℕ → ℕ → Option ℕ
crc16_xmodem input len = scan len crc16_byte 0 input 0x0000

unfoldable pub sum_byte : ℕ → ℕ → ℕ
sum_byte sum x = u8 (sum + x)

-- `~sum` on a promoted `int`, cut to a byte: 255 - sum.
unfoldable pub checksum_inverted_sum : List ℕ → ℕ → Option ℕ
checksum_inverted_sum input len = Option.map (λ sum. 0xff - sum) (scan len sum_byte 0 input 0)
