-- ===== src/Serialization/ByteOrder.antt =====
-- serialization/byte_order.hpp. A buffer is the list of bytes that `p` points to; an access
-- behind its end, which C++ leaves undefined, is `none`.
pub mod RoundTrip
pub mod Signed
pub mod Widths
use xm_sigma.Common.{ℕ, ◌-◌, ◌^◌, ◌%◌, Option, none, some, List, get_elem?, set}
use xm_sigma.Common.{◌>>=◌, bit_or, u8, u16, u32, shl, shr}
use xm_sigma.Common.Int.{ℤ, signed}
use mathlib.Core.Option

-- `p[i] = static_cast<uint8_t>(v)`
abbrev pub put : List ℕ → ℕ → ℕ → Option (List ℕ)
put p i v = get_elem? p i >>= λ _. some (set p i (u8 v))

unfoldable pub load_be16 : List ℕ → Option ℕ
load_be16 p = do a ← get_elem? p 0; b ← get_elem? p 1; some (u16 (bit_or (shl a 8) b))

unfoldable pub load_be32 : List ℕ → Option ℕ
load_be32 p = do
  a ← get_elem? p 0
  b ← get_elem? p 1
  c ← get_elem? p 2
  d ← get_elem? p 3
  some (bit_or (bit_or (bit_or (u32 (shl a 24)) (u32 (shl b 16))) (u32 (shl c 8))) d)

unfoldable pub load_le16 : List ℕ → Option ℕ
load_le16 p = do b ← get_elem? p 1; a ← get_elem? p 0; some (u16 (bit_or (shl b 8) a))

unfoldable pub load_le32 : List ℕ → Option ℕ
load_le32 p = do
  d ← get_elem? p 3
  c ← get_elem? p 2
  b ← get_elem? p 1
  a ← get_elem? p 0
  some (bit_or (bit_or (bit_or (u32 (shl d 24)) (u32 (shl c 16))) (u32 (shl b 8))) a)

unfoldable pub load_be16s : List ℕ → Option ℤ
load_be16s p = Option.map (signed 16) (load_be16 p)

unfoldable pub load_be32s : List ℕ → Option ℤ
load_be32s p = Option.map (signed 32) (load_be32 p)

unfoldable pub load_le16s : List ℕ → Option ℤ
load_le16s p = Option.map (signed 16) (load_le16 p)

unfoldable pub load_le32s : List ℕ → Option ℤ
load_le32s p = Option.map (signed 32) (load_le32 p)

unfoldable pub store_be16 : List ℕ → ℕ → Option (List ℕ)
store_be16 p v = do p ← put p 0 (shr v 8); put p 1 v

unfoldable pub store_be32 : List ℕ → ℕ → Option (List ℕ)
store_be32 p v = do p ← put p 0 (shr v 24); p ← put p 1 (shr v 16); p ← put p 2 (shr v 8); put p 3 v

unfoldable pub store_le16 : List ℕ → ℕ → Option (List ℕ)
store_le16 p v = do p ← put p 0 v; put p 1 (shr v 8)

unfoldable pub store_le32 : List ℕ → ℕ → Option (List ℕ)
store_le32 p v = do p ← put p 0 v; p ← put p 1 (shr v 8); p ← put p 2 (shr v 16); put p 3 (shr v 24)
