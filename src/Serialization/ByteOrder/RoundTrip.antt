-- ===== src/Serialization/ByteOrder/RoundTrip.antt =====
-- Stores and loads are inverse, in either byte order, and touch only their own bytes.
use xm_sigma.Common.{ℕ, ◌+◌, ◌*◌, ◌^◌, ◌<◌, ◌≡◌, refl, ◌∙◌, ap, arith}
use xm_sigma.Common.{some, List, ◌∷◌, bit_or, u8, u16, u32, shl, shr}
use xm_sigma.Common.Masks.{or_fields}
use xm_sigma.Serialization.ByteOrder.{load_be16, load_be32, load_le16, load_le32}
use xm_sigma.Serialization.ByteOrder.{store_be16, store_be32, store_le16, store_le32}

-- What the expressions of the loads amount to on bytes.
abbrev IsByte : ℕ → Type 0
IsByte a = a < 2 ^ 8

-- The bytes of a value, the most significant first.
abbrev pub bytes16 : ℕ → ℕ × ℕ
bytes16 v = (u8 (shr v 8), u8 v)

abbrev pub bytes32 : ℕ → ℕ × ℕ × ℕ × ℕ
bytes32 v = (u8 (shr v 24), u8 (shr v 16), u8 (shr v 8), u8 v)

pack16 : (hi lo : ℕ) → IsByte hi → IsByte lo → u16 (bit_or (shl hi 8) lo) ≡ hi * 2 ^ 8 + lo
pack16 hi lo hh hl = rw (or_fields 8 hi lo hl) (omega arith)

pack32 :
    (a b c d : ℕ)
    → IsByte a
    → IsByte b
    → IsByte c
    → IsByte d
    → bit_or (bit_or (bit_or (u32 (shl a 24)) (u32 (shl b 16))) (u32 (shl c 8))) d
      ≡ a * 2 ^ 24 + b * 2 ^ 16 + c * 2 ^ 8 + d
pack32 a b c d ha hb hc hd =
    rw
      (
        top,
        or_fields 24 a (u32 (shl b 16)) (omega arith),
        three,
        or_fields 16 (a * 2 ^ 8 + b) (u32 (shl c 8)) (omega arith),
        four,
        or_fields 8 (a * 2 ^ 16 + b * 2 ^ 8 + c) d hd,
      )
      (omega arith)
  where
    top : u32 (shl a 24) ≡ a * 2 ^ 24
    top = omega arith

    three : a * 2 ^ 24 + u32 (shl b 16) ≡ (a * 2 ^ 8 + b) * 2 ^ 16
    three = omega arith

    four : (a * 2 ^ 8 + b) * 2 ^ 16 + u32 (shl c 8) ≡ (a * 2 ^ 16 + b * 2 ^ 8 + c) * 2 ^ 8
    four = omega arith

module _ (rest : List ℕ) where
  -- A 16-bit value that is stored is loaded back, in either order; the store writes the two
  -- bytes `hi lo` or `lo hi` of the value, and no other.
  pub load-store16 :
      (a b v : ℕ)
      → v < 2 ^ 16
      → let (hi, lo) = bytes16 v in
        (store_be16 (a ∷ b ∷ rest) v ≡ some (hi ∷ lo ∷ rest))
        × (store_le16 (a ∷ b ∷ rest) v ≡ some (lo ∷ hi ∷ rest))
        × (load_be16 (hi ∷ lo ∷ rest) ≡ some v)
        × (load_le16 (lo ∷ hi ∷ rest) ≡ some v)
  unfolding store_be16 store_le16 load_be16 load_le16
  load-store16 a b v h = (
    refl,
    refl,
    ap some (pack16 (u8 (shr v 8)) (u8 v) (omega arith) (omega arith) ∙ omega arith),
    ap some (pack16 (u8 (shr v 8)) (u8 v) (omega arith) (omega arith) ∙ omega arith),
  )

  -- A 32-bit value that is stored is loaded back, in either order; the store writes the four
  -- bytes of the value, highest or lowest first, and no other.
  pub load-store32 :
      (a b c d v : ℕ)
      → v < 2 ^ 32
      → let (b3, b2, b1, b0) = bytes32 v in
        (store_be32 (a ∷ b ∷ c ∷ d ∷ rest) v ≡ some (b3 ∷ b2 ∷ b1 ∷ b0 ∷ rest))
        × (store_le32 (a ∷ b ∷ c ∷ d ∷ rest) v ≡ some (b0 ∷ b1 ∷ b2 ∷ b3 ∷ rest))
        × (load_be32 (b3 ∷ b2 ∷ b1 ∷ b0 ∷ rest) ≡ some v)
        × (load_le32 (b0 ∷ b1 ∷ b2 ∷ b3 ∷ rest) ≡ some v)
  unfolding store_be32 store_le32 load_be32 load_le32
  load-store32 a b c d v h =
      let packed =
        pack32 (u8 (shr v 24)) (u8 (shr v 16)) (u8 (shr v 8)) (u8 v) (omega arith) (omega arith)
          (omega arith) (omega arith) in
      (refl, refl, ap some (packed ∙ omega arith), ap some (packed ∙ omega arith))

  -- What is loaded from two bytes, in either order, is below 2 ^ 16, and storing it back gives the
  -- same buffer.
  pub store-load16 :
      (a b : ℕ)
      → a < 2 ^ 8
      → b < 2 ^ 8
      → (v : ℕ) × (load_be16 (a ∷ b ∷ rest) ≡ some v)
        × (load_le16 (b ∷ a ∷ rest) ≡ some v)
        × (v < 2 ^ 16)
        × (store_be16 (a ∷ b ∷ rest) v ≡ some (a ∷ b ∷ rest))
        × (store_le16 (b ∷ a ∷ rest) v ≡ some (b ∷ a ∷ rest))
  unfolding store_be16 store_le16 load_be16 load_le16
  store-load16 a b ha hb = (
    a * 2 ^ 8 + b,
    ap some (pack16 a b ha hb),
    ap some (pack16 a b ha hb),
    omega arith,
    ground arith,
    ground arith,
  )

  -- What is loaded from four bytes, in either order, is below 2 ^ 32, and storing it back gives the
  -- same buffer.
  pub store-load32 :
      (a b c d : ℕ)
      → a < 2 ^ 8
      → b < 2 ^ 8
      → c < 2 ^ 8
      → d < 2 ^ 8
      → (v : ℕ) × (load_be32 (a ∷ b ∷ c ∷ d ∷ rest) ≡ some v)
        × (load_le32 (d ∷ c ∷ b ∷ a ∷ rest) ≡ some v)
        × (v < 2 ^ 32)
        × (store_be32 (a ∷ b ∷ c ∷ d ∷ rest) v ≡ some (a ∷ b ∷ c ∷ d ∷ rest))
        × (store_le32 (d ∷ c ∷ b ∷ a ∷ rest) v ≡ some (d ∷ c ∷ b ∷ a ∷ rest))
  unfolding store_be32 store_le32 load_be32 load_le32
  store-load32 a b c d ha hb hc hd = (
    a * 2 ^ 24 + b * 2 ^ 16 + c * 2 ^ 8 + d,
    ap some (pack32 a b c d ha hb hc hd),
    ap some (pack32 a b c d ha hb hc hd),
    omega arith,
    ground arith,
    ground arith,
  )
