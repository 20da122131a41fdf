-- ===== src/Serialization/ByteOrder/Widths.antt =====
-- The round trips of both widths together.
use xm_sigma.Common.{◌>>=◌, ℕ, ◌^◌, ◌<◌, ◌≡◌, some, List, ◌∷◌}
use xm_sigma.Common.Int.{ℤ}
use xm_sigma.Serialization.ByteOrder.{load_be16, load_be32, load_le16, load_le32}
use xm_sigma.Serialization.ByteOrder.{store_be16, store_be32, store_le16, store_le32}
use xm_sigma.Serialization.ByteOrder.{load_be16s, load_be32s, load_le16s, load_le32s}
use xm_sigma.Serialization.ByteOrder.RoundTrip.{
  bytes16, bytes32, load-store16, load-store32, store-load16, store-load32,
}
use xm_sigma.Serialization.ByteOrder.Signed.{
  Fits, pattern_of, signed_load-store16, signed_load-store32,
}

-- A 16-bit and a 32-bit value that are stored are loaded back, in either order; the store writes
-- the bytes of the value, highest or lowest first, and no other.
pub value_round_trip :
    (rest : List ℕ) (a b c d v w : ℕ)
    → v < 2 ^ 16
    → w < 2 ^ 32
    → let (hi, lo) = bytes16 v in
      let (b3, b2, b1, b0) = bytes32 w in
      ((store_be16 (a ∷ b ∷ rest) v ≡ some (hi ∷ lo ∷ rest))
        × (store_le16 (a ∷ b ∷ rest) v ≡ some (lo ∷ hi ∷ rest))
        × (load_be16 (hi ∷ lo ∷ rest) ≡ some v)
        × (load_le16 (lo ∷ hi ∷ rest) ≡ some v))
      × ((store_be32 (a ∷ b ∷ c ∷ d ∷ rest) w ≡ some (b3 ∷ b2 ∷ b1 ∷ b0 ∷ rest))
          × (store_le32 (a ∷ b ∷ c ∷ d ∷ rest) w ≡ some (b0 ∷ b1 ∷ b2 ∷ b3 ∷ rest))
          × (load_be32 (b3 ∷ b2 ∷ b1 ∷ b0 ∷ rest) ≡ some w)
          × (load_le32 (b0 ∷ b1 ∷ b2 ∷ b3 ∷ rest) ≡ some w))
value_round_trip rest a b c d v w hv hw =
    (load-store16 rest a b v hv, load-store32 rest a b c d w hw)

-- What is loaded from two or from four bytes, in either order, is below 2 ^ 16 or 2 ^ 32, and
-- storing it back gives the same buffer.
pub bytes_round_trip :
    (rest : List ℕ) (a b c d : ℕ)
    → a < 2 ^ 8
    → b < 2 ^ 8
    → c < 2 ^ 8
    → d < 2 ^ 8
    → ((v : ℕ) × (load_be16 (a ∷ b ∷ rest) ≡ some v)
        × (load_le16 (b ∷ a ∷ rest) ≡ some v)
        × (v < 2 ^ 16)
        × (store_be16 (a ∷ b ∷ rest) v ≡ some (a ∷ b ∷ rest))
        × (store_le16 (b ∷ a ∷ rest) v ≡ some (b ∷ a ∷ rest)))
      × ((v : ℕ) × (load_be32 (a ∷ b ∷ c ∷ d ∷ rest) ≡ some v)
          × (load_le32 (d ∷ c ∷ b ∷ a ∷ rest) ≡ some v)
          × (v < 2 ^ 32)
          × (store_be32 (a ∷ b ∷ c ∷ d ∷ rest) v ≡ some (a ∷ b ∷ c ∷ d ∷ rest))
          × (store_le32 (d ∷ c ∷ b ∷ a ∷ rest) v ≡ some (d ∷ c ∷ b ∷ a ∷ rest)))
bytes_round_trip rest a b c d ha hb hc hd =
    (store-load16 rest a b ha hb, store-load32 rest a b c d ha hb hc hd)

-- A signed 16-bit and a signed 32-bit number stored as their two's complement patterns are loaded
-- back by the signed loads of the same byte order.
pub signed_round_trip :
    (rest : List ℕ) (a b c d : ℕ) (x y : ℤ)
    → Fits 16 x
    → Fits 32 y
    → (((store_be16 (a ∷ b ∷ rest) (pattern_of 16 x) >>= load_be16s) ≡ some x)
        × ((store_le16 (a ∷ b ∷ rest) (pattern_of 16 x) >>= load_le16s) ≡ some x))
      × (((store_be32 (a ∷ b ∷ c ∷ d ∷ rest) (pattern_of 32 y) >>= load_be32s) ≡ some y)
          × ((store_le32 (a ∷ b ∷ c ∷ d ∷ rest) (pattern_of 32 y) >>= load_le32s) ≡ some y))
signed_round_trip rest a b c d x y hx hy =
    (signed_load-store16 rest a b x hx, signed_load-store32 rest a b c d y hy)
