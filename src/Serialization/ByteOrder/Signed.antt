-- ===== src/Serialization/ByteOrder/Signed.antt =====
-- The signed loads give back the signed number whose two's complement pattern was stored.
use xm_sigma.Common.{◌>>=◌, ℕ, ◌-◌, ◌^◌, ◌<◌, ◌≡◌, arith, some}
use xm_sigma.Common.{List, ◌∷◌}
use xm_sigma.Common.Int.{ℤ, pos, negsuc, signed}
use xm_sigma.Serialization.ByteOrder.{load_be16s, load_be32s, load_le16s, load_le32s}
use xm_sigma.Serialization.ByteOrder.{store_be16, store_be32, store_le16, store_le32}
use xm_sigma.Serialization.ByteOrder.RoundTrip.{load-store16, load-store32}

-- `x` is representable in `w` bits.
abbrev pub Fits : ℕ → ℤ → Type 0
Fits w (pos n) = n < 2 ^ (w - 1)
Fits w (negsuc n) = n < 2 ^ (w - 1)

-- The bit pattern of `x` in `w` bits.
abbrev pub pattern_of : ℕ → ℤ → ℕ
pattern_of w (pos n) = n
pattern_of w (negsuc n) = 2 ^ w - n - 1

signed16-pattern_of :
    (x : ℤ) → Fits 16 x → (pattern_of 16 x < 2 ^ 16) × (signed 16 (pattern_of 16 x) ≡ x)
signed16-pattern_of (pos n) h = (omega arith, ground arith)
signed16-pattern_of (negsuc n) h = (omega arith, ground arith)

signed32-pattern_of :
    (x : ℤ) → Fits 32 x → (pattern_of 32 x < 2 ^ 32) × (signed 32 (pattern_of 32 x) ≡ x)
signed32-pattern_of (pos n) h = (omega arith, ground arith)
signed32-pattern_of (negsuc n) h = (omega arith, ground arith)

-- A signed 16-bit number stored as its two's complement pattern is loaded back by the signed load
-- of the same byte order.
pub signed_load-store16 :
    (rest : List ℕ) (a b : ℕ) (x : ℤ)
    → Fits 16 x
    → ((store_be16 (a ∷ b ∷ rest) (pattern_of 16 x) >>= load_be16s) ≡ some x)
      × ((store_le16 (a ∷ b ∷ rest) (pattern_of 16 x) >>= load_le16s) ≡ some x)
unfolding load_be16s load_le16s
signed_load-store16 rest a b x h =
    let (small, back) = signed16-pattern_of x h in
    let (sb, sl, lb, ll) = load-store16 rest a b (pattern_of 16 x) small in
    (rw (sb, lb, back), rw (sl, ll, back))

-- A signed 32-bit number stored as its two's complement pattern is loaded back by the signed load
-- of the same byte order.
pub signed_load-store32 :
    (rest : List ℕ) (a b c d : ℕ) (x : ℤ)
    → Fits 32 x
    → ((store_be32 (a ∷ b ∷ c ∷ d ∷ rest) (pattern_of 32 x) >>= load_be32s) ≡ some x)
      × ((store_le32 (a ∷ b ∷ c ∷ d ∷ rest) (pattern_of 32 x) >>= load_le32s) ≡ some x)
unfolding load_be32s load_le32s
signed_load-store32 rest a b c d x h =
    let (small, back) = signed32-pattern_of x h in
    let (sb, sl, lb, ll) = load-store32 rest a b c d (pattern_of 32 x) small in
    (rw (sb, lb, back), rw (sl, ll, back))
