-- ===== src/Serialization/Tests.antt =====
-- The check values that the literature gives for "123456789", other runs, and an instance of each
-- theorem on serialization/.
use xm_sigma.Common.{◌>>=◌, ℕ, ◌^◌, ◌<◌, ◌≡◌, ◌≢◌, refl, arith, some, none, List, [], ◌∷◌, u8, shr}
use xm_sigma.Common.Int.{negsuc}
use xm_sigma.Serialization.ByteOrder.{load_be16, load_be32, load_le16, load_le32}
use xm_sigma.Serialization.ByteOrder.Widths.{value_round_trip, signed_round_trip}
use xm_sigma.Serialization.ByteOrder.{store_be16, store_be32, store_le16, store_le32}
use xm_sigma.Serialization.ByteOrder.{load_be16s, load_be32s, load_le16s, load_le32s}
use xm_sigma.Serialization.ByteOrder.Signed.{pattern_of}
use xm_sigma.Serialization.Checksum.{
  crc8_maxim, crc16_xmodem, checksum_inverted_sum, repeat, scan, crc8_step, crc8_byte, crc16_step,
  crc16_byte, sum_byte,
}
use xm_sigma.Common.{◌↔◌, ◌*◌, ◌++◌, map}
use xm_sigma.Serialization.Checksum.Polynomial.{IsRemainder}
use xm_sigma.Serialization.Checksum.Division.{xmodem, maxim, message, reflected, crc_by_division}
use xm_sigma.Serialization.Checksum.Detect.{one_byte_change_detected, frame_accepted}

-- "123456789"
abbrev digits : List ℕ
digits = 0x31 ∷ 0x32 ∷ 0x33 ∷ 0x34 ∷ 0x35 ∷ 0x36 ∷ 0x37 ∷ 0x38 ∷ 0x39 ∷ []

crc8_check : crc8_maxim digits 9 ≡ some 0xa1
unfolding crc8_maxim scan crc8_byte repeat crc8_step
crc8_check = refl

crc16_check : crc16_xmodem digits 9 ≡ some 0x31c3
unfolding crc16_xmodem scan crc16_byte repeat crc16_step
crc16_check = refl

sum_check : checksum_inverted_sum (0xff ∷ 0x02 ∷ []) 2 ≡ some 0xfe
unfolding checksum_inverted_sum scan sum_byte
sum_check = refl

-- A length beyond the buffer is outside the contract.
over_read : crc8_maxim (0x31 ∷ []) 2 ≡ none
unfolding crc8_maxim scan crc8_byte repeat crc8_step
over_read = refl

value_round_trip_example :
    ((store_be16 (0 ∷ 0 ∷ 7 ∷ 8 ∷ []) 0x1234 ≡ some (0x12 ∷ 0x34 ∷ 7 ∷ 8 ∷ []))
      × (store_le16 (0 ∷ 0 ∷ 7 ∷ 8 ∷ []) 0x1234 ≡ some (0x34 ∷ 0x12 ∷ 7 ∷ 8 ∷ []))
      × (load_be16 (0x12 ∷ 0x34 ∷ 7 ∷ 8 ∷ []) ≡ some 0x1234)
      × (load_le16 (0x34 ∷ 0x12 ∷ 7 ∷ 8 ∷ []) ≡ some 0x1234))
    × ((store_be32 (0 ∷ 0 ∷ 0 ∷ 0 ∷ 7 ∷ 8 ∷ []) 0x8765_4321
          ≡ some (0x87 ∷ 0x65 ∷ 0x43 ∷ 0x21 ∷ 7 ∷ 8 ∷ []))
        × (store_le32 (0 ∷ 0 ∷ 0 ∷ 0 ∷ 7 ∷ 8 ∷ []) 0x8765_4321
            ≡ some (0x21 ∷ 0x43 ∷ 0x65 ∷ 0x87 ∷ 7 ∷ 8 ∷ []))
        × (load_be32 (0x87 ∷ 0x65 ∷ 0x43 ∷ 0x21 ∷ 7 ∷ 8 ∷ []) ≡ some 0x8765_4321)
        × (load_le32 (0x21 ∷ 0x43 ∷ 0x65 ∷ 0x87 ∷ 7 ∷ 8 ∷ []) ≡ some 0x8765_4321))
value_round_trip_example =
    value_round_trip (7 ∷ 8 ∷ []) 0 0 0 0 0x1234 0x8765_4321 (omega arith) (omega arith)

-- -2 and -1000
signed_round_trip_example :
    (((store_be16 (0 ∷ 0 ∷ []) (pattern_of 16 (negsuc 1)) >>= load_be16s) ≡ some (negsuc 1))
      × ((store_le16 (0 ∷ 0 ∷ []) (pattern_of 16 (negsuc 1)) >>= load_le16s) ≡ some (negsuc 1)))
    × (((store_be32 (0 ∷ 0 ∷ 0 ∷ 0 ∷ []) (pattern_of 32 (negsuc 999)) >>= load_be32s)
          ≡ some (negsuc 999))
        × ((store_le32 (0 ∷ 0 ∷ 0 ∷ 0 ∷ []) (pattern_of 32 (negsuc 999)) >>= load_le32s)
            ≡ some (negsuc 999)))
signed_round_trip_example =
    signed_round_trip [] 0 0 0 0 (negsuc 1) (negsuc 999) (omega arith) (omega arith)

-- One bit of the middle byte is flipped.
one_byte_change_detected_example :
    (crc8_maxim (1 ∷ 2 ∷ 3 ∷ 9 ∷ []) 3 ≢ crc8_maxim (1 ∷ 6 ∷ 3 ∷ []) 3)
    × (crc16_xmodem (1 ∷ 2 ∷ 3 ∷ 9 ∷ []) 3 ≢ crc16_xmodem (1 ∷ 6 ∷ 3 ∷ []) 3)
    × (checksum_inverted_sum (1 ∷ 2 ∷ 3 ∷ 9 ∷ []) 3 ≢ checksum_inverted_sum (1 ∷ 6 ∷ 3 ∷ []) 3)
one_byte_change_detected_example =
    one_byte_change_detected (1 ∷ []) (3 ∷ []) (9 ∷ []) [] 2 6 (omega arith, tt) (omega arith, tt)
      (omega arith) (omega arith) (omega arith)

crc_by_division_example :
    ((crc16_xmodem (digits ++ []) 9 ≡ some 0x31c3)
      ↔ IsRemainder 16 xmodem (message digits * 2 ^ 16) 0x31c3)
    × ((crc8_maxim (digits ++ []) 9 ≡ some (reflected 0x85)) × (0x85 < 2 ^ 8)
        ↔ IsRemainder 8 maxim (message (map reflected digits) * 2 ^ 8) 0x85)
crc_by_division_example = crc_by_division digits [] 0x31c3 0x85 (omega arith)

frame_accepted_example :
    (crc8 : ℕ) × (crc16 : ℕ) × (sum : ℕ) × (crc8_maxim (1 ∷ 2 ∷ []) 2 ≡ some crc8)
    × (crc16_xmodem (1 ∷ 2 ∷ []) 2 ≡ some crc16)
    × (checksum_inverted_sum (1 ∷ 2 ∷ []) 2 ≡ some sum)
    × (crc8_maxim (1 ∷ 2 ∷ crc8 ∷ 5 ∷ []) 3 ≡ some 0)
    × (crc16_xmodem (1 ∷ 2 ∷ shr crc16 8 ∷ u8 crc16 ∷ 5 ∷ []) 4 ≡ some 0)
    × (checksum_inverted_sum (1 ∷ 2 ∷ sum ∷ 5 ∷ []) 3 ≡ some 0)
frame_accepted_example = frame_accepted (1 ∷ 2 ∷ []) (5 ∷ []) (omega arith, (omega arith, tt))
