-- ===== src/Serialization/Checksum/Detect.antt =====
-- What the checksums detect: a change confined to one byte changes each of them, and a message
-- followed by its checksum passes the receiver's test.
use xm_sigma.Common.{ℕ, ◌+◌, ◌-◌, ◌*◌, ◌^◌, ◌<◌, ◌≡◌, ◌≢◌, refl, sym, ◌∙◌, ap, arith}
use xm_sigma.Common.{some, List, [], ◌∷◌, ◌++◌, length, bit_xor, ◌==◌, true}
use xm_sigma.Common.{passes, passes_below, eq_of_==, append-nil, length-append, shr, u8}
use xm_sigma.Common.Bits.{xor_self, xor_clear_high}
use xm_sigma.Serialization.Checksum.{repeat, crc8_byte, crc8_maxim}
use xm_sigma.Serialization.Checksum.{
  crc16_step, crc16_byte, crc16_xmodem, sum_byte, checksum_inverted_sum,
}
use xm_sigma.Serialization.Checksum.Loop.{fold, fold-append, scan-fold, IsByte, AllBytes}
use xm_sigma.Serialization.Checksum.Undo.{
  IsCrc, crc8_byte-IsCrc, crc16_byte-IsCrc, sum_byte-IsCrc, crc16_byte_lem,
}

module _ {f : ℕ → ℕ → ℕ} {bound : ℕ} (crc : IsCrc f bound) where
  pub fold-lt : (s : ℕ) (xs : List ℕ) → s < bound → AllBytes xs → fold f s xs < bound
  unfolding fold
  fold-lt s [] hs hx = hs
  fold-lt s (x ∷ xs) hs hx = fold-lt (f s x) xs (crc.range s x hs hx.0) hx.1

  fold_injective :
      (s t : ℕ) (xs : List ℕ)
      → s < bound
      → t < bound
      → AllBytes xs
      → fold f s xs ≡ fold f t xs
      → s ≡ t
  unfolding fold
  fold_injective s t [] hs ht hx e = e
  fold_injective s t (x ∷ xs) hs ht hx e =
      crc.state s t x hs ht hx.0
        (fold_injective (f s x) (f t x) xs (crc.range s x hs hx.0) (crc.range t x ht hx.0) hx.1 e)

  fold_one_byte :
      (before after : List ℕ) (x y : ℕ)
      → AllBytes before
      → AllBytes after
      → IsByte x
      → IsByte y
      → fold f 0 (before ++ (x ∷ after)) ≡ fold f 0 (before ++ (y ∷ after))
      → x ≡ y
  unfolding fold
  fold_one_byte before after x y hb ha hx hy e =
      let s = fold f 0 before in
      let hs = fold-lt 0 before crc.start hb in
      crc.byte s x y hs hx hy (
        fold_injective (f s x) (f s y) after (crc.range s x hs hx) (crc.range s y hs hy) ha
          (sym (fold-append f 0 before (x ∷ after)) ∙ e ∙ fold-append f 0 before (y ∷ after)))

-- A checksum of the first `length xs` bytes of a buffer is the fold of exactly those.
pub crc8_maxim_lem :
    (xs rest : List ℕ) → crc8_maxim (xs ++ rest) (length xs) ≡ some (fold crc8_byte 0 xs)
unfolding crc8_maxim
crc8_maxim_lem xs rest = scan-fold crc8_byte xs rest 0

pub crc16_xmodem_lem :
    (xs rest : List ℕ) → crc16_xmodem (xs ++ rest) (length xs) ≡ some (fold crc16_byte 0 xs)
unfolding crc16_xmodem
crc16_xmodem_lem xs rest = scan-fold crc16_byte xs rest 0

checksum_inverted_sum_lem :
    (xs rest : List ℕ)
    → checksum_inverted_sum (xs ++ rest) (length xs) ≡ some (0xff - fold sum_byte 0 xs)
unfolding checksum_inverted_sum
checksum_inverted_sum_lem xs rest = rw (scan-fold sum_byte xs rest 0)

pub some_injective : (x y : ℕ) → some x ≡ some y → x ≡ y
some_injective x y e = cc

complement_injective : (x y : ℕ) → x < 256 → y < 256 → 0xff - x ≡ 0xff - y → x ≡ y
complement_injective x y hx hy e = omega arith

-- Two frames in the buffer that differ in exactly one byte, whatever the change and whatever
-- follows the frames, have different CRC-8, CRC-16 and inverted sum.
pub one_byte_change_detected :
    (before after rest rest' : List ℕ) (x y : ℕ)
    → AllBytes before
    → AllBytes after
    → IsByte x
    → IsByte y
    → x ≢ y
    → let p = before ++ (x ∷ after) in
      let q = before ++ (y ∷ after) in
      (crc8_maxim (p ++ rest) (length p) ≢ crc8_maxim (q ++ rest') (length q))
      × (crc16_xmodem (p ++ rest) (length p) ≢ crc16_xmodem (q ++ rest') (length q))
      × (checksum_inverted_sum (p ++ rest) (length p)
          ≢ checksum_inverted_sum (q ++ rest') (length q))
one_byte_change_detected before after rest rest' x y hb ha hx hy ne =
    let p = before ++ (x ∷ after) in
    let q = before ++ (y ∷ after) in
    (
      λ e. ne (
          fold_one_byte crc8_byte-IsCrc before after x y hb ha hx hy
            (some_injective _ _ (sym (crc8_maxim_lem p rest) ∙ e ∙ crc8_maxim_lem q rest'))),
      λ e. ne (
          fold_one_byte crc16_byte-IsCrc before after x y hb ha hx hy
            (some_injective _ _ (sym (crc16_xmodem_lem p rest) ∙ e ∙ crc16_xmodem_lem q rest'))),
      λ e. ne (
          fold_one_byte sum_byte-IsCrc before after x y hb ha hx hy (
            complement_injective _ _ (sum_lt before x after hb hx ha)
              (sum_lt before y after hb hy ha)
              (some_injective _ _
                (sym (checksum_inverted_sum_lem p rest) ∙ e ∙ checksum_inverted_sum_lem q rest')))),
    )
  where
    sum_lt :
        (u : List ℕ) (z : ℕ) (v : List ℕ)
        → AllBytes u
        → IsByte z
        → AllBytes v
        → fold sum_byte 0 (u ++ (z ∷ v)) < 256
    sum_lt u z v hu hz hv = rw (fold-append sum_byte 0 u (z ∷ v)) (
        fold-lt sum_byte-IsCrc (fold sum_byte 0 u) (z ∷ v)
          (fold-lt sum_byte-IsCrc 0 u (omega arith) hu) (hz, hv))

crc8_accepts :
    (xs rest : List ℕ)
    → AllBytes xs
    → crc8_maxim (xs ++ (fold crc8_byte 0 xs ∷ []) ++ rest) (length xs + 1) ≡ some 0
crc8_accepts xs rest h =
    let c = fold crc8_byte 0 xs in
    ap (crc8_maxim (xs ++ (c ∷ []) ++ rest)) (sym (length-append xs (c ∷ [])))
    ∙ crc8_maxim_lem (xs ++ (c ∷ [])) rest
    ∙ ap some (fold-append crc8_byte 0 xs (c ∷ []) ∙ meets_itself c)
  where
    meets_itself : (c : ℕ) → fold crc8_byte c (c ∷ []) ≡ 0
    meets_itself c = unfold fold crc8_byte in rw (xor_self c)

-- Eight rounds shift a low byte to the high one.
low_byte_table : passes (λ x. repeat 8 crc16_step x == x * 2 ^ 8) 256 ≡ true
unfolding passes repeat crc16_step
low_byte_table = refl

crc16_high : (c : ℕ) → c < 65536 → crc16_byte c (shr c 8) ≡ u8 c * 2 ^ 8
crc16_high c h =
    crc16_byte_lem c (shr c 8) h (omega arith)
    ∙ ap (repeat 8 crc16_step) (
        ap (λ (t : ℕ). bit_xor t (shr c 8 * 2 ^ 8)) {y = shr c 8 * 2 ^ 8 + u8 c} (omega arith)
        ∙ xor_clear_high 8 (shr c 8) (u8 c) (omega arith))
    ∙ eq_of_== _ _ (passes_below _ 256 low_byte_table (u8 c) (omega arith))

crc16_low : (b : ℕ) → IsByte b → crc16_byte (b * 2 ^ 8) b ≡ 0
crc16_low b h =
    crc16_byte_lem (b * 2 ^ 8) b (omega arith) h
    ∙ ap (repeat 8 crc16_step) (xor_self (b * 2 ^ 8))
    ∙ eq_of_== _ _ (passes_below _ 256 low_byte_table 0 (omega arith))

crc16_accepts :
    (xs rest : List ℕ)
    → AllBytes xs
    → let c = fold crc16_byte 0 xs in
      crc16_xmodem (xs ++ (shr c 8 ∷ u8 c ∷ []) ++ rest) (length xs + 2) ≡ some 0
crc16_accepts xs rest h =
    let c = fold crc16_byte 0 xs in
    let tail = shr c 8 ∷ u8 c ∷ [] in
    ap (crc16_xmodem (xs ++ tail ++ rest)) (sym (length-append xs tail))
    ∙ crc16_xmodem_lem (xs ++ tail) rest
    ∙ ap some (
        fold-append crc16_byte 0 xs tail
        ∙ two_bytes c (shr c 8) (u8 c)
        ∙ ap (λ (s : ℕ). crc16_byte s (u8 c))
            (crc16_high c (fold-lt crc16_byte-IsCrc 0 xs (omega arith) h))
        ∙ crc16_low (u8 c) (omega arith))
  where
    two_bytes : (s x y : ℕ) → fold crc16_byte s (x ∷ y ∷ []) ≡ crc16_byte (crc16_byte s x) y
    two_bytes s x y = unfold fold in refl

sum_accepts :
    (xs rest : List ℕ)
    → AllBytes xs
    → checksum_inverted_sum (xs ++ ((0xff - fold sum_byte 0 xs) ∷ []) ++ rest) (length xs + 1)
      ≡ some 0
sum_accepts xs rest h =
    let s = fold sum_byte 0 xs in
    let c = 0xff - s in
    ap (checksum_inverted_sum (xs ++ (c ∷ []) ++ rest)) (sym (length-append xs (c ∷ [])))
    ∙ checksum_inverted_sum_lem (xs ++ (c ∷ [])) rest
    ∙ ap (λ (t : ℕ). some (0xff - t))
        (fold-append sum_byte 0 xs (c ∷ [])
          ∙ completes s (fold-lt sum_byte-IsCrc 0 xs (omega arith) h))
  where
    completes : (s : ℕ) → s < 256 → fold sum_byte s ((0xff - s) ∷ []) ≡ 0xff
    completes s h = unfold fold sum_byte in omega arith

-- The receiver's tests: a frame followed by its CRC-8, or by its CRC-16 with the high byte first,
-- has CRC 0; a frame followed by its inverted sum has inverted sum 0.
pub frame_accepted :
    (xs rest : List ℕ)
    → AllBytes xs
    → (crc8 : ℕ) × (crc16 : ℕ) × (sum : ℕ) × (crc8_maxim xs (length xs) ≡ some crc8)
      × (crc16_xmodem xs (length xs) ≡ some crc16)
      × (checksum_inverted_sum xs (length xs) ≡ some sum)
      × (crc8_maxim (xs ++ (crc8 ∷ []) ++ rest) (length xs + 1) ≡ some 0)
      × (crc16_xmodem (xs ++ (shr crc16 8 ∷ u8 crc16 ∷ []) ++ rest) (length xs + 2) ≡ some 0)
      × (checksum_inverted_sum (xs ++ (sum ∷ []) ++ rest) (length xs + 1) ≡ some 0)
frame_accepted xs rest h = (
  fold crc8_byte 0 xs,
  fold crc16_byte 0 xs,
  0xff - fold sum_byte 0 xs,
  ap (λ ys. crc8_maxim ys (length xs)) (sym (append-nil xs)) ∙ crc8_maxim_lem xs [],
  ap (λ ys. crc16_xmodem ys (length xs)) (sym (append-nil xs)) ∙ crc16_xmodem_lem xs [],
  ap (λ ys. checksum_inverted_sum ys (length xs)) (sym (append-nil xs))
      ∙ checksum_inverted_sum_lem xs [],
  crc8_accepts xs rest h,
  crc16_accepts xs rest h,
  sum_accepts xs rest h,
)
