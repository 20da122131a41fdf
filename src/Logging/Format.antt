-- ===== src/Logging/Format.antt =====
-- `rt_detail::FormatInto` of logging/rt_logger.hpp: formatting into the fixed buffer of a slot.
-- What `fmt::format_to_n` does with a format string and its arguments is a parameter: the text
-- that it produces, of which it writes the first `cap` characters and returns the whole size, or
-- `none` where it throws. A text is a list of bytes.
use xm_sigma.Common.{ℕ, ◌-◌, ◌≤◌, ◌≡◌, ◌^◌, ap, ◌∙◌, sym, arith, ltb, if◌then◌else◌, u16}
use xm_sigma.Common.{Option, none, some, List, [], ◌∷◌, ◌++◌, length, take, drop, length-take}
use xm_sigma.Common.{length-append, length-drop, take_all, take-append, Bool-cases, inl, inr}

-- "[xmsigma: log format error]"
abbrev pub format_error : List ℕ
format_error =
    0x5b ∷ 0x78 ∷ 0x6d ∷ 0x73 ∷ 0x69 ∷ 0x67 ∷ 0x6d ∷ 0x61 ∷ 0x3a ∷ 0x20 ∷ 0x6c ∷ 0x6f ∷ 0x67 ∷ 0x20
    ∷ 0x66 ∷ 0x6f ∷ 0x72 ∷ 0x6d ∷ 0x61 ∷ 0x74 ∷ 0x20 ∷ 0x65 ∷ 0x72 ∷ 0x72 ∷ 0x6f ∷ 0x72 ∷ 0x5d ∷ []

-- Writing `text` to the front of a buffer.
abbrev overlay : List ℕ → List ℕ → List ℕ
overlay text dst = text ++ drop (length text) dst

-- The buffer afterwards, and the length returned.
unfoldable pub format_into : List ℕ → ℕ → Option (List ℕ) → List ℕ × ℕ
format_into dst cap (some text) =
    (overlay (take cap text) dst, u16 (if ltb (length text) cap then length text else cap))
format_into dst cap none =
    let n = if ltb cap (length format_error) then cap else length format_error in
    (overlay (take n format_error) dst, u16 n)

-- What a reader of the slot sees of a formatting: the text or the diagnostic, cut to `cap` bytes.
abbrev pub visible : ℕ → Option (List ℕ) → List ℕ
visible cap (some text) = take cap text
visible cap none = take cap format_error

-- Writing what fits keeps the size of the buffer.
overlay_lem :
    (text dst : List ℕ) (n : ℕ)
    → length text ≤ length dst
    → n ≡ length text
    → (length (overlay text dst) ≡ length dst) × (take n (overlay text dst) ≡ text)
overlay_lem text dst n fits e = (
  length-append text (drop (length text) dst) ∙ omega (arith, length-drop (length text) dst),
  ap (λ (k : ℕ). take k (overlay text dst)) e ∙ take-append text (drop (length text) dst),
)

diagnostic_cut :
    (cap : ℕ)
    → take (if ltb cap (length format_error) then cap else length format_error) format_error
      ≡ take cap format_error
diagnostic_cut cap = elim (Bool-cases (ltb cap (length format_error))) [
  | inl short ↦ rw short
  | inr long ↦ rw long (sym (take_all cap format_error (ground arith)))
]

-- A slot of `cap` bytes, `cap` at most 65535, is never overrun, and `msg[0..len)` is afterwards
-- the formatted text cut to `cap`, or the fixed diagnostic if formatting threw.
pub format_into_lem :
    (dst : List ℕ) (cap : ℕ) (outcome : Option (List ℕ))
    → length dst ≡ cap
    → cap ≤ 2 ^ 16 - 1
    → let (msg, len) = format_into dst cap outcome in
      (length msg ≡ cap) × (len ≤ cap) × (take len msg ≡ visible cap outcome)
unfolding format_into
format_into_lem dst cap (some text) e h =
    let n = u16 (if ltb (length text) cap then length text else cap) in
    let fits = length-take cap text in
    let size : n ≡ length (take cap text) = ground (arith, fits) in
    let (same, seen) = overlay_lem (take cap text) dst n (omega (arith, fits)) size in
    (same ∙ e, omega (arith, size, fits), seen)
format_into_lem dst cap none e h =
    let m = if ltb cap (length format_error) then cap else length format_error in
    let fits : length (take m format_error) ≡ m = ground (arith, length-take m format_error) in
    let small : m ≤ cap = ground arith in
    let (same, seen) = overlay_lem (take m format_error) dst (u16 m) (omega arith) (omega arith) in
    (same ∙ e, omega arith, seen ∙ diagnostic_cut cap)
