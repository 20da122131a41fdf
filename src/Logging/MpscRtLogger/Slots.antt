-- ===== src/Logging/MpscRtLogger/Slots.antt =====
-- What is known of the cell of a position: `p` stands at `p % n`, and positions closer than `n`
-- have cells of their own.
use xm_sigma.Common.{ℕ, ◌+◌, ◌-◌, ◌%◌, ◌≤◌, ◌<◌, ◌≡◌, ◌≢◌, sym, ◌∙◌, ap, arith}
use xm_sigma.Common.{List, get_elem?, modify, some, dec_lt}
use xm_sigma.Common.{get_elem?-modify_self, get_elem?-modify_ne}
use xm_sigma.Common.Indices.{IsSize, index_ne}
use xm_sigma.Logging.MpscRtLogger.{Cell}

-- The cell of position `p` satisfies `P`.
pub record At (n : ℕ) (cells : List Cell) (p : ℕ) (P : Cell → Type 0) : Type 0 where
  pub cell : Cell
  pub there : get_elem? cells (p % n) ≡ some cell
  pub fits : P cell

-- Both cells are the one.
pub At-same :
    {n : ℕ} {cells : List Cell} {p q : ℕ} {P Q : Cell → Type 0}
    → (a : At n cells p P) → (b : At n cells q Q) → p % n ≡ q % n
    → a.cell ≡ b.cell
At-same {cells = cells} a b e =
    let there : some a.cell ≡ some b.cell = sym a.there ∙ ap (get_elem? cells) e ∙ b.there in cc

pub At-weaken :
    {n : ℕ} {cells : List Cell} {p : ℕ} (P Q : Cell → Type 0)
    → ((c : Cell) → P c → Q c)
    → At n cells p P
    → At n cells p Q
At-weaken P Q keep a = record { cell = a.cell; there = a.there; fits = keep a.cell a.fits }

-- A write to the cell of `q` leaves another cell alone.
pub At-modify_ne :
    {n : ℕ} {cells : List Cell} {p : ℕ} (q : ℕ) (f : Cell → Cell) {P : Cell → Type 0}
    → q % n ≢ p % n
    → At n cells p P
    → At n (modify cells (q % n) f) p P
At-modify_ne {n} {cells} {p} q f ne a = record {
  cell = a.cell;
  there = get_elem?-modify_ne cells (q % n) (p % n) f ne ∙ a.there;
  fits = a.fits;
}

pub At-modify_self :
    {n : ℕ} {cells : List Cell} {p : ℕ} (f : Cell → Cell) {P : Cell → Type 0} (Q : Cell → Type 0)
    → ((c : Cell) → P c → Q (f c))
    → At n cells p P
    → At n (modify cells (p % n) f) p Q
At-modify_self {n} {cells} {p} f Q keep a = record {
  cell = f a.cell;
  there = get_elem?-modify_self cells (p % n) f a.cell a.there;
  fits = keep a.cell a.fits;
}

-- Two positions of a window of `n` positions have different cells.
pub window_ne :
    {n : ℕ} (size : IsSize n) (first p q : ℕ)
    → first ≤ p
    → p < first + n
    → first ≤ q
    → q < first + n
    → p ≢ q
    → p % n ≢ q % n
window_ne {n} size first p q hp hp' hq hq' ne = elim (dec_lt p q) [
  | yes lt ↦ λ e.
      index_ne size p (q - p) (omega arith) (omega arith)
        (ap (λ (i : ℕ). i % n) {x = p + (q - p)} {y = q} (omega arith) ∙ sym e)
  | no ge ↦ λ e.
      index_ne size q (p - q) (ground arith) (omega arith)
        (ap (λ (i : ℕ). i % n) {x = q + (p - q)} {y = p} (omega arith) ∙ e)
]
