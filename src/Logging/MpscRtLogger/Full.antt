-- ===== src/Logging/MpscRtLogger/Full.antt =====
-- A record is dropped only when the ring is full.
use xm_sigma.Common.{
  ℕ, zero, suc, ◌+◌, ◌-◌, ◌%◌, ◌^◌, ◌≤◌, ◌<◌, ◌≡◌, ◌⊎◌, refl, sym, ◌∙◌, ap, subst, arith,
}
use xm_sigma.Common.{
  List, [], length, get_elem?, All-get_elem?, get_elem?_held, bit_and, dec_lt, inl, inr,
}
use xm_sigma.Common.{Bool, true, Bool-cases, ==_self, ltb}
use xm_sigma.Common.Indices.{IsSize, index_again, index_in_range}
use xm_sigma.Logging.Level.{LogLevel}
use xm_sigma.Logging.RtLogger.{Record, Call}
use xm_sigma.Logging.RtLogger.Delivery.{AreSlots}
use xm_sigma.Logging.MpscRtLogger.{
  Cell, State, Event, produce, step, log_step, try_cell, construct, run,
}
use xm_sigma.Logging.MpscRtLogger.{
  diff_is_zero, diff_is_negative, signed_place, trying, dropping, claiming, loading,
}
use xm_sigma.Logging.MpscRtLogger.{
  Drain, top, got_pos, saw_empty, logging, storing, freeing, closing, ended,
}
use xm_sigma.Logging.MpscRtLogger.Slots.{At, At-same, At-weaken}
use xm_sigma.Logging.MpscRtLogger.Invariant.{
  Claims, Sequence, HeldCell, ProducerOk, DrainOk, CellOk, freed, IsMpsc,
}
use xm_sigma.Logging.MpscRtLogger.Write.{cell_index}
use xm_sigma.Logging.MpscRtLogger.Steps.{history, run-IsMpsc}
use xm_sigma.Logging.MpscRtLogger.Delivery.{construct-IsMpsc}

-- A sequence from `p` on, and one from `p + 1 - n` on.
abbrev NotBefore : ℕ → Cell → Type 0
NotBefore p cell = p ≤ cell.sequence

abbrev RoundBefore : ℕ → ℕ → Cell → Type 0
RoundBefore n p cell = p + 1 ≤ cell.sequence + n

-- The position of the window from `first` that has the cell of `pos`.
lift :
    {n : ℕ} (size : IsSize n) (first k pos : ℕ)
    → 1 ≤ n
    → first ≤ pos + k
    → pos < first + n
    → (p : ℕ) × (first ≤ p) × (p < first + n) × (p % n ≡ pos % n) × ((p ≡ pos) ⊎ (pos + n ≤ p))
lift size first zero pos one near hi = (pos, omega arith, hi, refl, inl refl)
lift {n} size first (suc k) pos one near hi = elim (dec_lt pos first) [
  | no inside ↦ (pos, omega arith, hi, refl, inl refl)
  | yes below ↦
      let (p, lo, hi', same, far) = lift size first k (pos + n) one (omega arith) (omega arith) in
      (p, lo, hi', same ∙ index_again size pos, inr (beyond p far))
]
  where
    beyond : (p : ℕ) → (p ≡ pos + n) ⊎ (pos + n + n ≤ p) → pos + n ≤ p
    beyond p (inl e) = omega arith
    beyond p (inr e) = omega arith

-- The cell that the drain thread has yet to free.
last_cell :
    {n : ℕ} {cells : List Cell} (size : IsSize n) (first next p : ℕ) (d : Drain)
    → DrainOk n cells first next d
    → freed n d first ≤ p
    → p < first + n
    → At n cells p (RoundBefore n p)
last_cell size first next p top ok lo hi = absurd (omega arith)
last_cell size first next p (got_pos q) ok lo hi = absurd (omega arith)
last_cell size first next p saw_empty ok lo hi = absurd (omega arith)
last_cell size first next p (logging q) ok lo hi = absurd (omega arith)
last_cell size first next p (storing q) ok lo hi = absurd (omega arith)
last_cell {n} {cells} size first next p (freeing q) ok lo hi =
    let e : p ≡ q + n = omega (arith, ok.0) in
    record {
      cell = ok.2.cell;
      there =
          ap (λ (k : ℕ). get_elem? cells (k % n)) e
          ∙ ap (get_elem? cells) (index_again size q)
          ∙ ok.2.there;
      fits = omega (arith, ok.2.fits, e);
    }
last_cell size first next p closing ok lo hi = absurd (omega arith)
last_cell size first next p ended ok lo hi = absurd (omega arith)

module _ {n : ℕ} (s : State) {claims : Claims} (v : IsMpsc n s claims) where
  held_from : (p : ℕ) → s.dequeue_pos ≤ p → p < s.enqueue_pos → At n s.cells p (NotBefore p)
  held_from p lo hi =
      let h = v.ring.held p lo hi in
      At-weaken (HeldCell p h.call) (NotBefore p) (known p h.call) h.at
    where
      known : (p : ℕ) (c : Call) (cell : Cell) → HeldCell p c cell → NotBefore p cell
      known p c cell (inl e) = omega arith
      known p c cell (inr e) = omega (arith, e.0)

  -- While the ring is not full, up to the position that is claimed next.
  near :
      (p : ℕ)
      → s.dequeue_pos ≤ p
      → p ≤ s.enqueue_pos
      → s.enqueue_pos + 1 < s.dequeue_pos + n
      → At n s.cells p (NotBefore p)
  near p lo hi spare = elim (dec_lt p s.enqueue_pos) [
    | yes old ↦ held_from p lo old
    | no next ↦
        At-weaken (Sequence p) (NotBefore p) (λ cell e. omega arith)
          (v.ring.free p (omega arith) (omega (arith, v.ring.limit_lo)))
  ]

  anywhere : (p : ℕ) → s.dequeue_pos ≤ p → p < s.dequeue_pos + n → At n s.cells p (RoundBefore n p)
  anywhere p lo hi = elim (dec_lt p s.enqueue_pos) [
    | yes old ↦
        At-weaken (NotBefore p) (RoundBefore n p) (λ cell e. omega (arith, v.ring.two))
          (held_from p lo old)
    | no free ↦ elim (dec_lt p (freed n s.drain s.dequeue_pos)) [
      | yes is_free ↦
          At-weaken (Sequence p) (RoundBefore n p) (λ cell e. omega (arith, v.ring.two))
            (v.ring.free p (omega arith) is_free)
      | no last ↦
          last_cell v.ring.size s.dequeue_pos s.enqueue_pos p s.drain v.drain_ok (omega arith) hi
    ]
  ]

  -- A cell that is behind a position says that the ring is full.
  behind_is_full :
      (pos : ℕ)
      → pos ≤ s.enqueue_pos
      → At n s.cells pos (λ cell. cell.sequence < pos)
      → n ≤ s.enqueue_pos - s.dequeue_pos + 1
  behind_is_full pos le behind = elim (dec_lt (s.enqueue_pos + 1) (s.dequeue_pos + n)) [
    | no full ↦ omega (arith, v.ring.order)
    | yes spare ↦
        let (p, lo, hi, same, where_) =
          lift v.ring.size s.dequeue_pos s.dequeue_pos pos (omega (arith, v.ring.two)) (omega arith)
            (omega arith) in
        absurd (clash spare p lo hi same where_)
  ]
    where
      clash :
          s.enqueue_pos + 1 < s.dequeue_pos + n
          → (p : ℕ) → s.dequeue_pos ≤ p
          → p < s.dequeue_pos + n
          → p % n ≡ pos % n
          → (p ≡ pos) ⊎ (pos + n ≤ p)
          → ⊥
      clash spare p lo hi same (inl e) =
          let at = near p lo (omega arith) spare in
          omega
            (arith, at.fits, behind.fits, ap (λ (c : Cell). c.sequence) (At-same at behind same))
      clash spare p lo hi same (inr far) =
          let at = anywhere p lo hi in
          omega
            (arith, at.fits, behind.fits, ap (λ (c : Cell). c.sequence) (At-same at behind same))

try_cell-dropping :
    (i : ℕ) (c : Call) (pos seq : ℕ) (s : State)
    → (try_cell i c pos seq s).producers i ≡ dropping
    → diff_is_negative seq pos ≡ true
unfolding try_cell
try_cell-dropping i c pos seq s e = elim (Bool-cases (diff_is_negative seq pos)) [
  | inl behind ↦ behind
  | inr ahead ↦ elim (Bool-cases (diff_is_zero seq pos)) [
    | inl free ↦ absurd (never_claims (rw (try_cell, free, ==_self i) at e))
    | inr lost ↦ absurd (never_loads (rw (try_cell, lost, ahead, ==_self i) at e))
  ]
]
  where
    never_claims : claiming c pos ≡ dropping → ⊥
    never_claims e = cc

    never_loads : loading c ≡ dropping → ⊥
    never_loads e = cc

negative_lt :
    (seq pos : ℕ) → seq < 2 ^ 63 → pos < 2 ^ 63 → diff_is_negative seq pos ≡ true → seq < pos
negative_lt seq pos hs hp e = omega (arith, lt_of_ltb (signed_place seq) (signed_place pos) e)
  where
    lt_of_ltb : (a b : ℕ) → ltb a b ≡ true → a < b
    lt_of_ltb a b h = ground arith

-- In every interleaving, on a ring of at least two and at most 2 ^ 62 cells and while fewer than
-- 2 ^ 62 calls have claimed a position: when the next access of a call of Log makes it drop its
-- record, then at least n - 1 of the n positions are claimed and not yet passed by dequeue_pos_.
pub drops_only_when_full :
    (n : ℕ) (slots : List Record) (level : LogLevel) (es : List Event) (i : ℕ) (c : Call)
    → (pos now : ℕ) (spurious : Bool) → IsSize n
    → 2 ≤ n
    → n ≤ 2 ^ 62
    → AreSlots n slots
    → length (history (construct n slots level) es) < 2 ^ 62
    → let s = run (construct n slots level) es in
      s.producers i ≡ trying c pos
      → (step s (produce i now spurious)).producers i ≡ dropping
      → n ≤ s.enqueue_pos - s.dequeue_pos + 1
unfolding step log_step
drops_only_when_full n slots level es i c pos now spurious size two small h few at drops =
    let s = run (construct n slots level) es in
    let v =
      run-IsMpsc es (construct n slots level) [] small few
        (construct-IsMpsc slots level size two small h) in
    let le : ProducerOk n s.cells s.dequeue_pos s.enqueue_pos (history (construct n slots level) es)
        i (trying c pos) =
      subst
        (ProducerOk n s.cells s.dequeue_pos s.enqueue_pos (history (construct n slots level) es) i)
        at (v.producers_ok i) in
    let (cell, there) =
      get_elem?_held s.cells (bit_and pos s.mask)
        (rw (cell_index v.ring pos, v.ring.array) (index_in_range v.ring.size pos)) in
    let negative : diff_is_negative cell.sequence pos ≡ true =
      try_cell-dropping i c pos cell.sequence s (rw (at, log_step, there) at drops) in
    let ok = All-get_elem? CellOk s.cells (bit_and pos s.mask) v.ring.cells_ok there in
    behind_is_full s v pos le (record {
      cell = cell;
      there = ap (get_elem? s.cells) (sym (cell_index v.ring pos)) ∙ there;
      fits = negative_lt cell.sequence pos ok.1 (omega (arith, v.ring.count, le)) negative;
    })
