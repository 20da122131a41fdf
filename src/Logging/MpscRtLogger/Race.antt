-- ===== src/Logging/MpscRtLogger/Race.antt =====
-- Which threads touch which cells.
use xm_sigma.Common.{ℕ, ◌+◌, ◌%◌, ◌^◌, ◌≤◌, ◌<◌, ◌≡◌, ◌≢◌, refl, sym, ◌∙◌, ap, subst, arith}
use xm_sigma.Common.{List, [], length, get_elem?, some, Option, bit_and}
use xm_sigma.Common.Indices.{IsSize, index_ne}
use xm_sigma.Logging.Level.{LogLevel}
use xm_sigma.Logging.RtLogger.{Record, Call}
use xm_sigma.Logging.RtLogger.Delivery.{AreSlots}
use xm_sigma.Logging.MpscRtLogger.{Cell, State, Event, construct, run}
use xm_sigma.Logging.MpscRtLogger.{Producer, idle, called, loading, trying, claiming}
use xm_sigma.Logging.MpscRtLogger.{dropping, set_time, set_level, set_text, publish}
use xm_sigma.Logging.MpscRtLogger.{
  Drain, top, got_pos, saw_empty, logging, storing, freeing, closing, ended,
}
use xm_sigma.Logging.MpscRtLogger.Slots.{At, At-same, At-weaken}
use xm_sigma.Logging.MpscRtLogger.Invariant.{
  Claims, Sequence, Writes, ProducerOk, DrainOk, writing, reading,
}
use xm_sigma.Logging.MpscRtLogger.Write.{cell_index}
use xm_sigma.Logging.MpscRtLogger.Steps.{history, run-IsMpsc}
use xm_sigma.Logging.MpscRtLogger.Delivery.{construct-IsMpsc}

-- What is known of a producer that fills a cell.
record Fills (n : ℕ) (cells : List Cell) (claims : Claims) (i p : ℕ) : Type 0 where
  call : Call
  claimed : get_elem? claims p ≡ some (i, call)
  at : At n cells p (Sequence p)

module _ {n : ℕ} {cells : List Cell} (first next : ℕ) {claims : Claims} (i p : ℕ) where
  fills :
      {q : ℕ} {c : Call} {P : Record → Type 0}
      → some q ≡ some p
      → Writes n cells first next claims i c q P
      → Fills n cells claims i p
  fills {q} {c} e w =
      let same : q ≡ p = cc in
      subst (Fills n cells claims i) same (record {
        call = c;
        claimed = w.claimed;
        at = At-weaken _ (Sequence q) (λ cell h. h.0) w.at;
      })

  writing-Fills :
      (pc : Producer)
      → writing pc ≡ some p
      → ProducerOk n cells first next claims i pc
      → Fills n cells claims i p
  writing-Fills idle e ok = cc
  writing-Fills (called c) e ok = cc
  writing-Fills (loading c) e ok = cc
  writing-Fills (trying c q) e ok = cc
  writing-Fills (claiming c q) e ok = cc
  writing-Fills dropping e ok = cc
  writing-Fills (set_time c q) e ok = fills e ok
  writing-Fills (set_level c q t) e ok = fills e ok
  writing-Fills (set_text c q t) e ok = fills e ok
  writing-Fills (publish c q t) e ok = fills e ok

published :
    {n : ℕ} {cells : List Cell} (p : ℕ) {q : ℕ}
    → some q ≡ some p
    → At n cells q (Sequence (q + 1))
    → At n cells p (Sequence (p + 1))
published {n} {cells} p {q} e at =
    let same : q ≡ p = cc in subst (λ k. At n cells k (Sequence (k + 1))) same at

reading-Sequence :
    {n : ℕ} {cells : List Cell} (first next p : ℕ) (d : Drain)
    → reading d ≡ some p
    → DrainOk n cells first next d
    → At n cells p (Sequence (p + 1))
reading-Sequence first next p top e ok = cc
reading-Sequence first next p (got_pos q) e ok = cc
reading-Sequence first next p saw_empty e ok = cc
reading-Sequence first next p (logging q) e ok = published p e ok.2
reading-Sequence first next p (storing q) e ok = published p e ok.2
reading-Sequence first next p (freeing q) e ok = published p e ok.2
reading-Sequence first next p closing e ok = cc
reading-Sequence first next p ended e ok = cc

-- Two producers that fill cells fill different ones.
writers_apart :
    (n : ℕ) (slots : List Record) (level : LogLevel) (es : List Event) (i j p q : ℕ)
    → IsSize n
    → 2 ≤ n
    → n ≤ 2 ^ 62
    → AreSlots n slots
    → length (history (construct n slots level) es) < 2 ^ 62
    → let s = run (construct n slots level) es in
      writing (s.producers i) ≡ some p
      → writing (s.producers j) ≡ some q
      → i ≢ j
      → bit_and p s.mask ≢ bit_and q s.mask
writers_apart n slots level es i j p q size two small h few wi wj ne same =
    let s = run (construct n slots level) es in
    let v =
      run-IsMpsc es (construct n slots level) [] small few
        (construct-IsMpsc slots level size two small h) in
    let fi = writing-Fills s.dequeue_pos s.enqueue_pos i p (s.producers i) wi (v.producers_ok i) in
    let fj = writing-Fills s.dequeue_pos s.enqueue_pos j q (s.producers j) wj (v.producers_ok j) in
    let cell : p % n ≡ q % n = sym (cell_index v.ring p) ∙ same ∙ cell_index v.ring q in
    let here : p ≡ q =
      sym fi.at.fits ∙ ap (λ (c : Cell). c.sequence) (At-same fi.at fj.at cell) ∙ fj.at.fits in
    let owner : ◌≡◌ {A = Option (ℕ × Call)} (some (i, fi.call)) (some (j, fj.call)) =
      sym fi.claimed ∙ ap (get_elem? (history (construct n slots level) es)) here ∙ fj.claimed in
    ne (cc)

-- The cell that a producer fills is never the one that the drain thread reads or frees.
writer_apart_from_drain :
    (n : ℕ) (slots : List Record) (level : LogLevel) (es : List Event) (i p q : ℕ)
    → IsSize n
    → 2 ≤ n
    → n ≤ 2 ^ 62
    → AreSlots n slots
    → length (history (construct n slots level) es) < 2 ^ 62
    → let s = run (construct n slots level) es in
      writing (s.producers i) ≡ some p
      → reading s.drain ≡ some q
      → bit_and p s.mask ≢ bit_and q s.mask
writer_apart_from_drain n slots level es i p q size two small h few wi rd same =
    let s = run (construct n slots level) es in
    let v =
      run-IsMpsc es (construct n slots level) [] small few
        (construct-IsMpsc slots level size two small h) in
    let fi = writing-Fills s.dequeue_pos s.enqueue_pos i p (s.producers i) wi (v.producers_ok i) in
    let at = reading-Sequence s.dequeue_pos s.enqueue_pos q s.drain rd v.drain_ok in
    let cell : p % n ≡ q % n = sym (cell_index v.ring p) ∙ same ∙ cell_index v.ring q in
    let here : p ≡ q + 1 =
      sym fi.at.fits ∙ ap (λ (c : Cell). c.sequence) (At-same fi.at at cell) ∙ at.fits in
    index_ne v.ring.size q 1 (omega arith) (omega arith) (ap (λ (k : ℕ). k % n) (sym here) ∙ cell)

pub data Thread : Type 0 where
  producer : ℕ → Thread
  drainer : Thread

-- The position whose cell a thread is filling, reading or freeing.
abbrev pub touching : State → Thread → Option ℕ
touching s (producer i) = writing (s.producers i)
touching s drainer = reading s.drain

-- No cell is touched by two threads at once, in every interleaving of any number of producers with
-- the drain thread, on a ring of at least two and at most 2 ^ 62 cells and while fewer than 2 ^ 62
-- calls have claimed a position: two threads that fill, read or free cells do so with different
-- ones.
pub one_thread_per_cell :
    (n : ℕ) (slots : List Record) (level : LogLevel) (es : List Event) (a b : Thread) (p q : ℕ)
    → IsSize n
    → 2 ≤ n
    → n ≤ 2 ^ 62
    → AreSlots n slots
    → length (history (construct n slots level) es) < 2 ^ 62
    → let s = run (construct n slots level) es in
      touching s a ≡ some p → touching s b ≡ some q → a ≢ b → bit_and p s.mask ≢ bit_and q s.mask
one_thread_per_cell n slots level es (producer i) (producer j) p q size two small h few ta tb ne =
    writers_apart n slots level es i j p q size two small h few ta tb
      (λ same. ne (ap (λ k. producer k) same))
one_thread_per_cell n slots level es (producer i) drainer p q size two small h few ta tb ne =
    writer_apart_from_drain n slots level es i p q size two small h few ta tb
one_thread_per_cell n slots level es drainer (producer j) p q size two small h few ta tb ne =
    λ same. writer_apart_from_drain n slots level es j q p size two small h few tb ta (sym same)
one_thread_per_cell n slots level es drainer drainer p q size two small h few ta tb ne =
    absurd (ne refl)
