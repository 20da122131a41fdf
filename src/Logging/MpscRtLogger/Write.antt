-- ===== src/Logging/MpscRtLogger/Write.antt =====
-- A write of a producer to the cell that it has claimed keeps the invariant.
use xm_sigma.Common.{ℕ, ◌+◌, ◌%◌, ◌≤◌, ◌<◌, ◌≡◌, ◌≢◌, sym, ◌∙◌, ap, subst, arith}
use xm_sigma.Common.{List, get_elem?, modify, some, bit_and, ℕ_discrete}
use xm_sigma.Common.{length-modify, All-modify}
use xm_sigma.Common.Indices.{mask_lem}
use xm_sigma.Logging.RtLogger.{Record, Call}
use xm_sigma.Logging.MpscRtLogger.{Cell, State, goto, at_cell}
use xm_sigma.Logging.MpscRtLogger.{
  Drain, top, got_pos, saw_empty, logging, storing, freeing, closing, ended, Producer,
}
use xm_sigma.Logging.MpscRtLogger.Slots.{
  At, At-same, At-weaken, At-modify_ne, At-modify_self, window_ne,
}
use xm_sigma.Logging.MpscRtLogger.Invariant.{
  Claims, Sequence, HeldCell, Held, Writes, ProducerOk, DrainOk, CellOk, IsRing, IsMpsc,
}
use xm_sigma.Logging.MpscRtLogger.Locals.{ProducerOk-keep, update-cases}

module _ {n capacity mask : ℕ} {cells : List Cell} {first limit next : ℕ} {claims : Claims}
    (v : IsRing n capacity mask cells first limit next claims) where
  pub cell_index : (p : ℕ) → bit_and p mask ≡ p % n
  cell_index p = ap (bit_and p) v.mask_is ∙ mask_lem v.size p

  pub two_positions :
      {p q x y : ℕ} → At n cells p (Sequence x) → At n cells q (Sequence y) → x ≢ y → p % n ≢ q % n
  two_positions {p} {q} {x} {y} a b ne e =
      ne (sym a.fits ∙ ap (λ (c : Cell). c.sequence) (At-same a b e) ∙ b.fits)

  module _ (i : ℕ) (c : Call) (pos : ℕ) (f : Cell → Cell) (lo : first ≤ pos) (hi : pos < next)
      (mine : get_elem? claims pos ≡ some (i, c)) (at_pos : At n cells pos (Sequence pos))
      (new : At n (modify cells (pos % n) f) pos (HeldCell pos c))
      (keep : (cell : Cell) → CellOk cell → CellOk (f cell)) where
    abbrev cells' : List Cell
    cells' = modify cells (pos % n) f

    -- Another position of the window has another cell.
    apart : (p : ℕ) → first ≤ p → p < first + n → pos ≢ p → pos % n ≢ p % n
    apart p hp hp' ne = window_ne v.size first pos p lo (omega (arith, v.room)) hp hp' ne

    held' : (p : ℕ) → first ≤ p → p < next → Held n cells' claims p
    held' p hp hp' =
        let h = v.held p hp hp' in
        elim (ℕ_discrete pos p) [
          | yes same ↦
              let again : get_elem? claims pos ≡ some (h.owner, h.call) =
                ap (get_elem? claims) same ∙ h.claimed in
              let call_is : c ≡ h.call = cc in
              record {
                owner = h.owner;
                call = h.call;
                claimed = h.claimed;
                at =
                    subst (λ k. At n cells' p (HeldCell p k)) call_is
                      (subst (λ q. At n cells' q (HeldCell q c)) same new);
              }
          | no ne ↦ record {
            owner = h.owner;
            call = h.call;
            claimed = h.claimed;
            at = At-modify_ne pos f (apart p hp (omega (arith, v.room)) ne) h.at;
          }
        ]

    pub write-IsRing : IsRing n capacity mask cells' first limit next claims
    write-IsRing = record {
      size = v.size;
      two = v.two;
      capacity_is = v.capacity_is;
      mask_is = v.mask_is;
      array = length-modify cells (pos % n) f ∙ v.array;
      cells_ok = All-modify CellOk f keep cells (pos % n) v.cells_ok;
      count = v.count;
      order = v.order;
      room = v.room;
      held = held';
      limit_lo = v.limit_lo;
      limit_hi = v.limit_hi;
      free = λ p hp hp'.
          At-modify_ne pos f (apart p (omega arith) (omega (arith, v.limit_hi)) (omega arith))
            (v.free p hp hp');
    }

    pub write-others :
        (j : ℕ) (p : Producer)
        → i ≢ j
        → ProducerOk n cells first next claims j p
        → ProducerOk n cells' first next claims j p
    write-others j p ne ok =
        ProducerOk-keep j p (omega arith)
          (λ q le at e. At-modify_ne pos f (two_positions at_pos (at e) (omega arith)) (at e))
          (λ q c' P w. record {
            from = w.from;
            before = w.before;
            claimed = w.claimed;
            at =
                At-modify_ne pos f
                  (apart q w.from (omega (arith, w.before, v.room)) (other_claim q c' w.claimed))
                  w.at;
          })
          ok
      where
        other_claim : (q : ℕ) (c' : Call) → get_elem? claims q ≡ some (j, c') → pos ≢ q
        other_claim q c' e same =
            let again : get_elem? claims pos ≡ some (j, c') = ap (get_elem? claims) same ∙ e in
            ne (cc)

    -- The drain thread's cell holds a published record, so it is not the one that is written.
    write_drained :
        (p : ℕ)
        → At n cells p (Sequence (p + 1))
        → p ≤ pos
        → pos < p + n
        → At n cells' p (Sequence (p + 1))
    write_drained p at hp hp' = At-modify_ne pos f other at
      where
        other : pos % n ≢ p % n
        other = elim (ℕ_discrete pos p) [
          | yes same ↦ two_positions at_pos at (omega arith)
          | no ne ↦ window_ne v.size p pos p hp hp' (omega arith) (omega (arith, v.two)) ne
        ]

    pub write-DrainOk : (d : Drain) → DrainOk n cells first next d → DrainOk n cells' first next d
    write-DrainOk top ok = tt
    write-DrainOk (got_pos p) ok = ok
    write-DrainOk saw_empty ok = tt
    write-DrainOk (logging p) ok =
        (ok.0, ok.1, write_drained p ok.2 (omega arith) (omega (arith, v.room)))
    write-DrainOk (storing p) ok =
        (ok.0, ok.1, write_drained p ok.2 (omega arith) (omega (arith, v.room)))
    write-DrainOk (freeing p) ok = (ok.0, ok.1, write_drained p ok.2 (omega arith) (omega arith))
    write-DrainOk closing ok = tt
    write-DrainOk ended ok = tt

-- The whole step of a producer that writes to its cell and goes on to `p`.
pub write-IsMpsc :
    {n : ℕ} (s : State) {claims : Claims}
    → IsMpsc n s claims
    → (i : ℕ) (c : Call) (pos : ℕ) (f : Cell → Cell) (p : Producer) → (P : Record → Type 0)
    → Writes n s.cells s.dequeue_pos s.enqueue_pos claims i c pos P
    → ((cell : Cell) → (cell.sequence ≡ pos) × P cell.payload → HeldCell pos c (f cell))
    → ((cell : Cell) → CellOk cell → CellOk (f cell))
    → ProducerOk n (modify s.cells (pos % n) f) s.dequeue_pos s.enqueue_pos claims i p
    → IsMpsc n (goto (at_cell s pos f) i p) claims
write-IsMpsc {n} s {claims} v i c pos f p P w new keep mover =
    let r = v.ring in
    let at_pos = At-weaken _ (Sequence pos) (λ cell h. h.0) w.at in
    let new_at = At-modify_self f (HeldCell pos c) new w.at in
    let cells_are : modify s.cells (bit_and pos s.mask) f ≡ modify s.cells (pos % n) f =
      ap (λ (k : ℕ). modify s.cells k f) (cell_index r pos) in
    record {
      ring = rw cells_are (write-IsRing r i c pos f w.from w.before w.claimed at_pos new_at keep);
      producers_ok = rw cells_are (
          update-cases
            (ProducerOk n (modify s.cells (pos % n) f) s.dequeue_pos s.enqueue_pos claims)
            s.producers i p mover
            (λ j ne.
              write-others r i c pos f w.from w.before w.claimed at_pos new_at keep j
                (s.producers j) ne (v.producers_ok j)));
      drain_ok = rw cells_are (
          write-DrainOk r i c pos f w.from w.before w.claimed at_pos new_at keep s.drain
            v.drain_ok);
      delivered = v.delivered;
      given_is = v.given_is;
    }
