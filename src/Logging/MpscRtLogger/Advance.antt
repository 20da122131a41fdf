-- ===== src/Logging/MpscRtLogger/Advance.antt =====
-- What the drain thread knows of a published cell, and its store to `dequeue_pos_`.
use xm_sigma.Common.{ℕ, ◌+◌, ◌%◌, ◌<◌, ◌≡◌, ◌≢◌, refl, ◌∙◌, ap, subst, arith}
use xm_sigma.Common.{inl, inr, dec_lt}
use xm_sigma.Common.{List, get_elem?, some}
use xm_sigma.Logging.RtLogger.{Call, entry_of}
use xm_sigma.Logging.MpscRtLogger.{Cell, Producer}
use xm_sigma.Logging.MpscRtLogger.Slots.{At, At-same, At-weaken}
use xm_sigma.Logging.MpscRtLogger.Invariant.{
  Claims, Sequence, HeldCell, Held, IsRecord, ProducerOk, IsRing,
}
use xm_sigma.Logging.MpscRtLogger.Locals.{ProducerOk-keep}
use xm_sigma.Logging.MpscRtLogger.Write.{two_positions}

module _ {n capacity mask : ℕ} {cells : List Cell} {first limit next : ℕ} {claims : Claims}
    (v : IsRing n capacity mask cells first limit next claims) where
  -- A cell whose sequence says that it is published has been claimed.
  pub published_lt : At n cells first (Sequence (first + 1)) → first < next
  published_lt at = elim (dec_lt first next) [
    | yes lt ↦ lt
    | no ge ↦
        let f = v.free first (omega arith) (omega (arith, v.limit_lo, v.two)) in
        absurd (omega (arith, f.fits, at.fits, ap (λ (c : Cell). c.sequence) (At-same f at refl)))
  ]

  -- The record in a published cell is the one of the call that claimed it.
  pub published-IsRecord :
      (at : At n cells first (Sequence (first + 1)))
      → first < next
      → (i : ℕ) × (c : Call) × (get_elem? claims first ≡ some (i, c))
        × IsRecord c (entry_of at.cell.payload)
  published-IsRecord at lt =
      let h = v.held first (omega arith) lt in
      let same : h.at.cell ≡ at.cell = At-same h.at at refl in
      (
        h.owner,
        h.call,
        h.claimed,
        subst (λ (c : Cell). IsRecord h.call (entry_of c.payload)) same (record_in h at),
      )
    where
      record_in :
          (h : Held n cells claims first)
          → At n cells first (Sequence (first + 1))
          → IsRecord h.call (entry_of h.at.cell.payload)
      record_in h at = pick h.at.fits
        where
          same : h.at.cell.sequence ≡ first + 1
          same = ap (λ (c : Cell). c.sequence) (At-same h.at at refl) ∙ at.fits

          pick : HeldCell first h.call h.at.cell → IsRecord h.call (entry_of h.at.cell.payload)
          pick (inl e) = absurd (omega (arith, same))
          pick (inr e) = e.1

  -- `dequeue_pos_` moves on over a published cell.
  module _ (lt : first < next) (at : At n cells first (Sequence (first + 1))) where
    pub store-IsRing :
        limit ≡ first + n → IsRing n capacity mask cells (first + 1) limit next claims
    store-IsRing all = record {
      size = v.size;
      two = v.two;
      capacity_is = v.capacity_is;
      mask_is = v.mask_is;
      array = v.array;
      cells_ok = v.cells_ok;
      count = v.count;
      order = omega arith;
      room = omega (arith, v.room);
      held = λ p hp hp'. v.held p (omega arith) hp';
      limit_lo = omega (arith, all);
      limit_hi = omega (arith, all);
      free = v.free;
    }

    pub store-ProducerOk :
        (i : ℕ) (p : Producer)
        → ProducerOk n cells first next claims i p
        → ProducerOk n cells (first + 1) next claims i p
    store-ProducerOk i p ok =
        ProducerOk-keep i p (omega arith) (λ q le h e. h e)
          (λ q c P w.
            let ne : first ≢ q = λ e.
              two_positions v at (At-weaken _ (Sequence q) (λ cell h. h.0) w.at) (omega arith)
                (ap (λ (k : ℕ). k % n) e) in
            record {
              from = omega (arith, w.from, ne);
              before = w.before;
              claimed = w.claimed;
              at = w.at;
            })
          ok
