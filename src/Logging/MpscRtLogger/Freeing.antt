-- ===== src/Logging/MpscRtLogger/Freeing.antt =====
-- The drain thread's store that frees a cell for the position `n` further on.
use xm_sigma.Common.{ℕ, ◌+◌, ◌%◌, ◌^◌, ◌≤◌, ◌<◌, ◌≡◌, ◌≢◌, refl, ◌∙◌, ap, subst, arith}
use xm_sigma.Common.{List, get_elem?, modify, dec_lt, ℕ_discrete}
use xm_sigma.Common.{length-modify, All-modify}
use xm_sigma.Common.Indices.{index_again}
use xm_sigma.Logging.MpscRtLogger.{Cell, Producer}
use xm_sigma.Logging.MpscRtLogger.Slots.{At, At-modify_ne, At-modify_self, window_ne}
use xm_sigma.Logging.MpscRtLogger.Invariant.{Claims, Sequence, ProducerOk, CellOk, IsRing}
use xm_sigma.Logging.MpscRtLogger.Locals.{ProducerOk-keep}
use xm_sigma.Logging.MpscRtLogger.Write.{two_positions}

module _ {n capacity mask : ℕ} {cells : List Cell} {next : ℕ} {claims : Claims} (p : ℕ)
    (v : IsRing n capacity mask cells (p + 1) (p + n) next claims) (hi : next ≤ p + n)
    (at : At n cells p (Sequence (p + 1))) (small : p + n < 2 ^ 63) where
  abbrev freed_cell : Cell → Cell
  freed_cell cell = record cell { sequence = p + n }

  abbrev cells' : List Cell
  cells' = modify cells (p % n) freed_cell

  apart : (q : ℕ) → p + 1 ≤ q → q < p + n → p % n ≢ q % n
  apart q hq hq' =
      window_ne v.size p p q (omega arith) (omega (arith, v.two)) (omega arith) hq' (omega arith)

  around : At n cells' (p + n) (Sequence (p + n))
  around =
      let new = At-modify_self freed_cell (Sequence (p + n)) (λ cell h. refl) at in
      record {
        cell = new.cell;
        there = ap (get_elem? cells') (index_again v.size p) ∙ new.there;
        fits = new.fits;
      }

  pub free-IsRing : IsRing n capacity mask cells' (p + 1) (p + 1 + n) next claims
  free-IsRing = record {
    size = v.size;
    two = v.two;
    capacity_is = v.capacity_is;
    mask_is = v.mask_is;
    array = length-modify cells (p % n) freed_cell ∙ v.array;
    cells_ok = All-modify CellOk freed_cell (λ cell h. (h.0, small)) cells (p % n) v.cells_ok;
    count = v.count;
    order = v.order;
    room = v.room;
    held = λ q hq hq'.
        let h = v.held q hq hq' in
        record {
          owner = h.owner;
          call = h.call;
          claimed = h.claimed;
          at = At-modify_ne p freed_cell (apart q hq (omega arith)) h.at;
        };
    limit_lo = omega arith;
    limit_hi = omega arith;
    free = λ q hq hq'. elim (dec_lt q (p + n)) [
      | yes old ↦ At-modify_ne p freed_cell (apart q (omega (arith, v.order)) old) (v.free q hq old)
      | no last ↦
          let e : p + n ≡ q = omega arith in subst (λ k. At n cells' k (Sequence k)) e around
    ];
  }

  pub free-ProducerOk :
      (i : ℕ) (pc : Producer)
      → ProducerOk n cells (p + 1) next claims i pc
      → ProducerOk n cells' (p + 1) next claims i pc
  free-ProducerOk i pc ok =
      ProducerOk-keep i pc (omega arith)
        (λ q le h e. At-modify_ne p freed_cell (other q e (h e)) (h e))
        (λ q c P w. record {
          from = w.from;
          before = w.before;
          claimed = w.claimed;
          at = At-modify_ne p freed_cell (apart q w.from (omega (arith, w.before))) w.at;
        })
        ok
    where
      other : (q : ℕ) → q ≡ next → At n cells q (Sequence q) → p % n ≢ q % n
      other q e new = elim (ℕ_discrete q (p + 1)) [
        | yes first ↦ apart q (omega arith) (omega (arith, v.two))
        | no later ↦ two_positions v at new (omega arith)
      ]
