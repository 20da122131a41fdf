-- ===== src/Logging/MpscRtLogger/Consume.antt =====
-- Each access of the drain thread keeps the invariant, and gives the sink the next claim's record.
use xm_sigma.Common.{ℕ, ◌+◌, ◌%◌, ◌^◌, ◌<◌, ◌≡◌, refl, sym, ◌∙◌, ap, subst, arith}
use xm_sigma.Common.{true, false, Bool-cases, inl, inr, bit_and, if◌then◌else◌, eq_of_==, u64}
use xm_sigma.Common.{
  List, [], ◌∷◌, length, get_elem?, modify, some, All-get_elem?, get_elem?_held, length-append,
}
use xm_sigma.Common.Indices.{index_in_range}
use xm_sigma.Logging.RtLogger.{entry_of}
use xm_sigma.Logging.MpscRtLogger.{Cell, State, drain_step, diff_is_zero, signed_place}
use xm_sigma.Logging.MpscRtLogger.{
  Drain, top, got_pos, saw_empty, logging, storing, freeing, closing, ended,
}
use xm_sigma.Logging.MpscRtLogger.Slots.{At}
use xm_sigma.Logging.MpscRtLogger.Invariant.{
  Claims, Sequence, DrainOk, ProducerOk, given, freed, CellOk, IsRing, IsMpsc,
}
use xm_sigma.Logging.MpscRtLogger.Locals.{Delivered-next}
use xm_sigma.Logging.MpscRtLogger.Write.{cell_index}
use xm_sigma.Logging.MpscRtLogger.Advance.{
  published_lt, published-IsRecord, store-IsRing, store-ProducerOk,
}
use xm_sigma.Logging.MpscRtLogger.Freeing.{free-IsRing, free-ProducerOk}

module _ {n : ℕ} (s : State) {claims : Claims} (v : IsMpsc n s claims)
    (small : s.enqueue_pos + n < 2 ^ 63) where
  up_to :
      (k : ℕ)
      → freed n s.drain s.dequeue_pos ≡ k
      → IsRing n s.capacity s.mask s.cells s.dequeue_pos k s.enqueue_pos claims
  up_to k same =
      subst (λ k. IsRing n s.capacity s.mask s.cells s.dequeue_pos k s.enqueue_pos claims) same
        v.ring

  -- An access that only moves the drain thread on.
  moves_on :
      (d : Drain)
      → DrainOk n s.cells s.dequeue_pos s.enqueue_pos d
      → length s.sink ≡ given d s.dequeue_pos
      → freed n s.drain s.dequeue_pos ≡ freed n d s.dequeue_pos
      → IsMpsc n (record s { drain = d }) claims
  moves_on d ok len same = record {
    ring = up_to (freed n d s.dequeue_pos) same;
    producers_ok = v.producers_ok;
    drain_ok = ok;
    delivered = v.delivered;
    given_is = len;
  }

  at_index :
      {p : ℕ} {P : Cell → Type 0} (at : At n s.cells p P)
      → get_elem? s.cells (bit_and p s.mask) ≡ some at.cell
  at_index {p} at = ap (get_elem? s.cells) (cell_index v.ring p) ∙ at.there

  next_pos : s.dequeue_pos < s.enqueue_pos → u64 (s.dequeue_pos + 1) ≡ s.dequeue_pos + 1
  next_pos lt = omega arith

  consume_got_pos :
      length s.sink ≡ s.dequeue_pos
      → freed n s.drain s.dequeue_pos ≡ s.dequeue_pos + n
      → IsMpsc n (drain_step (got_pos s.dequeue_pos) s) claims
  unfolding drain_step
  consume_got_pos len all =
      let p = s.dequeue_pos in
      let (cell, there) =
        get_elem?_held s.cells (bit_and p s.mask)
          (rw (cell_index v.ring p, v.ring.array) (index_in_range v.ring.size p)) in
      rw (there, drain_step)
        (elim (Bool-cases (diff_is_zero cell.sequence (u64 (p + 1)))) [
          | inl zero_diff ↦
              let at : At n s.cells p (Sequence (p + 1)) = record {
                cell = cell;
                there = ap (get_elem? s.cells) (sym (cell_index v.ring p)) ∙ there;
                fits = same cell there zero_diff;
              } in
              rw zero_diff (moves_on (logging p) (refl, published_lt v.ring at, at) len all)
          | inr other ↦ rw other (moves_on saw_empty tt len all)
        ])
    where
      same :
          (cell : Cell)
          → get_elem? s.cells (bit_and s.dequeue_pos s.mask) ≡ some cell
          → diff_is_zero cell.sequence (u64 (s.dequeue_pos + 1)) ≡ true
          → cell.sequence ≡ s.dequeue_pos + 1
      same cell there e =
          let ok =
            All-get_elem? CellOk s.cells (bit_and s.dequeue_pos s.mask) v.ring.cells_ok there in
          omega (
            arith,
            eq_of_== (signed_place cell.sequence) (signed_place (u64 (s.dequeue_pos + 1))) e,
            ok.1,
            v.ring.order,
          )

  consume_logging :
      length s.sink ≡ s.dequeue_pos
      → DrainOk n s.cells s.dequeue_pos s.enqueue_pos (logging s.dequeue_pos)
      → freed n s.drain s.dequeue_pos ≡ s.dequeue_pos + n
      → IsMpsc n (drain_step (logging s.dequeue_pos) s) claims
  unfolding drain_step
  consume_logging len ok all =
      let (i, c, claimed, rec) = published-IsRecord v.ring ok.2 ok.1 in
      rw (at_index ok.2, drain_step)
        (record {
          ring = up_to (s.dequeue_pos + n) all;
          producers_ok = v.producers_ok;
          drain_ok = ok;
          delivered =
              Delivered-next claims s.sink (entry_of ok.2.cell.payload) i c
                (ap (get_elem? claims) len ∙ claimed) rec v.delivered;
          given_is = omega (arith, length-append s.sink (entry_of ok.2.cell.payload ∷ []));
        })

  consume_storing :
      length s.sink ≡ s.dequeue_pos + 1
      → DrainOk n s.cells s.dequeue_pos s.enqueue_pos (storing s.dequeue_pos)
      → freed n s.drain s.dequeue_pos ≡ s.dequeue_pos + n
      → IsMpsc n (drain_step (storing s.dequeue_pos) s) claims
  unfolding drain_step
  consume_storing len ok all = rw (next_pos ok.1) (record {
    ring = store-IsRing (up_to (s.dequeue_pos + n) all) ok.1 ok.2 refl;
    producers_ok = λ i. store-ProducerOk v.ring ok.1 ok.2 i (s.producers i) (v.producers_ok i);
    drain_ok = (refl, v.ring.room, ok.2);
    delivered = v.delivered;
    given_is = len;
  })

  consume_freeing :
      (p : ℕ)
      → length s.sink ≡ s.dequeue_pos
      → DrainOk n s.cells s.dequeue_pos s.enqueue_pos (freeing p)
      → freed n s.drain s.dequeue_pos ≡ p + n
      → IsMpsc n (drain_step (freeing p) s) claims
  unfolding drain_step
  consume_freeing p len ok all =
      let ring =
        subst (λ k. IsRing n s.capacity s.mask s.cells k (p + n) s.enqueue_pos claims) ok.0
          (up_to (p + n) all) in
      let fits : p + n < 2 ^ 63 = omega (arith, v.ring.order, ok.0) in
      rw cells_are (record {
        ring =
            subst (λ k. IsRing n s.capacity s.mask (freed_cells) k (k + n) s.enqueue_pos claims)
              (sym ok.0) (free-IsRing p ring ok.1 ok.2 fits);
        producers_ok = λ i.
            subst (λ k. ProducerOk n freed_cells k s.enqueue_pos claims i (s.producers i))
              (sym ok.0)
              (free-ProducerOk p ring ok.1 ok.2 fits i (s.producers i) (
                subst (λ k. ProducerOk n s.cells k s.enqueue_pos claims i (s.producers i)) ok.0
                  (v.producers_ok i)));
        drain_ok = tt;
        delivered = v.delivered;
        given_is = len;
      })
    where
      freed_cells : List Cell
      freed_cells = modify s.cells (p % n) (λ cell. record cell { sequence = p + n })

      sequence_is : u64 (p + s.mask + 1) ≡ p + n
      sequence_is = omega (arith, v.ring.mask_is, v.ring.two, v.ring.order, ok.0)

      cells_are :
          modify s.cells
            (bit_and p s.mask)
            (λ cell. record cell { sequence = u64 (p + s.mask + 1) })
          ≡ freed_cells
      cells_are =
          ap (λ (k : ℕ). modify s.cells k (λ cell. record cell { sequence = u64 (p + s.mask + 1) }))
            (cell_index v.ring p)
          ∙ ap (λ (q : ℕ). modify s.cells (p % n) (λ cell. record cell { sequence = q }))
              sequence_is

  limit_at : {d : Drain} → s.drain ≡ d → freed n s.drain s.dequeue_pos ≡ freed n d s.dequeue_pos
  limit_at e = ap (λ (d : Drain). freed n d s.dequeue_pos) e

  -- Any access of the drain thread, from a state that its locals fit.
  pub consume_any :
      (d : Drain)
      → DrainOk n s.cells s.dequeue_pos s.enqueue_pos d
      → length s.sink ≡ given d s.dequeue_pos
      → s.drain ≡ d
      → IsMpsc n (drain_step d s) claims
  consume_any top ok len e =
      unfold drain_step in moves_on (got_pos s.dequeue_pos) refl len (limit_at e)
  consume_any (got_pos p) ok len e = rw ok (consume_got_pos len (limit_at e))
  consume_any saw_empty ok len e =
      unfold drain_step in
      (elim s.running
        as (λ b.
          IsMpsc n (if b then record s { drain = top } else record s { drain = closing }) claims) [
            | true ↦ moves_on top tt len (limit_at e)
            | false ↦ moves_on closing tt len (limit_at e)
          ])
  consume_any (logging p) ok len e = rw ok.0 (consume_logging len (rw ok.0 at ok) (limit_at e))
  consume_any (storing p) ok len e = rw ok.0 (consume_storing len (rw ok.0 at ok) (limit_at e))
  consume_any (freeing p) ok len e = consume_freeing p len ok (limit_at e)
  consume_any closing ok len e =
      unfold drain_step in
      record {
        ring = up_to (s.dequeue_pos + n) (limit_at e);
        producers_ok = v.producers_ok;
        drain_ok = tt;
        delivered = v.delivered;
        given_is = len;
      }
  consume_any ended ok len e = unfold drain_step in v
