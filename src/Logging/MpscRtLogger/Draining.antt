-- ===== src/Logging/MpscRtLogger/Draining.antt =====
-- The drain thread when no producer is in `Log`: what it has left to do once `running_` is false,
-- and that it comes to an end with the ring empty.
use xm_sigma.Common.{
  ℕ, zero, suc, ◌+◌, ◌-◌, ◌*◌, ◌^◌, ◌≤◌, ◌<◌, ◌≡◌, refl, sym, ◌∙◌, ap, subst, arith,
}
use xm_sigma.Common.{List, length, get_elem?, some, none, false, true, inl, inr, dec_lt}
use xm_sigma.Common.{Bool-cases, append-nil, bit_and, ==_self, get_elem?_held, u64}
use xm_sigma.Common.Indices.{index_in_range}
use xm_sigma.Logging.RtLogger.{Entry}
use xm_sigma.Logging.MpscRtLogger.{Cell, State, Producer, consume, step, run, idle}
use xm_sigma.Logging.MpscRtLogger.{
  Drain, top, got_pos, saw_empty, logging, storing, freeing, closing, ended, drain_step,
}
use xm_sigma.Logging.MpscRtLogger.{diff_is_zero, signed_place}
use xm_sigma.Logging.MpscRtLogger.Slots.{At}
use xm_sigma.Logging.MpscRtLogger.Invariant.{
  Claims, Sequence, HeldCell, DrainOk, Delivered, given, IsMpsc, writing,
}
use xm_sigma.Logging.MpscRtLogger.Write.{cell_index}
use xm_sigma.Logging.MpscRtLogger.Steps.{step-IsMpsc}
use xm_sigma.Logging.MpscRtLogger.SingleCell.{consumes}
use xm_sigma.Logging.MpscRtLogger.Pending.{IsPending}
use xm_sigma.Logging.MpscRtLogger.Pending.Steps.{step-IsPending}

abbrev pub AllIdle : (ℕ → Producer) → Type 0
AllIdle producers = (i : ℕ) → producers i ≡ idle

-- How many claimed positions the drain thread has not passed.
unfoldable pub behind : State → ℕ
behind s = s.enqueue_pos - s.dequeue_pos

module _ {n : ℕ} (s : State) {claims : Claims} (v : IsMpsc n s claims) (h : IsPending n s claims)
    (still : AllIdle s.producers) (small : s.enqueue_pos + n < 2 ^ 63) where
  -- The cell of a claimed position has been published.
  settled : (p : ℕ) → s.dequeue_pos ≤ p → p < s.enqueue_pos → At n s.cells p (Sequence (p + 1))
  settled p lo hi =
      let held = v.ring.held p lo hi in
      record { cell = held.at.cell; there = held.at.there; fits = by_case held.at.fits }
    where
      by_case :
          HeldCell p (v.ring.held p lo hi).call (v.ring.held p lo hi).at.cell
          → (v.ring.held p lo hi).at.cell.sequence ≡ p + 1
      by_case (inr done) = done.0
      by_case (inl same) =
          let held = v.ring.held p lo hi in
          let filling =
            h p held.owner held.call lo hi held.claimed
              (record { cell = held.at.cell; there = held.at.there; fits = same }) in
          let none_there = still held.owner in
          let bad : none ≡ some p = ap writing (sym none_there) ∙ filling in cc

  -- The test of the drain thread finds an empty ring only when the ring is empty.
  pub empty_seen :
      (cell : Cell)
      → get_elem? s.cells (bit_and s.dequeue_pos s.mask) ≡ some cell
      → diff_is_zero cell.sequence (u64 (s.dequeue_pos + 1)) ≡ false
      → s.enqueue_pos - s.dequeue_pos ≡ 0
  empty_seen cell there other = elim (dec_lt s.dequeue_pos s.enqueue_pos) [
    | no ge ↦ omega (arith, ge)
    | yes lt ↦
        let at = settled s.dequeue_pos (omega arith) lt in
        let again : get_elem? s.cells (bit_and s.dequeue_pos s.mask) ≡ some at.cell =
          ap (get_elem? s.cells) (cell_index v.ring s.dequeue_pos) ∙ at.there in
        let same : cell ≡ at.cell = cc in
        let is_next : cell.sequence ≡ u64 (s.dequeue_pos + 1) =
          ap (λ (c : Cell). c.sequence) same ∙ at.fits ∙ omega arith in
        let zero_diff : diff_is_zero cell.sequence (u64 (s.dequeue_pos + 1)) ≡ true =
          ap (λ (k : ℕ). diff_is_zero k (u64 (s.dequeue_pos + 1))) is_next
          ∙ ==_self (signed_place (u64 (s.dequeue_pos + 1))) in
        let bad : true ≡ false = sym zero_diff ∙ other in cc
  ]

-- What the drain thread has left to do once `running_` is false.
abbrev pub todo : Drain → ℕ → ℕ
todo top len = 5 * len + 4
todo (got_pos p) len = 5 * len + 3
todo (logging p) len = 5 * len + 2
todo (storing p) len = 5 * len + 1
todo (freeing p) len = 5 * len + 5
todo saw_empty len = 2
todo closing len = 1
todo ended len = 0

-- Behind the test nothing waits, and at the end all was flushed.
abbrev pub Ready : Drain → ℕ → ℕ → List Entry → Type 0
Ready top len flushed sink = Unit
Ready (got_pos p) len flushed sink = Unit
Ready (logging p) len flushed sink = Unit
Ready (storing p) len flushed sink = Unit
Ready (freeing p) len flushed sink = Unit
Ready saw_empty len flushed sink = len ≡ 0
Ready closing len flushed sink = len ≡ 0
Ready ended len flushed sink = (len ≡ 0) × (flushed ≡ length sink)

pub record Stopped (s : State) (bound : ℕ) : Type 0 where
  pub still : AllIdle s.producers
  pub off : s.running ≡ false
  pub ready : Ready s.drain (behind s) s.flushed s.sink
  pub soon : todo s.drain (behind s) ≤ bound

module _ {n : ℕ} (s : State) {claims : Claims} (v : IsMpsc n s claims) (h : IsPending n s claims)
    (small : s.enqueue_pos + n < 2 ^ 63) (bound : ℕ) (still : AllIdle s.producers)
    (off : s.running ≡ false) where
  got_pos-Stopped :
      todo (got_pos s.dequeue_pos) (behind s) ≤ suc bound
      → Stopped (drain_step (got_pos s.dequeue_pos) s) bound
  unfolding drain_step behind
  got_pos-Stopped soon =
      let (cell, there) = get_elem?_held s.cells (bit_and s.dequeue_pos s.mask) (
        rw (cell_index v.ring s.dequeue_pos, v.ring.array)
          (index_in_range v.ring.size s.dequeue_pos)) in
      rw (there, drain_step)
        (elim (Bool-cases (diff_is_zero cell.sequence (u64 (s.dequeue_pos + 1)))) [
          | inl zero_diff ↦
              rw zero_diff (record { still = still; off = off; ready = tt; soon = omega arith })
          | inr other ↦ rw other (record {
            still = still;
            off = off;
            ready = empty_seen s v h still small cell there other;
            soon = omega arith;
          })
        ])

  drain_step-Stopped :
      (d : Drain)
      → DrainOk n s.cells s.dequeue_pos s.enqueue_pos d
      → s.drain ≡ d
      → Ready d (behind s) s.flushed s.sink
      → todo d (behind s) ≤ suc bound
      → Stopped (drain_step d s) bound
  unfolding drain_step behind
  drain_step-Stopped top ok e ready soon = record {
    still = still;
    off = off;
    ready = tt;
    soon = omega arith;
  }
  drain_step-Stopped (got_pos p) ok e ready soon = rw ok (got_pos-Stopped soon)
  drain_step-Stopped saw_empty ok e ready soon =
      rw off (record { still = still; off = refl; ready = ready; soon = omega arith })
  drain_step-Stopped (logging p) ok e ready soon =
      rw (cell, drain_step) (record { still = still; off = off; ready = tt; soon = omega arith })
    where
      cell : get_elem? s.cells (bit_and p s.mask) ≡ some ok.2.cell
      cell = ap (get_elem? s.cells) (cell_index v.ring p) ∙ ok.2.there
  drain_step-Stopped (storing p) ok e ready soon = record {
    still = still;
    off = off;
    ready = tt;
    soon = omega (arith, ok.0, ok.1);
  }
  drain_step-Stopped (freeing p) ok e ready soon = record {
    still = still;
    off = off;
    ready = tt;
    soon = omega arith;
  }
  drain_step-Stopped closing ok e ready soon = record {
    still = still;
    off = off;
    ready = (ready, refl);
    soon = omega arith;
  }
  drain_step-Stopped ended ok e ready soon = record {
    still = still;
    off = off;
    ready = subst (λ d'. Ready d' (behind s) s.flushed s.sink) (sym e) ready;
    soon = subst (λ d'. todo d' (behind s) ≤ bound) (sym e) (omega arith);
  }

-- What is left once the drain thread has ended.
abbrev pub Finished : State → Claims → Type 0
Finished s claims =
    (s.drain ≡ ended)
    × Delivered claims s.sink
    × (length s.sink ≡ length claims)
    × (s.flushed ≡ length s.sink)

finished :
    {n : ℕ} (s : State) (claims : Claims) (d : Drain)
    → IsMpsc n s claims
    → d ≡ s.drain
    → Ready d (behind s) s.flushed s.sink
    → todo d (behind s) ≤ 0
    → Finished s claims
unfolding behind
finished s claims ended v e ready le = (
  sym e,
  v.delivered,
  omega (arith, v.given_is, ap (λ d. given d s.dequeue_pos) e, v.ring.count, v.ring.order, ready.0),
  ready.1,
)
finished s claims d v e ready le = absurd (omega arith)

pub drains :
    {n : ℕ} (k : ℕ) (s : State) (claims : Claims)
    → s.enqueue_pos + n < 2 ^ 63
    → IsMpsc n s claims
    → IsPending n s claims
    → Stopped s k
    → Finished (run s (consumes k)) claims
unfolding run
drains {n} zero s claims small v h stopped =
    finished s claims s.drain v refl stopped.ready stopped.soon
drains {n} (suc k) s claims small v h stopped =
    let v' : IsMpsc n (step s consume) claims =
      rw (← append-nil claims) (step-IsMpsc s consume claims small v) in
    drains k (step s consume) claims (omega (arith, v.ring.count, v'.ring.count)) v'
      (rw (← append-nil claims) (step-IsPending s consume claims small v h))
      (unfold step in
        drain_step-Stopped s v h small k stopped.still stopped.off s.drain v.drain_ok refl
          stopped.ready stopped.soon)
