-- ===== src/Logging/MpscRtLogger/Growth.antt =====
-- What the accesses of the producers and of the drain thread leave to the thread that flushes.
use xm_sigma.Common.{ℕ, ◌+◌, ◌^◌, ◌≤◌, ◌<◌, ◌≡◌, refl, arith}
use xm_sigma.Common.{List, [], ◌∷◌, length, length-append, get_elem?, Option, some, none}
use xm_sigma.Common.{Bool, true, false, ◌==◌, if◌then◌else◌, u64}
use xm_sigma.Common.{bit_and}
use xm_sigma.Logging.Level.{LogLevel, below}
use xm_sigma.Logging.RtLogger.{Call, entry_of}
use xm_sigma.Logging.MpscRtLogger.{Cell, State, try_cell, claim, log_step}
use xm_sigma.Logging.MpscRtLogger.{drain_step, begin_log, diff_is_zero}
use xm_sigma.Logging.MpscRtLogger.{diff_is_negative}
use xm_sigma.Logging.MpscRtLogger.{Producer, idle, called, loading, trying, claiming}
use xm_sigma.Logging.MpscRtLogger.{dropping, set_time, set_level, set_text, publish}
use xm_sigma.Logging.MpscRtLogger.{
  Drain, top, got_pos, saw_empty, logging, storing, freeing, closing, ended,
}
use xm_sigma.Logging.MpscRtLogger.Invariant.{DrainOk}

-- An access of another thread than the one that flushes: the sink, the records taken from the
-- ring and those flushed only grow.
pub record Grows (s s' : State) : Type 0 where
  pub more : length s.sink ≤ length s'.sink
  pub further : s.dequeue_pos ≤ s'.dequeue_pos
  pub same : s'.flusher ≡ s.flusher
  pub out : s.flushed ≤ length s.sink → s.flushed ≤ s'.flushed
  pub shown : s.flushed ≤ length s.sink → s'.flushed ≤ length s'.sink

module _ (s : State) where
  pub quiet :
      (cells : List Cell) (level : LogLevel) (pos count : ℕ) (on : Bool) (ps : ℕ → Producer)
      → (d : Drain)
      → Grows s (record s {
        cells = cells;
        min_level = level;
        enqueue_pos = pos;
        dropped = count;
        running = on;
        producers = ps;
        drain = d;
      })
  quiet cells level pos count on ps d = record {
    more = omega arith;
    further = omega arith;
    same = refl;
    out = λ h. omega arith;
    shown = λ h. h;
  }

  stays : Grows s s
  stays = quiet s.cells s.min_level s.enqueue_pos s.dropped s.running s.producers s.drain

  moves : (ps : ℕ → Producer) → Grows s (record s { producers = ps })
  moves ps = quiet s.cells s.min_level s.enqueue_pos s.dropped s.running ps s.drain

  writes :
      (cells : List Cell) (ps : ℕ → Producer) → Grows s (record s { cells = cells; producers = ps })
  writes cells ps = quiet cells s.min_level s.enqueue_pos s.dropped s.running ps s.drain

  drains : (d : Drain) → Grows s (record s { drain = d })
  drains d = quiet s.cells s.min_level s.enqueue_pos s.dropped s.running s.producers d

  Grows-if : (b : Bool) (x y : State) → Grows s x → Grows s y → Grows s (if b then x else y)
  Grows-if true x y gx gy = gx
  Grows-if false x y gx gy = gy

  try_cell-Grows : (i : ℕ) (c : Call) (pos seq : ℕ) → Grows s (try_cell i c pos seq s)
  unfolding try_cell
  try_cell-Grows i c pos seq =
      Grows-if (diff_is_zero seq pos) _ _ (moves _)
        (Grows-if (diff_is_negative seq pos) _ _ (moves _) (moves _))

  trying-Grows :
      (i now : ℕ) (spurious : Bool) (c : Call) (pos : ℕ) (o : Option Cell)
      → get_elem? s.cells (bit_and pos s.mask) ≡ o
      → Grows s (log_step i now spurious (trying c pos) s)
  unfolding log_step
  trying-Grows i now spurious c pos none e = rw (e, log_step) stays
  trying-Grows i now spurious c pos (some cell) e =
      rw (e, log_step) (try_cell-Grows i c pos cell.sequence)

  claim-Grows : (i : ℕ) (spurious : Bool) (c : Call) (pos : ℕ) → Grows s (claim i spurious c pos s)
  unfolding claim
  claim-Grows i spurious c pos = Grows-if spurious _ _ (moves _) (
      Grows-if (s.enqueue_pos == pos) _ _
        (quiet s.cells s.min_level (u64 (pos + 1)) s.dropped s.running _ s.drain) (moves _))

  pub log_step-Grows :
      (i now : ℕ) (spurious : Bool) (p : Producer) → Grows s (log_step i now spurious p s)
  log_step-Grows i now spurious idle = unfold log_step in stays
  log_step-Grows i now spurious (called c) =
      unfold log_step in Grows-if (below c.level s.min_level) _ _ (moves _) (moves _)
  log_step-Grows i now spurious (loading c) = unfold log_step in moves _
  log_step-Grows i now spurious (trying c pos) = trying-Grows i now spurious c pos _ refl
  log_step-Grows i now spurious (claiming c pos) = unfold log_step in claim-Grows i spurious c pos
  log_step-Grows i now spurious dropping =
      unfold log_step in
      quiet s.cells s.min_level s.enqueue_pos (u64 (s.dropped + 1)) s.running _ s.drain
  log_step-Grows i now spurious (set_time c pos) = unfold log_step in writes _ _
  log_step-Grows i now spurious (set_level c pos t) = unfold log_step in writes _ _
  log_step-Grows i now spurious (set_text c pos t) = unfold log_step in writes _ _
  log_step-Grows i now spurious (publish c pos t) = unfold log_step in writes _ _

  pub begin_log-Grows : (i : ℕ) (c : Call) (p : Producer) → Grows s (begin_log i c p s)
  unfolding begin_log
  begin_log-Grows i c idle = moves _
  begin_log-Grows i c p = stays

  pub drain_step-Grows :
      (n : ℕ) (d : Drain)
      → s.enqueue_pos + n < 2 ^ 63
      → DrainOk n s.cells s.dequeue_pos s.enqueue_pos d
      → Grows s (drain_step d s)
  drain_step-Grows n top small ok = unfold drain_step in drains _
  drain_step-Grows n (got_pos p) small ok = from_cell _ refl
    where
      from_cell :
          (o : Option Cell)
          → get_elem? s.cells (bit_and p s.mask) ≡ o
          → Grows s (drain_step (got_pos p) s)
      from_cell none e = unfold drain_step in rw (e, drain_step) stays
      from_cell (some cell) e =
          unfold drain_step in
          rw (e, drain_step)
            (Grows-if (diff_is_zero cell.sequence (u64 (p + 1))) _ _ (drains _) (drains _))
  drain_step-Grows n saw_empty small ok =
      unfold drain_step in Grows-if s.running _ _ (drains _) (drains _)
  drain_step-Grows n (logging p) small ok = from_cell _ refl
    where
      from_cell :
          (o : Option Cell)
          → get_elem? s.cells (bit_and p s.mask) ≡ o
          → Grows s (drain_step (logging p) s)
      from_cell none e = unfold drain_step in rw (e, drain_step) stays
      from_cell (some cell) e =
          let len = length-append s.sink (entry_of cell.payload ∷ []) in
          unfold drain_step in
          rw (e, drain_step)
            (record {
              more = omega (arith, len);
              further = omega arith;
              same = refl;
              out = λ h. omega arith;
              shown = λ h. omega (arith, len);
            })
  drain_step-Grows n (storing p) small ok =
      unfold drain_step in
      record {
        more = omega arith;
        further = omega (arith, ok.0, ok.1);
        same = refl;
        out = λ h. omega arith;
        shown = λ h. h;
      }
  drain_step-Grows n (freeing p) small ok =
      unfold drain_step in quiet _ s.min_level s.enqueue_pos s.dropped s.running s.producers top
  drain_step-Grows n closing small ok =
      unfold drain_step in
      record {
        more = omega arith;
        further = omega arith;
        same = refl;
        out = λ h. h;
        shown = λ h. omega arith;
      }
  drain_step-Grows n ended small ok = unfold drain_step in stays
