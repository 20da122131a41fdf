-- ===== src/Logging/MpscRtLogger/Accounts/Drops.antt =====
-- What the accesses do to the count of drops, and that the drain thread and `Flush` leave the
-- producers alone.
use xm_sigma.Common.{ℕ, ◌+◌, ◌≡◌, refl, arith, u64}
use xm_sigma.Common.{Bool, ◌==◌}
use xm_sigma.Common.{get_elem?, Option, some, none, bit_and}
use xm_sigma.Logging.Level.{below}
use xm_sigma.Logging.RtLogger.{Call, Flusher, away, compare_head}
use xm_sigma.Logging.MpscRtLogger.{
  Cell, State, Event, log, produce, consume, flush, flush_on, change_level, stop, step,
}
use xm_sigma.Logging.MpscRtLogger.{log_step, try_cell, claim, begin_log, begin_flush}
use xm_sigma.Logging.MpscRtLogger.{drain_step, flush_step, diff_is_zero, diff_is_negative}
use xm_sigma.Logging.MpscRtLogger.{Producer, idle, called, trying, claiming}
use xm_sigma.Logging.MpscRtLogger.{dropping}
use xm_sigma.Logging.MpscRtLogger.{Drain, got_pos, saw_empty, logging}
use xm_sigma.Logging.MpscRtLogger.Accounts.{either, dropped_by, dropped_any}

-- What the accesses change of the count of drops.
module _ (s : State) where
  abbrev Kept : State → Type 0
  Kept s' = s'.dropped ≡ s.dropped

  log_step-Kept :
      (i now : ℕ) (spurious : Bool) (p : Producer)
      → dropped_by p ≡ 0
      → Kept (log_step i now spurious p s)
  unfolding log_step try_cell claim
  log_step-Kept i now spurious (called c) e = either Kept (below c.level s.min_level) _ _ refl refl
  log_step-Kept i now spurious (trying c pos) e = from_cell _ refl
    where
      from_cell :
          (o : Option Cell)
          → get_elem? s.cells (bit_and pos s.mask) ≡ o
          → Kept (log_step i now spurious (trying c pos) s)
      from_cell none e = rw (e, log_step) refl
      from_cell (some cell) e =
          rw (e, log_step)
            (either Kept (diff_is_zero cell.sequence pos) _ _ refl
              (either Kept (diff_is_negative cell.sequence pos) _ _ refl refl))
  log_step-Kept i now spurious (claiming c pos) e =
      either Kept spurious _ _ refl (either Kept (s.enqueue_pos == pos) _ _ refl refl)
  log_step-Kept i now spurious dropping e = absurd (omega (arith, e))
  log_step-Kept i now spurious p e = refl

  -- The drain thread and `Flush` leave the producers and the count alone.
  abbrev Aside : State → Type 0
  Aside s' = (s'.producers ≡ s.producers) × (s'.dropped ≡ s.dropped)

  pub drain_step-Aside : (d : Drain) → Aside (drain_step d s)
  unfolding drain_step
  drain_step-Aside (got_pos p) = from_cell _ refl
    where
      from_cell :
          (o : Option Cell)
          → get_elem? s.cells (bit_and p s.mask) ≡ o
          → Aside (drain_step (got_pos p) s)
      from_cell none e = rw (e, drain_step) (refl, refl)
      from_cell (some cell) e =
          rw (e, drain_step)
            (either Aside (diff_is_zero cell.sequence (u64 (p + 1))) _ _ (refl, refl) (refl, refl))
  drain_step-Aside saw_empty = either Aside s.running _ _ (refl, refl) (refl, refl)
  drain_step-Aside (logging p) = from_cell _ refl
    where
      from_cell :
          (o : Option Cell)
          → get_elem? s.cells (bit_and p s.mask) ≡ o
          → Aside (drain_step (logging p) s)
      from_cell none e = rw (e, drain_step) (refl, refl)
      from_cell (some cell) e = rw (e, drain_step) (refl, refl)
  drain_step-Aside d = (refl, refl)

  pub flush_step-Aside : (f : Flusher) → Aside (flush_step f s)
  unfolding flush_step
  flush_step-Aside (compare_head pos) =
      either Aside (pos == s.enqueue_pos) _ _ (refl, refl) (refl, refl)
  flush_step-Aside f = (refl, refl)

  pub begin_flush-Aside : (f : Flusher) → Aside (begin_flush f s)
  unfolding begin_flush
  begin_flush-Aside away = (refl, refl)
  begin_flush-Aside f = (refl, refl)

  begin_log-Kept : (i : ℕ) (c : Call) (p : Producer) → Kept (begin_log i c p s)
  unfolding begin_log
  begin_log-Kept i c idle = refl
  begin_log-Kept i c p = refl

  log_step_drops :
      (i now : ℕ) (spurious : Bool) (p : Producer) (count : ℕ)
      → s.dropped ≡ u64 count
      → (log_step i now spurious p s).dropped ≡ u64 (count + dropped_by p)
  log_step_drops i now spurious dropping count e = unfold log_step in omega (arith, e)
  log_step_drops i now spurious p count e = omega (arith, e, log_step-Kept i now spurious p refl)

pub step_drops :
    (s : State) (e : Event) (count : ℕ)
    → s.dropped ≡ u64 count
    → (step s e).dropped ≡ u64 (count + dropped_any s e)
unfolding step
step_drops s (log i c) count e = omega (arith, e, begin_log-Kept s i c (s.producers i))
step_drops s (produce i now spurious) count e =
    log_step_drops s i now spurious (s.producers i) count e
step_drops s consume count e = omega (arith, e, (drain_step-Aside s s.drain).1)
step_drops s flush count e = omega (arith, e, (begin_flush-Aside s s.flusher).1)
step_drops s flush_on count e = omega (arith, e, (flush_step-Aside s s.flusher).1)
step_drops s (change_level l) count e = omega (arith, e)
step_drops s stop count e = omega (arith, e)
