-- ===== src/Logging/RtLogger/Growth.antt =====
-- What the accesses of the producer and of the drain thread leave to the thread that flushes.
use xm_sigma.Common.{ℕ, ◌+◌, ◌≤◌, ◌≡◌, refl, arith, u64}
use xm_sigma.Common.{List, [], ◌∷◌, ◌++◌, length, length-append}
use xm_sigma.Common.{append-nil, get_elem?, Option, some, none, bit_and, sub64, leb}
use xm_sigma.Common.{Bool, true, false, ◌==◌, if◌then◌else◌}
use xm_sigma.Logging.Level.{LogLevel, below}
use xm_sigma.Logging.RtLogger.{Record, Entry, entry_of, Call, State}
use xm_sigma.Logging.RtLogger.{log_step, drain_step}
use xm_sigma.Logging.RtLogger.{begin_log, begin_stop}
use xm_sigma.Logging.RtLogger.{
  Producer, idle, called, loading, admitted, dropping, set_level, set_time, set_text, publish,
}
use xm_sigma.Logging.RtLogger.{Drain, top, got_tail, saw_empty, logging, freeing, closing, ended}
use xm_sigma.Logging.RtLogger.Invariant.{ProducerOk}
use xm_sigma.Logging.RtLogger.Produce.{published_by}

-- An access of another thread than the one that flushes, after which `len` records have been
-- published: the sink and the flushed part of it only grow, and `head_` counts the records.
pub record Grows (s s' : State) (len : ℕ) : Type 0 where
  pub more : length s.sink ≤ length s'.sink
  pub same : s'.flusher ≡ s.flusher
  pub out : s.flushed ≤ length s.sink → s.flushed ≤ s'.flushed
  pub shown : s.flushed ≤ length s.sink → s'.flushed ≤ length s'.sink
  pub counted : s'.head ≡ u64 len

module _ (s : State) (done : List Entry) (counted : s.head ≡ u64 (length done)) where
  pub quiet :
      (ring : List Record) (level : LogLevel) (tail dropped : ℕ) (on : Bool) (p : Producer)
      → (d : Drain)
      → Grows s
          (record s {
            ring = ring;
            min_level = level;
            tail = tail;
            dropped = dropped;
            running = on;
            producer = p;
            drain = d;
          })
          (length (done ++ []))
  quiet ring level tail dropped on p d = record {
    more = omega arith;
    same = refl;
    out = λ h. omega arith;
    shown = λ h. h;
    counted = rw (append-nil done) counted;
  }

  stays : Grows s s (length (done ++ []))
  stays = quiet s.ring s.min_level s.tail s.dropped s.running s.producer s.drain

  moves : (p : Producer) → Grows s (record s { producer = p }) (length (done ++ []))
  moves p = quiet s.ring s.min_level s.tail s.dropped s.running p s.drain

  writes :
      (ring : List Record) (p : Producer)
      → Grows s (record s { ring = ring; producer = p }) (length (done ++ []))
  writes ring p = quiet ring s.min_level s.tail s.dropped s.running p s.drain

  drains : (d : Drain) → Grows s (record s { drain = d }) (length (done ++ []))
  drains d = quiet s.ring s.min_level s.tail s.dropped s.running s.producer d

  either :
      (b : Bool) (x y : State)
      → Grows s x (length (done ++ []))
      → Grows s y (length (done ++ []))
      → Grows s (if b then x else y) (length (done ++ []))
  either true x y gx gy = gx
  either false x y gx gy = gy

  pub log_step-Grows :
      (n len now : ℕ) (p : Producer)
      → ProducerOk n s.ring s.head len p
      → Grows s (log_step now p s) (length (done ++ published_by p))
  unfolding log_step
  log_step-Grows n len now idle ok = stays
  log_step-Grows n len now (called c) ok =
      either (below c.level s.min_level) _ _ (moves _) (moves _)
  log_step-Grows n len now (loading c) ok = moves _
  log_step-Grows n len now (admitted c h) ok =
      either (leb s.capacity (sub64 h s.tail)) _ _ (moves _) (moves _)
  log_step-Grows n len now dropping ok = quiet s.ring s.min_level s.tail _ s.running idle s.drain
  log_step-Grows n len now (set_level c h) ok = writes _ _
  log_step-Grows n len now (set_time c h) ok = writes _ _
  log_step-Grows n len now (set_text c h t) ok = writes _ _
  log_step-Grows n len now (publish c h t) ok = record {
    more = omega arith;
    same = refl;
    out = λ h. omega arith;
    shown = λ h. h;
    counted = omega (arith, ok.0, counted, length-append done (published_by (publish c h t)));
  }

  pub begin_log-Grows : (c : Call) (p : Producer) → Grows s (begin_log c p s) (length (done ++ []))
  unfolding begin_log
  begin_log-Grows c idle = either s.running _ _ (moves _) stays
  begin_log-Grows c p = stays

  pub begin_stop-Grows : (p : Producer) → Grows s (begin_stop p s) (length (done ++ []))
  unfolding begin_stop
  begin_stop-Grows idle = quiet s.ring s.min_level s.tail s.dropped false s.producer s.drain
  begin_stop-Grows p = stays

  pub drain_step-Grows : (d : Drain) → Grows s (drain_step d s) (length (done ++ []))
  unfolding drain_step
  drain_step-Grows top = drains _
  drain_step-Grows (got_tail t) = either (t == s.head) _ _ (drains _) (drains _)
  drain_step-Grows saw_empty = either s.running _ _ (drains _) (drains _)
  drain_step-Grows (logging t) = from_slot _ refl
    where
      from_slot :
          (o : Option Record)
          → get_elem? s.ring (bit_and t s.mask) ≡ o
          → Grows s (drain_step (logging t) s) (length (done ++ []))
      from_slot none e = rw (e, drain_step) stays
      from_slot (some rec) e =
          let len = length-append s.sink (entry_of rec ∷ []) in
          rw (e, drain_step)
            (record {
              more = omega (arith, len);
              same = refl;
              out = λ h. omega arith;
              shown = λ h. omega (arith, len);
              counted = rw (append-nil done) counted;
            })
  drain_step-Grows (freeing t) =
      quiet s.ring s.min_level (u64 (t + 1)) s.dropped s.running s.producer top
  drain_step-Grows closing = record {
    more = omega arith;
    same = refl;
    out = λ h. h;
    shown = λ h. omega arith;
    counted = rw (append-nil done) counted;
  }
  drain_step-Grows ended = stays
