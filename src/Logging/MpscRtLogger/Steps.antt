-- ===== src/Logging/MpscRtLogger/Steps.antt =====
-- Every event keeps the invariant; what the producers claim is recorded on the way.
use xm_sigma.Common.{ℕ, ◌+◌, ◌^◌, ◌≤◌, ◌<◌, refl, arith}
use xm_sigma.Common.{
  List, [], ◌∷◌, ◌++◌, length, append_assoc, append-nil, length-append, Bool-cases, inl, inr, ◌==◌,
}
use xm_sigma.Common.{false}
use xm_sigma.Logging.RtLogger.{Call, Flusher, away, waiting, compare_head, flushing}
use xm_sigma.Logging.MpscRtLogger.{
  State, Event, log, produce, consume, flush, flush_on, change_level, stop, step, run,
}
use xm_sigma.Logging.MpscRtLogger.{begin_log, begin_flush, flush_step, Producer, idle, called}
use xm_sigma.Logging.MpscRtLogger.Invariant.{Claims, IsMpsc, ProducerOk}
use xm_sigma.Logging.MpscRtLogger.Locals.{update-cases, IsMpsc-other}
use xm_sigma.Logging.MpscRtLogger.Produce.{claimed_by, produce_any}
use xm_sigma.Logging.MpscRtLogger.Consume.{consume_any}

-- What an event claims, and what a list of events claims, in order: the producer and its call.
abbrev pub claimed : State → Event → Claims
claimed s (produce i now spurious) = claimed_by i spurious (s.producers i) s.enqueue_pos
claimed s (log i c) = []
claimed s consume = []
claimed s flush = []
claimed s flush_on = []
claimed s (change_level l) = []
claimed s stop = []

unfoldable pub history : State → List Event → Claims
history s [] = []
history s (e ∷ es) = claimed s e ++ history (step s e) es

module _ {n : ℕ} (s : State) (claims : Claims) (v : IsMpsc n s claims) where
  begin_log-IsMpsc : (i : ℕ) (c : Call) (p : Producer) → IsMpsc n (begin_log i c p s) claims
  unfolding begin_log
  begin_log-IsMpsc i c idle = record {
    ring = v.ring;
    producers_ok =
        update-cases (ProducerOk n s.cells s.dequeue_pos s.enqueue_pos claims) s.producers i
          (called c) tt (λ j ne. v.producers_ok j);
    drain_ok = v.drain_ok;
    delivered = v.delivered;
    given_is = v.given_is;
  }
  begin_log-IsMpsc i c p = v

  moved : (f : Flusher) → IsMpsc n (record s { flusher = f }) claims
  moved f = IsMpsc-other s s.min_level s.dropped s.running s.flushed f v

  begin_flush-IsMpsc : (f : Flusher) → IsMpsc n (begin_flush f s) claims
  unfolding begin_flush
  begin_flush-IsMpsc away = moved waiting
  begin_flush-IsMpsc f = v

  flush-IsMpsc : (f : Flusher) → IsMpsc n (flush_step f s) claims
  unfolding flush_step
  flush-IsMpsc away = v
  flush-IsMpsc waiting = moved (compare_head s.dequeue_pos)
  flush-IsMpsc (compare_head pos) = elim (Bool-cases (pos == s.enqueue_pos)) [
    | inl same ↦ rw same (moved flushing)
    | inr other ↦ rw other (moved waiting)
  ]
  flush-IsMpsc flushing =
      IsMpsc-other s s.min_level s.dropped s.running (length s.sink) Flusher.away v

pub step-IsMpsc :
    {n : ℕ} (s : State) (e : Event) (claims : Claims)
    → s.enqueue_pos + n < 2 ^ 63
    → IsMpsc n s claims
    → IsMpsc n (step s e) (claims ++ claimed s e)
unfolding step
step-IsMpsc s (produce i now spurious) claims small v =
    produce_any s i v small now spurious (s.producers i) (v.producers_ok i)
step-IsMpsc s consume claims small v =
    rw (append-nil claims) (consume_any s v small s.drain v.drain_ok v.given_is refl)
step-IsMpsc s (log i c) claims small v =
    rw (append-nil claims) (begin_log-IsMpsc s claims v i c (s.producers i))
step-IsMpsc s flush claims small v =
    rw (append-nil claims) (begin_flush-IsMpsc s claims v s.flusher)
step-IsMpsc s flush_on claims small v = rw (append-nil claims) (flush-IsMpsc s claims v s.flusher)
step-IsMpsc s (change_level l) claims small v =
    rw (append-nil claims) (IsMpsc-other s l s.dropped s.running s.flushed s.flusher v)
step-IsMpsc s stop claims small v =
    rw (append-nil claims) (IsMpsc-other s s.min_level s.dropped false s.flushed s.flusher v)

-- While fewer than 2 ^ 62 positions are claimed, in a ring of at most 2 ^ 62 cells, no index and
-- no sequence reaches 2 ^ 63.
pub run-IsMpsc :
    {n : ℕ} (es : List Event) (s : State) (claims : Claims)
    → n ≤ 2 ^ 62
    → length (claims ++ history s es) < 2 ^ 62
    → IsMpsc n s claims
    → IsMpsc n (run s es) (claims ++ history s es)
unfolding run history
run-IsMpsc [] s claims size few v = rw (append-nil claims) v
run-IsMpsc {n} (e ∷ es) s claims size few v =
    rw (← append_assoc claims (claimed s e) (history (step s e) es)) (
      run-IsMpsc es (step s e) (claims ++ claimed s e) size
        (rw (append_assoc claims (claimed s e) (history (step s e) es)) few)
        (step-IsMpsc s e claims small v))
  where
    small : s.enqueue_pos + n < 2 ^ 63
    small = omega (arith, v.ring.count, length-append claims (claimed s e ++ history (step s e) es))
