-- ===== src/Logging/RtLogger/Steps.antt =====
-- Every event keeps the invariant; what the producer publishes is recorded on the way.
use xm_sigma.Common.{ℕ, ◌≤◌, ◌≡◌, refl, sym, ◌∙◌, ap, arith}
use xm_sigma.Common.{List, [], ◌∷◌, ◌++◌, map, length, append_assoc, append-nil}
use xm_sigma.Common.{
  drop-append, length-append, Bool-cases, inl, inr, ◌==◌, if◌then◌else◌, true, false,
}
use xm_sigma.Logging.RtLogger.{
  Record, Entry, entry_of, Call, State, Event, log, produce, consume, flush,
}
use xm_sigma.Logging.RtLogger.{flush_on, change_level, stop, step, run}
use xm_sigma.Logging.RtLogger.{Producer, idle, called}
use xm_sigma.Logging.RtLogger.{Drain, top, got_tail, saw_empty, logging, freeing, closing, ended}
use xm_sigma.Logging.RtLogger.{
  begin_log, begin_stop, begin_flush, flush_step, Flusher, away, waiting, compare_head, flushing,
}
use xm_sigma.Logging.RtLogger.Invariant.{ProducerOk, DrainOk, unread, InUse, IsLogger}
use xm_sigma.Logging.RtLogger.Produce.{published_by, produce_any}
use xm_sigma.Logging.RtLogger.Consume.{consume_any}

-- What an event publishes, and what a list of events publishes, in order.
abbrev pub published : State → Event → List Entry
published s (log c) = []
published s (produce now) = published_by s.producer
published s consume = []
published s flush = []
published s flush_on = []
published s (change_level l) = []
published s stop = []

unfoldable pub history : State → List Event → List Entry
history s [] = []
history s (e ∷ es) = published s e ++ history (step s e) es

map-append : (f : Record → Entry) (xs ys : List Record) → map f (xs ++ ys) ≡ map f xs ++ map f ys
map-append f [] ys = refl
map-append f (x ∷ xs) ys = ap (λ zs. f x ∷ zs) (map-append f xs ys)

unread-append :
    (d : Drain) (tail : ℕ) (q new : List Record)
    → DrainOk tail (length q) d
    → unread d (q ++ new) ≡ unread d q ++ new
unread-append top tail q new ok = refl
unread-append (got_tail t) tail q new ok = refl
unread-append saw_empty tail q new ok = refl
unread-append (logging t) tail q new ok = refl
unread-append (freeing t) tail q new ok = drop-append 1 q new (omega arith)
unread-append closing tail q new ok = refl
unread-append ended tail q new ok = refl

DrainOk-mono :
    (d : Drain) (tail len len' : ℕ) → len ≤ len' → DrainOk tail len d → DrainOk tail len' d
DrainOk-mono top tail len len' h ok = tt
DrainOk-mono (got_tail t) tail len len' h ok = ok
DrainOk-mono saw_empty tail len len' h ok = tt
DrainOk-mono (logging t) tail len len' h ok = (ok.0, omega arith)
DrainOk-mono (freeing t) tail len len' h ok = (ok.0, omega arith)
DrainOk-mono closing tail len len' h ok = tt
DrainOk-mono ended tail len len' h ok = tt

produce-IsLogger :
    {n : ℕ} (s : State) (now : ℕ) (done : List Entry)
    → IsLogger n s done
    → IsLogger n (step s (produce now)) (done ++ published_by s.producer)
unfolding step
produce-IsLogger s now done v =
    let p = produce_any s v.in_use now s.producer v.producer_ok v.producer_ok refl in
    record {
      q = v.q ++ p.new;
      in_use = p.in_use;
      delivered =
          rw
            (
              p.same_sink,
              p.same_drain,
              unread-append s.drain s.tail v.q p.new v.drain_ok,
              map-append entry_of (unread s.drain v.q) p.new,
              ← append_assoc s.sink (map entry_of (unread s.drain v.q)) (map entry_of p.new),
              ← v.delivered,
              p.entries,
            )
            refl;
      producer_ok = p.producer_ok;
      drain_ok =
          rw (p.same_tail, p.same_drain)
            (DrainOk-mono s.drain s.tail (length v.q) (length (v.q ++ p.new))
              (omega (arith, length-append v.q p.new)) v.drain_ok);
    }

pub consume-IsLogger :
    {n : ℕ} (s : State) (done : List Entry)
    → IsLogger n s done
    → IsLogger n (step s consume) (done ++ [])
unfolding step
consume-IsLogger s done v =
    let c = consume_any s s.drain v.q v.in_use v.producer_ok v.drain_ok refl in
    record {
      q = c.rest;
      in_use = c.in_use;
      delivered = append-nil done ∙ v.delivered ∙ sym c.entries;
      producer_ok = c.producer_ok;
      drain_ok = c.drain_ok;
    }

-- Events that change neither the ring, nor the sink, nor the drain thread.
aside-IsLogger :
    {n : ℕ} (s' : State) (done : List Entry)
    → (q : List Record) → InUse n s' q
    → done ≡ s'.sink ++ map entry_of (unread s'.drain q)
    → ProducerOk n s'.ring s'.head (length q) s'.producer
    → DrainOk s'.tail (length q) s'.drain
    → IsLogger n s' (done ++ [])
aside-IsLogger s' done q u e ok fits = record {
  q = q;
  in_use = u;
  delivered = append-nil done ∙ e;
  producer_ok = ok;
  drain_ok = fits;
}

module _ {n : ℕ} (s : State) (done : List Entry) (v : IsLogger n s done) where
  unchanged : IsLogger n s (done ++ [])
  unchanged = aside-IsLogger s done v.q v.in_use v.delivered v.producer_ok v.drain_ok

  begin_log-IsLogger : (c : Call) (p : Producer) → IsLogger n (begin_log c p s) (done ++ [])
  unfolding begin_log
  begin_log-IsLogger c idle =
      elim s.running
        as (λ b. IsLogger n (if b then record s { producer = called c } else s) (done ++ [])) [
          | true ↦ aside-IsLogger _ done v.q v.in_use v.delivered tt v.drain_ok
          | false ↦ unchanged
        ]
  begin_log-IsLogger c p = unchanged

  begin_stop-IsLogger : (p : Producer) → IsLogger n (begin_stop p s) (done ++ [])
  unfolding begin_stop
  begin_stop-IsLogger idle = aside-IsLogger _ done v.q v.in_use v.delivered v.producer_ok v.drain_ok
  begin_stop-IsLogger p = unchanged

  begin_flush-IsLogger : (f : Flusher) → IsLogger n (begin_flush f s) (done ++ [])
  unfolding begin_flush
  begin_flush-IsLogger away =
      aside-IsLogger _ done v.q v.in_use v.delivered v.producer_ok v.drain_ok
  begin_flush-IsLogger f = unchanged

  flush-IsLogger : (f : Flusher) → IsLogger n (flush_step f s) (done ++ [])
  unfolding flush_step
  flush-IsLogger away = unchanged
  flush-IsLogger waiting = aside-IsLogger _ done v.q v.in_use v.delivered v.producer_ok v.drain_ok
  flush-IsLogger (compare_head t) = elim (Bool-cases (t == s.head)) [
    | inl same ↦ rw same (aside-IsLogger _ done v.q v.in_use v.delivered v.producer_ok v.drain_ok)
    | inr other ↦ rw other (aside-IsLogger _ done v.q v.in_use v.delivered v.producer_ok v.drain_ok)
  ]
  flush-IsLogger flushing = aside-IsLogger _ done v.q v.in_use v.delivered v.producer_ok v.drain_ok

pub step-IsLogger :
    {n : ℕ} (s : State) (e : Event) (done : List Entry)
    → IsLogger n s done
    → IsLogger n (step s e) (done ++ published s e)
step-IsLogger s (produce now) done v = produce-IsLogger s now done v
step-IsLogger s consume done v = consume-IsLogger s done v
step-IsLogger s (log c) done v = unfold step in begin_log-IsLogger s done v c s.producer
step-IsLogger s flush done v = unfold step in begin_flush-IsLogger s done v s.flusher
step-IsLogger s flush_on done v = unfold step in flush-IsLogger s done v s.flusher
step-IsLogger s (change_level l) done v =
    unfold step in aside-IsLogger _ done v.q v.in_use v.delivered v.producer_ok v.drain_ok
step-IsLogger s stop done v = unfold step in begin_stop-IsLogger s done v s.producer

pub run-IsLogger :
    {n : ℕ} (es : List Event) (s : State) (done : List Entry)
    → IsLogger n s done
    → IsLogger n (run s es) (done ++ history s es)
unfolding run history
run-IsLogger [] s done v = rw (append-nil done) v
run-IsLogger (e ∷ es) s done v =
    rw (← append_assoc done (published s e) (history (step s e) es))
      (run-IsLogger es (step s e) (done ++ published s e) (step-IsLogger s e done v))
