-- ===== src/Logging/RtLogger/Flushing.antt =====
-- `Flush`: when it returns, all that was published before it was called has been flushed, also
-- where an index wraps around between its two loads.
use xm_sigma.Common.{ℕ, ◌+◌, ◌≤◌, ◌≡◌, ◌⊎◌, refl, sym, ◌∙◌, ap, subst, arith, u64}
use xm_sigma.Common.{List, [], ◌∷◌, ◌++◌, map, length, length-append, length-map, append_assoc}
use xm_sigma.Common.{append-nil}
use xm_sigma.Common.{Bool-cases, inl, inr, ◌==◌, eq_of_==}
use xm_sigma.Common.Indices.{IsSize, size_bound}
use xm_sigma.Logging.Level.{LogLevel}
use xm_sigma.Logging.RtLogger.{
  Record, Entry, entry_of, State, Event, log, produce, consume, flush, flush_on,
}
use xm_sigma.Logging.RtLogger.{change_level, stop, step, run, construct}
use xm_sigma.Logging.RtLogger.{begin_flush, flush_step}
use xm_sigma.Logging.RtLogger.{Flusher, away, waiting, compare_head, flushing}
use xm_sigma.Logging.RtLogger.{Drain, freeing}
use xm_sigma.Logging.RtLogger.Invariant.{DrainOk, unread, InUse, IsLogger}
use xm_sigma.Logging.RtLogger.Produce.{published_by}
use xm_sigma.Logging.RtLogger.Steps.{published, history, step-IsLogger, run-IsLogger}
use xm_sigma.Logging.RtLogger.Delivery.{AreSlots, construct-IsLogger}
use xm_sigma.Logging.RtLogger.Growth.{
  Grows, quiet, log_step-Grows, begin_log-Grows, begin_stop-Grows, drain_step-Grows,
}

-- What `Flush` has seen of `tail_`, when the sink had been given `before` records: the index of the
-- next record, or of the last one if its slot was yet to be freed. `mark` records had been
-- published before.
record Seen (n mark tail given : ℕ) : Type 0 where
  before : ℕ
  earlier : before ≤ given
  place :
      ((u64 tail ≡ u64 before) × (mark ≤ before + n))
      ⊎ ((u64 (tail + 1) ≡ u64 before) × (mark + 1 ≤ before + n))

-- How far a flush that was called when `mark` records had been published has come.
abbrev Passed : ℕ → ℕ → Flusher → ℕ → ℕ → Type 0
Passed n mark away flushed given = mark ≤ flushed
Passed n mark waiting flushed given = Unit
Passed n mark (compare_head tail) flushed given = Seen n mark tail given
Passed n mark flushing flushed given = mark ≤ given

record Covers (n mark : ℕ) (s : State) (done : List Entry) : Type 0 where
  known : mark ≤ length done
  counted : s.head ≡ u64 (length done)
  shown : s.flushed ≤ length s.sink
  so_far : Passed n mark s.flusher s.flushed (length s.sink)

Passed-keep :
    (n mark : ℕ) (f : Flusher) {flushed flushed' given given' : ℕ}
    → flushed ≤ flushed'
    → given ≤ given'
    → Passed n mark f flushed given
    → Passed n mark f flushed' given'
Passed-keep n mark away out more h = omega arith
Passed-keep n mark waiting out more h = tt
Passed-keep n mark (compare_head t) out more h = record {
  before = h.before;
  earlier = omega (arith, h.earlier);
  place = h.place;
}
Passed-keep n mark flushing out more h = omega arith

Covers-Grows :
    {n mark : ℕ} {s s' : State} {done : List Entry} (new : List Entry)
    → Grows s s' (length (done ++ new))
    → Covers n mark s done
    → Covers n mark s' (done ++ new)
Covers-Grows {n} {mark} {s} {s'} {done} new g h = record {
  known = omega (arith, h.known, length-append done new);
  counted = g.counted;
  shown = g.shown h.shown;
  so_far =
      subst (λ f. Passed n mark f s'.flushed (length s'.sink)) (sym g.same)
        (Passed-keep n mark s.flusher (g.out h.shown) g.more h.so_far);
}

-- How many records are published and not yet given to the sink.
behind :
    {n : ℕ} {s : State} {done : List Entry} (v : IsLogger n s done)
    → length done ≡ length s.sink + length (unread s.drain v.q)
behind {s = s} v =
    ap length v.delivered
    ∙ length-append s.sink (map entry_of (unread s.drain v.q))
    ∙ ap (λ (k : ℕ). length s.sink + k) (length-map entry_of (unread s.drain v.q))

unread_le : (d : Drain) (q : List Record) → length (unread d q) ≤ length q
unread_le (freeing t) [] = omega arith
unread_le (freeing t) (x ∷ q) = omega arith
unread_le d q = omega arith

module _ {n mark : ℕ} (s : State) {done : List Entry} (v : IsLogger n s done)
    (h : Covers n mark s done) where
  waiting-Seen :
      (d : Drain) (q : List Record)
      → InUse n s q
      → DrainOk s.tail (length q) d
      → length done ≡ length s.sink + length (unread d q)
      → Seen n mark s.tail (length s.sink)
  waiting-Seen (freeing t) [] u ok len = absurd (omega (arith, ok.1))
  waiting-Seen (freeing t) (x ∷ q) u ok len = record {
    before = length s.sink;
    earlier = omega arith;
    place = inr (omega (arith, u.head_at, h.counted, len), omega (arith, h.known, len, u.room));
  }
  waiting-Seen d q u ok len = record {
    before = length s.sink;
    earlier = omega arith;
    place = inl (omega (arith, u.head_at, h.counted, len), omega (arith, h.known, len, u.room));
  }

  -- An index that is equal to `head_` is the index of the newest record, or 2 ^ 64 records have
  -- been published since.
  all_given : (t : ℕ) → t ≡ s.head → Seen n mark t (length s.sink) → mark ≤ length s.sink
  all_given t same seen = omega (
    arith,
    same,
    h.counted,
    h.known,
    seen.place,
    seen.earlier,
    behind v,
    unread_le s.drain v.q,
    v.in_use.room,
    size_bound v.in_use.size,
  )

  begin_flush-Covers : (f : Flusher) → Covers n mark (begin_flush f s) (done ++ [])
  unfolding begin_flush
  begin_flush-Covers away =
      rw (append-nil done)
        (record { known = h.known; counted = h.counted; shown = h.shown; so_far = tt })
  begin_flush-Covers f = rw (append-nil done) h

  flush_step-Covers :
      (f : Flusher)
      → Passed n mark f s.flushed (length s.sink)
      → Covers n mark (flush_step f s) (done ++ [])
  unfolding flush_step
  flush_step-Covers away passed = rw (append-nil done) h
  flush_step-Covers waiting passed = rw (append-nil done) (record {
    known = h.known;
    counted = h.counted;
    shown = h.shown;
    so_far = waiting-Seen s.drain v.q v.in_use v.drain_ok (behind v);
  })
  flush_step-Covers (compare_head t) passed =
      rw (append-nil done) (elim (Bool-cases (t == s.head)) [
        | inl same ↦ rw same (record {
          known = h.known;
          counted = h.counted;
          shown = h.shown;
          so_far = all_given t (eq_of_== t s.head same) passed;
        })
        | inr other ↦
            rw other (record { known = h.known; counted = h.counted; shown = h.shown; so_far = tt })
      ])
  flush_step-Covers flushing passed =
      rw (append-nil done)
        (record { known = h.known; counted = h.counted; shown = omega arith; so_far = passed })

step-Covers :
    {n mark : ℕ} (s : State) (e : Event) (done : List Entry)
    → IsLogger n s done
    → Covers n mark s done
    → Covers n mark (step s e) (done ++ published s e)
unfolding step
step-Covers s (log c) done v h = Covers-Grows [] (begin_log-Grows s done h.counted c s.producer) h
step-Covers s (produce now) done v h =
    Covers-Grows (published_by s.producer)
      (log_step-Grows s done h.counted _ _ now s.producer v.producer_ok) h
step-Covers s consume done v h = Covers-Grows [] (drain_step-Grows s done h.counted s.drain) h
step-Covers s flush done v h = begin_flush-Covers s v h s.flusher
step-Covers s flush_on done v h = flush_step-Covers s v h s.flusher h.so_far
step-Covers s (change_level l) done v h =
    Covers-Grows [] (quiet s done h.counted s.ring l s.tail s.dropped s.running s.producer s.drain)
      h
step-Covers s stop done v h = Covers-Grows [] (begin_stop-Grows s done h.counted s.producer) h

run-Covers :
    {n mark : ℕ} (es : List Event) (s : State) (done : List Entry)
    → IsLogger n s done
    → Covers n mark s done
    → Covers n mark (run s es) (done ++ history s es)
unfolding run history
run-Covers [] s done v h = rw (append-nil done) h
run-Covers (e ∷ es) s done v h = rw (← append_assoc done (published s e) (history (step s e) es)) (
    run-Covers es (step s e) (done ++ published s e) (step-IsLogger s e done v)
      (step-Covers s e done v h))

-- `Flush` that returns has waited for every record that was published before it was called, in
-- every interleaving, and also where 2 ^ 64 or more records are published while it waits: all
-- those records have been given to the sink and flushed.
pub flush_delivers :
    (n : ℕ) (slots : List Record) (level : LogLevel) (es more : List Event)
    → IsSize n
    → AreSlots n slots
    → let s0 = construct n slots level in
      let s = run s0 es in
      let s' = run s (flush ∷ more) in
      s.flusher ≡ away
      → s'.flusher ≡ away
      → ((rest : List Entry) × (history s0 es ++ history s (flush ∷ more) ≡ s'.sink ++ rest))
        × (length (history s0 es) ≤ s'.flushed)
        × (s'.flushed ≤ length s'.sink)
unfolding run step begin_flush construct history
flush_delivers n slots level es more size h before after =
    let s0 = construct n slots level in
    let s = run s0 es in
    let done = history s0 es in
    let v0 = construct-IsLogger slots level size h in
    let v = run-IsLogger es s0 [] v0 in
    let start : Covers n 0 s0 [] = record {
      known = omega arith;
      counted = refl;
      shown = omega arith;
      so_far = omega arith;
    } in
    let before_it : Covers n 0 s done = run-Covers es s0 [] v0 start in
    let v1 : IsLogger n (step s flush) done =
      rw (← append-nil done) (step-IsLogger s flush done v) in
    let begun : Covers n (length done) (step s flush) done = rw before (record {
      known = omega arith;
      counted = before_it.counted;
      shown = before_it.shown;
      so_far = tt;
    }) in
    let covers : Covers n (length done) (run (step s flush) more)
        (done ++ history (step s flush) more) =
      run-Covers more (step s flush) done v1 begun in
    let v' = run-IsLogger more (step s flush) done v1 in
    (
      (map entry_of (unread (run (step s flush) more).drain v'.q), v'.delivered),
      subst
          (λ f.
            Passed n (length done) f (run (step s flush) more).flushed
              (length (run (step s flush) more).sink))
          after covers.so_far,
      covers.shown,
    )
