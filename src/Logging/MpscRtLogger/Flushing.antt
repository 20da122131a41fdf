-- ===== src/Logging/MpscRtLogger/Flushing.antt =====
-- `Flush`: when it returns, all that was claimed before it was called has been flushed.
use xm_sigma.Common.{ℕ, ◌+◌, ◌^◌, ◌≤◌, ◌<◌, ◌≡◌, refl, sym, subst, arith}
use xm_sigma.Common.{List, [], ◌∷◌, ◌++◌, length, length-append, append_assoc, append-nil}
use xm_sigma.Common.{false, Bool-cases, inl, inr, ◌==◌, eq_of_==}
use xm_sigma.Common.Indices.{IsSize}
use xm_sigma.Logging.Level.{LogLevel}
use xm_sigma.Logging.RtLogger.{Record, Flusher, away, waiting, compare_head, flushing}
use xm_sigma.Logging.RtLogger.Delivery.{AreSlots}
use xm_sigma.Logging.MpscRtLogger.{State, construct, step, run}
use xm_sigma.Logging.MpscRtLogger.{flush_step, begin_flush}
use xm_sigma.Logging.MpscRtLogger.{
  Event, log, produce, consume, flush, flush_on, change_level, stop,
}
use xm_sigma.Logging.MpscRtLogger.Invariant.{Claims, Delivered, IsMpsc}
use xm_sigma.Logging.MpscRtLogger.Locals.{given_le}
use xm_sigma.Logging.MpscRtLogger.Steps.{history, claimed, step-IsMpsc, run-IsMpsc}
use xm_sigma.Logging.MpscRtLogger.Delivery.{construct-IsMpsc}
use xm_sigma.Logging.MpscRtLogger.Growth.{
  Grows, quiet, begin_log-Grows, log_step-Grows, drain_step-Grows,
}

-- How far a flush that was called when `mark` positions had been claimed has come.
abbrev Passed : ℕ → Flusher → ℕ → ℕ → ℕ → Type 0
Passed mark away flushed first len = mark ≤ flushed
Passed mark waiting flushed first len = Unit
Passed mark (compare_head pos) flushed first len = pos ≤ first
Passed mark flushing flushed first len = mark ≤ len

record Covers (mark : ℕ) (s : State) : Type 0 where
  known : mark ≤ s.enqueue_pos
  shown : s.flushed ≤ length s.sink
  so_far : Passed mark s.flusher s.flushed s.dequeue_pos (length s.sink)

Passed-keep :
    (mark : ℕ) (f : Flusher) {flushed flushed' first first' len len' : ℕ}
    → flushed ≤ flushed'
    → first ≤ first'
    → len ≤ len'
    → Passed mark f flushed first len
    → Passed mark f flushed' first' len'
Passed-keep mark away out further more h = omega arith
Passed-keep mark waiting out further more h = tt
Passed-keep mark (compare_head pos) out further more h = omega arith
Passed-keep mark flushing out further more h = omega arith

Covers-Grows :
    {mark : ℕ} {s s' : State}
    → s.enqueue_pos ≤ s'.enqueue_pos
    → Grows s s'
    → Covers mark s
    → Covers mark s'
Covers-Grows {mark} {s} {s'} later g h = record {
  known = omega (arith, h.known);
  shown = g.shown h.shown;
  so_far =
      subst (λ f. Passed mark f s'.flushed s'.dequeue_pos (length s'.sink)) (sym g.same)
        (Passed-keep mark s.flusher (g.out h.shown) g.further g.more h.so_far);
}

module _ {n mark : ℕ} (s : State) {claims : Claims} (v : IsMpsc n s claims)
    (h : Covers mark s) where
  begin_flush-Covers : (f : Flusher) → Covers mark (begin_flush f s)
  unfolding begin_flush
  begin_flush-Covers away = record { known = h.known; shown = h.shown; so_far = tt }
  begin_flush-Covers f = h

  flush_step-Covers :
      (f : Flusher)
      → Passed mark f s.flushed s.dequeue_pos (length s.sink)
      → Covers mark (flush_step f s)
  unfolding flush_step
  flush_step-Covers away passed = h
  flush_step-Covers waiting passed = record {
    known = h.known;
    shown = h.shown;
    so_far = omega arith;
  }
  flush_step-Covers (compare_head pos) passed = elim (Bool-cases (pos == s.enqueue_pos)) [
    | inl same ↦ rw same (record {
      known = h.known;
      shown = h.shown;
      so_far = omega (
        arith,
        eq_of_== pos s.enqueue_pos same,
        h.known,
        v.given_is,
        given_le s.drain s.dequeue_pos,
        v.ring.order,
      );
    })
    | inr other ↦ rw other (record { known = h.known; shown = h.shown; so_far = tt })
  ]
  flush_step-Covers flushing passed = record {
    known = h.known;
    shown = omega arith;
    so_far = passed;
  }

step_later :
    {n : ℕ} (s : State) (e : Event) (claims : Claims)
    → s.enqueue_pos + n < 2 ^ 63
    → IsMpsc n s claims
    → s.enqueue_pos ≤ (step s e).enqueue_pos
step_later s e claims small v =
    let v' = step-IsMpsc s e claims small v in
    omega (arith, v.ring.count, v'.ring.count, length-append claims (claimed s e))

step-Covers :
    {n mark : ℕ} (s : State) (e : Event) (claims : Claims)
    → s.enqueue_pos + n < 2 ^ 63
    → IsMpsc n s claims
    → s.enqueue_pos ≤ (step s e).enqueue_pos
    → Covers mark s
    → Covers mark (step s e)
unfolding step
step-Covers s (log i c) claims small v le h =
    Covers-Grows le (begin_log-Grows s i c (s.producers i)) h
step-Covers s (produce i now spurious) claims small v le h =
    Covers-Grows le (log_step-Grows s i now spurious (s.producers i)) h
step-Covers s consume claims small v le h =
    Covers-Grows le (drain_step-Grows s _ s.drain small v.drain_ok) h
step-Covers s flush claims small v le h = begin_flush-Covers s v h s.flusher
step-Covers s flush_on claims small v le h = flush_step-Covers s v h s.flusher h.so_far
step-Covers s (change_level l) claims small v le h =
    Covers-Grows le (quiet s s.cells l s.enqueue_pos s.dropped s.running s.producers s.drain) h
step-Covers s stop claims small v le h =
    Covers-Grows le (quiet s s.cells s.min_level s.enqueue_pos s.dropped false s.producers s.drain)
      h

run-Covers :
    {n mark : ℕ} (es : List Event) (s : State) (claims : Claims)
    → n ≤ 2 ^ 62
    → length (claims ++ history s es) < 2 ^ 62
    → IsMpsc n s claims
    → Covers mark s
    → Covers mark (run s es)
unfolding run history
run-Covers [] s claims size few v h = h
run-Covers {n} (e ∷ es) s claims size few v h =
    run-Covers es (step s e) (claims ++ claimed s e) size
      (rw (append_assoc claims (claimed s e) (history (step s e) es)) few)
      (step-IsMpsc s e claims small v)
      (step-Covers s e claims small v (step_later s e claims small v) h)
  where
    small : s.enqueue_pos + n < 2 ^ 63
    small = omega (arith, v.ring.count, length-append claims (claimed s e ++ history (step s e) es))

flushed_shown :
    {n : ℕ} (es : List Event) (s : State) (claims : Claims)
    → n ≤ 2 ^ 62
    → length (claims ++ history s es) < 2 ^ 62
    → IsMpsc n s claims
    → s.flushed ≡ 0
    → s.flusher ≡ away
    → (run s es).flushed ≤ length (run s es).sink
flushed_shown es s claims size few v none_yet off =
    (run-Covers {mark = 0} es s claims size few v
      (record { known = omega arith; shown = omega arith; so_far = rw off (omega arith) })).shown

-- `Flush` that returns has waited for every call that had claimed a position before it was
-- called, in every interleaving, on a ring of at least two and at most 2 ^ 62 cells and while
-- fewer than 2 ^ 62 calls have claimed a position: the records of all those calls are in what the
-- sink was given, and have been flushed.
pub flush_covers :
    (n : ℕ) (slots : List Record) (level : LogLevel) (es more : List Event)
    → IsSize n
    → 2 ≤ n
    → n ≤ 2 ^ 62
    → AreSlots n slots
    → let s0 = construct n slots level in
      let s = run s0 es in
      let s' = run s (flush ∷ more) in
      length (history s0 es ++ history s (flush ∷ more)) < 2 ^ 62
      → s.flusher ≡ away
      → s'.flusher ≡ away
      → Delivered (history s0 es ++ history s (flush ∷ more)) s'.sink
        × (length (history s0 es) ≤ s'.flushed)
        × (s'.flushed ≤ length s'.sink)
unfolding run step begin_flush construct history
flush_covers n slots level es more size two small h few before after =
    let s0 = construct n slots level in
    let s = run s0 es in
    let few0 : length (history s0 es) < 2 ^ 62 =
      omega (arith, length-append (history s0 es) (history s (flush ∷ more))) in
    let v0 = construct-IsMpsc slots level size two small h in
    let v = run-IsMpsc es s0 [] small few0 v0 in
    let v' = run-IsMpsc (flush ∷ more) s (history s0 es) small few v in
    let v1 : IsMpsc n (step s flush) (history s0 es) =
      rw (← append-nil (history s0 es))
        (step-IsMpsc s flush (history s0 es) (omega (arith, v.ring.count, few0)) v) in
    let begun : Covers (length (history s0 es)) (step s flush) = rw before (record {
      known = omega (arith, v.ring.count);
      shown = flushed_shown es s0 [] small few0 v0 refl refl;
      so_far = tt;
    }) in
    let covers : Covers (length (history s0 es)) (run (step s flush) more) =
      run-Covers more (step s flush) (history s0 es) small few v1 begun in
    (
      v'.delivered,
      subst
          (λ f.
            Passed (length (history s0 es)) f (run (step s flush) more).flushed
              (run (step s flush) more).dequeue_pos (length (run (step s flush) more).sink))
          after covers.so_far,
      covers.shown,
    )
