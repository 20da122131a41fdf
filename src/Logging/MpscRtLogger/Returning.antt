-- ===== src/Logging/MpscRtLogger/Returning.antt =====
-- `Flush` comes to an end: with no producer in `Log`, the drain thread catches up with the claims,
-- and the next comparison of `Flush` finds that.
use xm_sigma.Common.{ℕ, ◌+◌, ◌*◌, ◌^◌, ◌≤◌, ◌<◌, ◌≡◌, refl, ◌∙◌, ap, arith}
use xm_sigma.Common.{List, [], ◌∷◌, ◌++◌, length, true, inr}
use xm_sigma.Common.{append-nil}
use xm_sigma.Common.Indices.{IsSize}
use xm_sigma.Logging.Level.{LogLevel}
use xm_sigma.Logging.RtLogger.{Record, Flusher, away, waiting}
use xm_sigma.Logging.MpscRtLogger.Flushing.{flush_covers}
use xm_sigma.Logging.RtLogger.Delivery.{AreSlots}
use xm_sigma.Logging.MpscRtLogger.{
  State, Event, consume, flush, flush_on, step, run, construct, begin_flush,
}
use xm_sigma.Logging.MpscRtLogger.{}
use xm_sigma.Logging.MpscRtLogger.Invariant.{Claims, Delivered}
use xm_sigma.Logging.MpscRtLogger.Locals.{IsMpsc-other}
use xm_sigma.Logging.MpscRtLogger.Steps.{history, run-IsMpsc}
use xm_sigma.Logging.MpscRtLogger.Delivery.{construct-IsMpsc}
use xm_sigma.Logging.MpscRtLogger.Pending.Steps.{run-IsPending}
use xm_sigma.Logging.MpscRtLogger.Draining.{AllIdle, behind}
use xm_sigma.Logging.MpscRtLogger.Shutdown.{construct-IsPending}
use xm_sigma.Logging.MpscRtLogger.Working.{InLoop, bound_of}
use xm_sigma.Logging.MpscRtLogger.Alone.{
  Alone, Turns, drain_turns, flush_turns, to_go, catches_up, finishes,
}

run-append : (s : State) (a b : List Event) → run s (a ++ b) ≡ run (run s a) b
unfolding run
run-append s [] b = refl
run-append s (e ∷ a) b = run-append (step s e) a b

no_claims : (s : State) (es : List Event) → Turns es → history s es ≡ []
unfolding history
no_claims s [] only = refl
no_claims s (consume ∷ es) only = no_claims (step s consume) es only
no_claims s (flush_on ∷ es) only = no_claims (step s flush_on) es only
no_claims s (e ∷ es) only = absurd only

Turns-append : (a b : List Event) → Turns a → Turns b → Turns (a ++ b)
Turns-append [] b ha hb = hb
Turns-append (consume ∷ a) b ha hb = Turns-append a b ha hb
Turns-append (flush_on ∷ a) b ha hb = Turns-append a b ha hb
Turns-append (e ∷ a) b ha hb = absurd ha

begun : (s : State) → s.flusher ≡ away → step s flush ≡ record s { flusher = waiting }
unfolding step begin_flush
begun s e = rw e refl

comes_back :
    {n : ℕ} (s : State) (claims : Claims) (a b : List Event)
    → Alone n (record s { flusher = waiting }) claims (5 * n + 4)
    → s.flusher ≡ away
    → Turns a
    → Turns b
    → 5 * n + 4 ≤ drain_turns a
    → 4 ≤ flush_turns b
    → (run s (flush ∷ (a ++ b))).flusher ≡ away
unfolding run
comes_back {n} s claims a b h off only_a only_b le_a le_b =
    ap (λ x. (run x (a ++ b)).flusher) (begun s off)
    ∙ ap (λ x. x.flusher) (run-append (record s { flusher = waiting }) a b)
    ∙ finishes b (run (record s { flusher = waiting }) a) claims only_b
        (omega (
          arith,
          at_most (run (record s { flusher = waiting }) a).flusher
              (run (record s { flusher = waiting }) a).enqueue_pos,
        ))
        (catches_up a (5 * n + 4) (record s { flusher = waiting }) claims only_a le_a h)
  where
    at_most : (f : Flusher) (pos : ℕ) → to_go f pos ≤ 4
    at_most f pos = ground arith

-- `Flush` returns when no producer is in `Log`, `running_` is true and the drain thread is in its
-- loop, in every such state that an interleaving reaches, on a ring of at least two and at most
-- 2 ^ 62 cells and while fewer than 2 ^ 62 calls have claimed a position. In whatever order it and
-- the drain thread then take turns, no other thread coming between: once the drain thread has had
-- 5 n + 4 turns, `Flush` returns with the fourth of its own after that at the latest, and then the
-- sink was given the records of the claims, in the order of claiming, and all were flushed.
pub flush_returns :
    (n : ℕ) (slots : List Record) (level : LogLevel) (es a b : List Event)
    → IsSize n
    → 2 ≤ n
    → n ≤ 2 ^ 62
    → AreSlots n slots
    → let s0 = construct n slots level in
      let s = run s0 es in
      let s' = run s (flush ∷ (a ++ b)) in
      length (history s0 es) < 2 ^ 62
      → AllIdle s.producers
      → s.running ≡ true
      → InLoop s.drain
      → s.flusher ≡ away
      → Turns a
      → Turns b
      → 5 * n + 4 ≤ drain_turns a
      → 4 ≤ flush_turns b
      → (s'.flusher ≡ away)
        × Delivered (history s0 es) s'.sink
        × (length (history s0 es) ≤ s'.flushed)
        × (s'.flushed ≤ length s'.sink)
unfolding behind
flush_returns n slots level es a b size two small h few still on alive off only_a only_b le_a le_b =
    let s0 = construct n slots level in
    let s = run s0 es in
    let claims = history s0 es in
    let v = run-IsMpsc es s0 [] small few (construct-IsMpsc slots level size two small h) in
    let p =
      run-IsPending es s0 [] small few (construct-IsMpsc slots level size two small h)
        (construct-IsPending slots level) in
    let back =
      comes_back s claims a b
        (record {
          small = omega (arith, v.ring.count);
          ring = IsMpsc-other s s.min_level s.dropped s.running s.flushed waiting v;
          pending = p;
          works = record {
            still = still;
            on = on;
            alive = alive;
            soon = inr (bound_of s.drain s claims (5 * n + 4) v (omega arith));
          };
        })
        off only_a only_b le_a le_b in
    let none : claims ++ history s (flush ∷ (a ++ b)) ≡ claims =
      unfold history in
      rw (no_claims (step s flush) (a ++ b) (Turns-append a b only_a only_b)) (append-nil claims) in
    let (delivered, flushed, shown) =
      flush_covers n slots level es (a ++ b) size two small h (rw none few) off back in
    (back, rw none at delivered, flushed, shown)
