-- ===== src/Logging/MpscRtLogger/Shutdown.antt =====
-- The destructor: with no producer in `Log`, the drain thread empties the ring before it ends,
-- unless it had found the ring empty before the last records came.
use xm_sigma.Common.{ℕ, ◌+◌, ◌-◌, ◌*◌, ◌^◌, ◌≤◌, ◌<◌, ◌≡◌, refl, ap, arith}
use xm_sigma.Common.{List, [], ◌∷◌, length, false}
use xm_sigma.Common.Indices.{IsSize}
use xm_sigma.Logging.Level.{LogLevel}
use xm_sigma.Logging.RtLogger.{Record}
use xm_sigma.Logging.RtLogger.Delivery.{AreSlots}
use xm_sigma.Logging.MpscRtLogger.{State, Event, stop, step, run, construct, drain_step}
use xm_sigma.Logging.MpscRtLogger.{
  Drain, top, got_pos, saw_empty, logging, storing, freeing, closing, ended,
}
use xm_sigma.Logging.MpscRtLogger.Invariant.{Claims, DrainOk, Delivered, given, IsMpsc}
use xm_sigma.Logging.MpscRtLogger.Locals.{IsMpsc-other}
use xm_sigma.Logging.MpscRtLogger.Steps.{history, run-IsMpsc}
use xm_sigma.Logging.MpscRtLogger.Delivery.{construct-IsMpsc}
use xm_sigma.Logging.MpscRtLogger.SingleCell.{consumes}
use xm_sigma.Logging.MpscRtLogger.Pending.{IsPending}
use xm_sigma.Logging.MpscRtLogger.Pending.Steps.{run-IsPending}
use xm_sigma.Logging.MpscRtLogger.Draining.{AllIdle, behind, todo, Ready, Finished, drains}

-- The drain thread is between the start of a round and the end of the test for an empty ring, or
-- at work on a record.
abbrev pub InRound : Drain → Type 0
InRound top = Unit
InRound (got_pos p) = Unit
InRound (logging p) = Unit
InRound (storing p) = Unit
InRound (freeing p) = Unit
InRound saw_empty = ⊥
InRound closing = ⊥
InRound ended = ⊥

bound_of :
    {n : ℕ} (d : Drain) (s : State) (claims : Claims) (k : ℕ)
    → IsMpsc n s claims
    → DrainOk n s.cells s.dequeue_pos s.enqueue_pos d
    → InRound d
    → 5 * n + 4 ≤ k
    → todo d (behind s) ≤ k
unfolding behind
bound_of top s claims k v ok h le = omega (arith, v.ring.room)
bound_of (got_pos p) s claims k v ok h le = omega (arith, v.ring.room)
bound_of (logging p) s claims k v ok h le = omega (arith, v.ring.room)
bound_of (storing p) s claims k v ok h le = omega (arith, v.ring.room)
bound_of (freeing p) s claims k v ok h le = omega (arith, ok.0, ok.1)
bound_of d s claims k v ok h le = absurd h

InRound-Ready : (d : Drain) (s : State) → InRound d → Ready d (behind s) s.flushed s.sink
InRound-Ready top s h = tt
InRound-Ready (got_pos p) s h = tt
InRound-Ready (logging p) s h = tt
InRound-Ready (storing p) s h = tt
InRound-Ready (freeing p) s h = tt
InRound-Ready d s h = absurd h

pub construct-IsPending :
    {n : ℕ} (slots : List Record) (level : LogLevel) → IsPending n (construct n slots level) []
unfolding construct
construct-IsPending slots level p i c lo hi e at = absurd (omega arith)

-- The destructor loses nothing when no producer is in `Log` and it starts in any round of the
-- drain thread that has not yet found the ring empty, in every such state that an interleaving
-- reaches, on a ring of at least two and at most 2 ^ 62 cells and while fewer than 2 ^ 62 calls
-- have claimed a position: after at most 5 n + 4 turns the drain thread has ended, the sink was
-- given the record of every claim, in the order of claiming and each once, and all was flushed.
pub every_claim_delivered :
    (n : ℕ) (slots : List Record) (level : LogLevel) (es : List Event) (k : ℕ)
    → IsSize n
    → 2 ≤ n
    → n ≤ 2 ^ 62
    → AreSlots n slots
    → let s0 = construct n slots level in
      let s = run s0 es in
      length (history s0 es) < 2 ^ 62
      → AllIdle s.producers
      → InRound s.drain
      → 5 * n + 4 ≤ k
      → Finished (run s (stop ∷ consumes k)) (history s0 es)
unfolding run step behind
every_claim_delivered n slots level es k size two small h few still round le =
    let s0 = construct n slots level in
    let s = run s0 es in
    let v = run-IsMpsc es s0 [] small few (construct-IsMpsc slots level size two small h) in
    let p =
      run-IsPending es s0 [] small few (construct-IsMpsc slots level size two small h)
        (construct-IsPending slots level) in
    drains k (record s { running = false }) (history s0 es) (omega (arith, v.ring.count))
      (IsMpsc-other s s.min_level s.dropped false s.flushed s.flusher v) p
      (record {
        still = still;
        off = refl;
        ready = InRound-Ready s.drain s round;
        soon = bound_of s.drain s (history s0 es) k v v.drain_ok round le;
      })

-- The destructor loses every record that was claimed after the drain thread found the ring empty
-- and before it reads `running_`, under the same conditions but for the place of the drain thread:
-- after two turns it has ended, and as many of the newest claims as are waiting in the ring were
-- never given to the sink.
pub late_claims_lost :
    (n : ℕ) (slots : List Record) (level : LogLevel) (es : List Event)
    → IsSize n
    → 2 ≤ n
    → n ≤ 2 ^ 62
    → AreSlots n slots
    → let s0 = construct n slots level in
      let s = run s0 es in
      length (history s0 es) < 2 ^ 62
      → s.drain ≡ saw_empty
      → let s' = run s (stop ∷ consumes 2) in
        (s'.drain ≡ ended)
        × Delivered (history s0 es) s'.sink
        × (length (history s0 es) ≡ length s'.sink + (s.enqueue_pos - s.dequeue_pos))
unfolding run step drain_step
late_claims_lost n slots level es size two small h few at =
    let s0 = construct n slots level in
    let s = run s0 es in
    let v = run-IsMpsc es s0 [] small few (construct-IsMpsc slots level size two small h) in
    rw at (
      refl,
      v.delivered,
      omega (arith, v.ring.count, v.ring.order, v.given_is, ap (λ d. given d s.dequeue_pos) at),
    )
