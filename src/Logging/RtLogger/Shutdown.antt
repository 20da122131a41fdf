-- ===== src/Logging/RtLogger/Shutdown.antt =====
-- The destructor: the drain thread empties the ring before it ends, unless it had found the ring
-- empty before the last records came.
use xm_sigma.Common.{ℕ, ◌+◌, ◌*◌, ◌≤◌, ◌≡◌, refl, sym, ◌∙◌, ap, arith}
use xm_sigma.Common.{List, [], ◌∷◌, ◌++◌, length, map, sub64, false}
use xm_sigma.Common.{length-map}
use xm_sigma.Common.Indices.{IsSize}
use xm_sigma.Logging.Level.{LogLevel}
use xm_sigma.Logging.RtLogger.{
  Record, Entry, entry_of, State, Event, stop, step, run, construct, idle,
}
use xm_sigma.Logging.RtLogger.{
  Drain, top, got_tail, saw_empty, logging, freeing, closing, ended, drain_step, begin_stop,
}
use xm_sigma.Logging.RtLogger.Invariant.{InUse, IsLogger, unread}
use xm_sigma.Logging.RtLogger.Steps.{history, run-IsLogger}
use xm_sigma.Logging.RtLogger.Delivery.{AreSlots, construct-IsLogger}
use xm_sigma.Logging.RtLogger.Draining.{consumes, waiting, todo, Ready, occupied, drains}

-- The drain thread is between the start of a round and the end of the test for an empty ring, or
-- at work on a record.
abbrev pub InRound : Drain → Type 0
InRound top = Unit
InRound (got_tail t) = Unit
InRound (logging t) = Unit
InRound (freeing t) = Unit
InRound saw_empty = ⊥
InRound closing = ⊥
InRound ended = ⊥

bound_of :
    {n : ℕ} (d : Drain) (s : State) {q : List Record} (k : ℕ)
    → InUse n s q
    → InRound d
    → 4 * n + 4 ≤ k
    → todo d (waiting s) ≤ k
bound_of top s k v h le = omega (arith, occupied s v, v.room)
bound_of (got_tail t) s k v h le = omega (arith, occupied s v, v.room)
bound_of (logging t) s k v h le = omega (arith, occupied s v, v.room)
bound_of (freeing t) s k v h le = omega (arith, occupied s v, v.room)
bound_of d s k v h le = absurd h

InRound-Ready : (d : Drain) (s : State) → InRound d → Ready d (waiting s) s.flushed s.sink
InRound-Ready top s h = tt
InRound-Ready (got_tail t) s h = tt
InRound-Ready (logging t) s h = tt
InRound-Ready (freeing t) s h = tt
InRound-Ready d s h = absurd h

stop_lem : (s : State) → s.producer ≡ idle → step s stop ≡ record s { running = false }
unfolding step begin_stop
stop_lem s e = rw e refl

-- The destructor loses nothing when it starts in any round of the drain thread that has not yet
-- found the ring empty, in every state that an interleaving reaches with the producer idle: after
-- at most 4 n + 4 turns the drain thread has ended, the sink was given every published record,
-- in order and once, and all of it was flushed.
pub shutdown_delivers :
    (n : ℕ) (slots : List Record) (level : LogLevel) (es : List Event) (k : ℕ)
    → IsSize n
    → AreSlots n slots
    → let s0 = construct n slots level in
      let s = run s0 es in
      s.producer ≡ idle
      → InRound s.drain
      → 4 * n + 4 ≤ k
      → let s' = run s (stop ∷ consumes k) in
        (s'.drain ≡ ended) × (s'.sink ≡ history s0 es) × (s'.flushed ≡ length s'.sink)
unfolding run waiting
shutdown_delivers n slots level es k size slots_ok still round le =
    let s0 = construct n slots level in
    let s = run s0 es in
    let v = run-IsLogger es s0 [] (construct-IsLogger slots level size slots_ok) in
    let v' : IsLogger n (step s stop) (history s0 es) = rw (stop_lem s still) (record {
      q = v.q;
      in_use = v.in_use;
      delivered = v.delivered;
      producer_ok = v.producer_ok;
      drain_ok = v.drain_ok;
    }) in
    drains (history s0 es) k (step s stop) v' (
      rw (stop_lem s still) (record {
        still = still;
        off = refl;
        ready = InRound-Ready s.drain s round;
        soon = bound_of s.drain s k v.in_use round le;
      }))

-- The destructor loses every record that was published after the drain thread found the ring
-- empty and before it reads `running_`, in every state that an interleaving reaches there with
-- the producer idle: `running_` is false by then, so that after two turns the drain thread has
-- ended, and the newest published records, as many as are waiting in the ring, were never given
-- to the sink.
pub shutdown_loses :
    (n : ℕ) (slots : List Record) (level : LogLevel) (es : List Event)
    → IsSize n
    → AreSlots n slots
    → let s0 = construct n slots level in
      let s = run s0 es in
      s.producer ≡ idle
      → s.drain ≡ saw_empty
      → let s' = run s (stop ∷ consumes 2) in
        (s'.drain ≡ ended)
        × ((lost : List Entry) × (history s0 es ≡ s'.sink ++ lost)
            × (length lost ≡ sub64 s.head s.tail))
unfolding run step begin_stop drain_step waiting
shutdown_loses n slots level es size slots_ok still at =
    let s0 = construct n slots level in
    let s = run s0 es in
    let v = run-IsLogger es s0 [] (construct-IsLogger slots level size slots_ok) in
    rw (still, at)
      (
        refl,
        (
          map entry_of v.q,
          v.delivered ∙ ap (λ d. s.sink ++ map entry_of (unread d v.q)) at,
          length-map entry_of v.q ∙ sym (occupied s v.in_use),
        ),
      )
