-- ===== src/Logging/MpscRtLogger/SingleCell.antt =====
-- A ring of one cell, which the constructor makes of a wanted capacity of 0 or 1.
use xm_sigma.Common.{ℕ, zero, suc, ◌≡◌, refl}
use xm_sigma.Common.{List, [], ◌∷◌, ◌++◌, true, false}
use xm_sigma.Logging.Level.{LogLevel, below}
use xm_sigma.Logging.RtLogger.{Record, Call}
use xm_sigma.Logging.MpscRtLogger.{
  State, Event, log, produce, consume, step, run, construct, seeded,
}
use xm_sigma.Logging.MpscRtLogger.{log_step, try_cell, claim, begin_log, drain_step}
use xm_sigma.Logging.RtLogger.{away}
use xm_sigma.Logging.MpscRtLogger.{Producer, Drain, top, got_pos, saw_empty}
use xm_sigma.Logging.MpscRtLogger.Steps.{history}

-- A call of producer 0 that no other thread comes between; the clock reads `now`.
abbrev pub whole_call : Call → ℕ → List Event
whole_call c now =
    log 0 c
    ∷ produce 0 now false
    ∷ produce 0 now false
    ∷ produce 0 now false
    ∷ produce 0 now false
    ∷ produce 0 now false
    ∷ produce 0 now false
    ∷ produce 0 now false
    ∷ produce 0 now false
    ∷ []

abbrev pub consumes : ℕ → List Event
consumes zero = []
consumes (suc k) = consume ∷ consumes k

-- The cell says 2, and the drain thread waits for 1.
abbrev stalled : (ℕ → Producer) → Record → LogLevel → Drain → State
stalled f rec level d = record {
  capacity = 1;
  mask = 0;
  cells = record { sequence = 2; payload = rec } ∷ [];
  min_level = level;
  enqueue_pos = 2;
  dequeue_pos = 0;
  dropped = 0;
  running = true;
  sink = [];
  flushed = 0;
  producers = f;
  drain = d;
  flusher = away;
}

-- Where the drain thread stands in turn.
abbrev Waits : Drain → Type 0
Waits top = Unit
Waits (got_pos p) = p ≡ 0
Waits saw_empty = Unit
Waits d = ⊥

stalled_on :
    (k : ℕ) (f : ℕ → Producer) (rec : Record) (level : LogLevel) (d : Drain)
    → Waits d
    → (run (stalled f rec level d) (consumes k)).sink ≡ []
unfolding run step drain_step
stalled_on zero f rec level d w = refl
stalled_on (suc k) f rec level top w = stalled_on k f rec level (got_pos 0) refl
stalled_on (suc k) f rec level (got_pos p) w = rw w (stalled_on k f rec level saw_empty tt)
stalled_on (suc k) f rec level saw_empty w = stalled_on k f rec level top tt
stalled_on (suc k) f rec level d w = absurd w

-- With one cell, a second call claims the cell of a record that the drain thread has not read and
-- overwrites it: both calls are taken, none is counted as dropped, and however long the drain
-- thread then runs it gives nothing to the sink, neither of the two records.
pub single_cell_overwrites :
    (slot : Record) (level : LogLevel) (c d : Call) (now later k : ℕ)
    → below c.level level ≡ false
    → below d.level level ≡ false
    → let s0 = construct 1 (slot ∷ []) level in
      let s = run s0 (whole_call c now ++ whole_call d later) in
      (history s0 (whole_call c now ++ whole_call d later) ≡ (0, c) ∷ (0, d) ∷ [])
      × (s.dropped ≡ 0)
      × ((run s (consumes k)).sink ≡ [])
unfolding run history step log_step try_cell claim begin_log construct seeded
single_cell_overwrites slot level c d now later k hc hd =
    rw (hc, hd) (refl, refl, stalled_on k _ _ level top tt)
