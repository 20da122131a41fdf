-- ===== src/Logging/RtLogger/Tests.antt =====
-- Runs of a logger with two slots, and an instance of each theorem on `RtLogger`.
use xm_sigma.Common.{ℕ, ◌^◌, ◌+◌, ◌≤◌, ◌<◌, ◌≡◌, ◌≢◌, refl, arith, ◌==◌, true, sub64, bit_and}
use xm_sigma.Common.{some, none, List, [], ◌∷◌, ◌++◌, length}
use xm_sigma.Common.Indices.{IsSize}
use xm_sigma.Logging.Level.{LogLevel}
use xm_sigma.Logging.Format.{format_into}
use xm_sigma.Logging.RtLogger.{
  Entry, State, Event, log, produce, consume, stop, flush, flush_on, step, run, construct, round_up,
}
use xm_sigma.Logging.RtLogger.{
  log_step, drain_step, begin_log, begin_flush, flush_step, away, entry_of,
}
use xm_sigma.Logging.RtLogger.{Drain, idle, saw_empty, ended}
use xm_sigma.Logging.RtLogger.Invariant.{logged}
use xm_sigma.Logging.RtLogger.Steps.{history}
use xm_sigma.Logging.RtLogger.Delivery.{delivers_in_order}
use xm_sigma.Logging.RtLogger.Hot.{writing, reading, no_data_race, log_wait_free}
use xm_sigma.Logging.RtLogger.Outcome.{whole_call, LogDid, log_outcome}
use xm_sigma.Common.{ltb}
use xm_sigma.Logging.Level.Laws.{rank}
use xm_sigma.Logging.Samples.{two, slots, slots-AreSlots, hi, bad}
use xm_sigma.Logging.RtLogger.RoundUp.{round_up_least, round_up_stuck}
use xm_sigma.Logging.RtLogger.Flushing.{flush_delivers}
use xm_sigma.Logging.RtLogger.Draining.{consumes}
use xm_sigma.Logging.RtLogger.Shutdown.{shutdown_delivers, shutdown_loses}

abbrev start : State
start = construct 2 slots LogLevel.info

-- One record is published and the drain thread is about to give it to the sink, while the
-- producer fills the next slot.
abbrev busy : List Event
busy = whole_call hi 5 ++ (log bad ∷ produce 6 ∷ produce 6 ∷ produce 6 ∷ consume ∷ consume ∷ [])

-- Two records wait.
abbrev filled : List Event
filled = whole_call hi 5 ++ whole_call bad 6

-- The drain thread finds the ring empty, then a record is published.
abbrev late : List Event
late = consume ∷ consume ∷ whole_call hi 5

one_delivered : (run start (whole_call hi 5 ++ consumes 4)).sink ≡ logged hi 5 ∷ []
unfolding run step log_step drain_step begin_log construct format_into entry_of
one_delivered = refl

busy_threads :
    (writing (run start busy).producer ≡ some 1) × (reading (run start busy).drain ≡ some 0)
unfolding run step log_step drain_step begin_log construct format_into
busy_threads = (refl, refl)

filled_idle : ((run start filled).producer ≡ idle) × ((run start filled).running ≡ true)
unfolding run step log_step drain_step begin_log construct format_into
filled_idle = (refl, refl)

filled_round : (run start filled).drain ≡ Drain.top
unfolding run step log_step drain_step begin_log construct format_into
filled_round = refl

late_threads : ((run start late).producer ≡ idle) × ((run start late).drain ≡ saw_empty)
unfolding run step log_step drain_step begin_log construct format_into
late_threads = (refl, refl)

late_waits : sub64 (run start late).head (run start late).tail ≡ 1
unfolding run step log_step drain_step begin_log construct format_into
late_waits = refl

delivers_in_order_example :
    (rest : List Entry) × (history start busy ≡ (run start busy).sink ++ rest) × (length rest ≤ 2)
delivers_in_order_example = delivers_in_order 2 slots LogLevel.info busy two slots-AreSlots

no_data_race_example :
    (bit_and 1 (run start busy).mask < length (run start busy).ring)
    × (bit_and 1 (run start busy).mask ≢ bit_and 0 (run start busy).mask)
no_data_race_example =
    no_data_race 2 slots LogLevel.info busy 1 0 two slots-AreSlots busy_threads.0 busy_threads.1

log_wait_free_example :
    (run (run start busy) (
      consume
      ∷ produce 7
      ∷ produce 7
      ∷ consume
      ∷ produce 7
      ∷ produce 7
      ∷ produce 7
      ∷ produce 7
      ∷ produce 7
      ∷ [])).producer
    ≡ idle
log_wait_free_example =
    log_wait_free
      (consume
        ∷ produce 7
        ∷ produce 7
        ∷ consume
        ∷ produce 7
        ∷ produce 7
        ∷ produce 7
        ∷ produce 7
        ∷ produce 7
        ∷ [])
      (run start busy) tt (omega arith)

-- The third record finds the ring full.
log_outcome_example :
    let s = run start filled in
    LogDid 2 s (run s (whole_call hi 9)) hi 9 (ltb 3 (rank s.min_level)) (sub64 s.head s.tail == 2)
log_outcome_example =
    log_outcome 2 slots LogLevel.info filled hi 9 two slots-AreSlots filled_idle.0 filled_idle.1

third_is_full : sub64 (run start filled).head (run start filled).tail == 2 ≡ true
unfolding run step log_step drain_step begin_log construct format_into
third_is_full = refl

shutdown_delivers_example :
    let s' = run (run start filled) (stop ∷ consumes 12) in
    (s'.drain ≡ ended) × (s'.sink ≡ history start filled) × (s'.flushed ≡ length s'.sink)
shutdown_delivers_example =
    shutdown_delivers 2 slots LogLevel.info filled 12 two slots-AreSlots filled_idle.0
      (rw filled_round tt) (omega arith)

shutdown_loses_example :
    let s' = run (run start late) (stop ∷ consumes 2) in
    (s'.drain ≡ ended)
    × ((lost : List Entry) × (history start late ≡ s'.sink ++ lost)
        × (length lost ≡ sub64 (run start late).head (run start late).tail))
shutdown_loses_example =
    shutdown_loses 2 slots LogLevel.info late two slots-AreSlots late_threads.0 late_threads.1

-- `Flush` looks at the indices while one record is being given to the sink, and again later.
abbrev while_flushing : List Event
while_flushing =
    consume ∷ consume ∷ consume ∷ flush_on ∷ flush_on ∷ consume ∷ consumes 4
    ++ (flush_on ∷ flush_on ∷ flush_on ∷ [])

flush_ends :
    ((run start filled).flusher ≡ away)
    × ((run (run start filled) (flush ∷ while_flushing)).flusher ≡ away)
unfolding run step log_step drain_step flush_step begin_log begin_flush construct format_into
flush_ends = (refl, refl)

flush_delivers_example :
    let s = run start filled in
    let s' = run s (flush ∷ while_flushing) in
    ((rest : List Entry) × (history start filled ++ history s (flush ∷ while_flushing)
        ≡ s'.sink ++ rest))
    × (length (history start filled) ≤ s'.flushed)
    × (s'.flushed ≤ length s'.sink)
flush_delivers_example =
    flush_delivers 2 slots LogLevel.info filled while_flushing two slots-AreSlots flush_ends.0
      flush_ends.1

round_up_least_example :
    (cap : ℕ) × (round_up 64 1000 1 ≡ some cap)
    × IsSize cap
    × (1000 ≤ cap)
    × ((i : ℕ) → 2 ^ i < cap → 2 ^ i < 1000)
round_up_least_example = round_up_least 1000 (omega arith)

round_up_stuck_example : round_up 1000 (2 ^ 63 + 1) 1 ≡ none
round_up_stuck_example = round_up_stuck (2 ^ 63 + 1) 1000 (omega arith)
