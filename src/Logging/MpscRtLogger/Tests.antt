-- ===== src/Logging/MpscRtLogger/Tests.antt =====
-- Runs of a logger with two cells and two producers, and an instance of each theorem on it.
use xm_sigma.Common.{
  ℕ, zero, suc, ◌^◌, ◌<◌, ◌+◌, ◌-◌, ◌≤◌, ◌≡◌, ◌≢◌, refl, ap, Bool, true, arith, bit_and, ◌==◌,
}
use xm_sigma.Common.{some, List, [], ◌∷◌, ◌++◌, length, false}
use xm_sigma.Logging.Level.{LogLevel}
use xm_sigma.Logging.Format.{format_into}
use xm_sigma.Logging.Samples.{two, blank, slots, slots-AreSlots, hi, bad}
use xm_sigma.Logging.MpscRtLogger.{
  State, Event, log, produce, flush, flush_on, stop, step, run, construct, seeded,
}
use xm_sigma.Logging.RtLogger.{away}
use xm_sigma.Logging.MpscRtLogger.{ended, flush_step, begin_flush}
use xm_sigma.Common.{u64}
use xm_sigma.Logging.MpscRtLogger.Accounts.{
  total, begun, filtered, dropped_of, dropped_any, owned, pending,
}
use xm_sigma.Logging.MpscRtLogger.Accounts.Calls.{calls_accounted}
use xm_sigma.Logging.MpscRtLogger.Draining.{AllIdle, Finished}
use xm_sigma.Logging.MpscRtLogger.Shutdown.{every_claim_delivered, late_claims_lost}
use xm_sigma.Logging.MpscRtLogger.Flushing.{flush_covers}
use xm_sigma.Logging.MpscRtLogger.Returning.{flush_returns}
use xm_sigma.Logging.MpscRtLogger.{consume}
use xm_sigma.Logging.MpscRtLogger.{log_step, try_cell, claim, begin_log, drain_step}
use xm_sigma.Logging.MpscRtLogger.Invariant.{Delivered, writing, reading}
use xm_sigma.Logging.MpscRtLogger.Steps.{history}
use xm_sigma.Logging.MpscRtLogger.Delivery.{delivers_in_claim_order}
use xm_sigma.Logging.MpscRtLogger.Race.{Thread, producer, drainer, one_thread_per_cell}
use xm_sigma.Logging.MpscRtLogger.Full.{drops_only_when_full}
use xm_sigma.Logging.MpscRtLogger.{trying, dropping}
use xm_sigma.Logging.MpscRtLogger.SingleCell.{whole_call, consumes, single_cell_overwrites}

abbrev start : State
start = construct 2 slots LogLevel.info

abbrev go : ℕ → Event
go i = produce i 7 false

-- Two producers come to the same position at once: the first compare-exchange takes it, and the
-- second producer takes the next one.
abbrev both_fill : List Event
both_fill =
    log 0 hi
    ∷ log 1 bad
    ∷ go 0
    ∷ go 1
    ∷ go 0
    ∷ go 1
    ∷ go 0
    ∷ go 1
    ∷ go 0
    ∷ go 1
    ∷ go 1
    ∷ go 1
    ∷ go 1
    ∷ []

-- The drain thread gives the first record to the sink while the second is filled.
abbrev fill_and_drain : List Event
fill_and_drain = both_fill ++ (go 0 ∷ go 0 ∷ go 0 ∷ go 0 ∷ consumes 2)

both_write :
    (writing ((run start both_fill).producers 0) ≡ some 0)
    × (writing ((run start both_fill).producers 1) ≡ some 1)
unfolding run step log_step try_cell claim begin_log construct seeded
both_write = (refl, refl)

abbrev is_producer : Thread → Bool
is_producer (producer i) = true
is_producer drainer = false

write_and_read :
    (writing ((run start fill_and_drain).producers 1) ≡ some 1)
    × (reading (run start fill_and_drain).drain ≡ some 0)
unfolding run step log_step try_cell claim begin_log drain_step construct seeded format_into
write_and_read = (refl, refl)

two_claims : history start fill_and_drain ≡ (0, hi) ∷ (1, bad) ∷ []
unfolding history run step log_step try_cell claim begin_log drain_step construct seeded format_into
two_claims = refl

both_claim : history start both_fill ≡ (0, hi) ∷ (1, bad) ∷ []
unfolding history run step log_step try_cell claim begin_log construct seeded
both_claim = refl

two_small : 2 ≤ 2 ^ 62
two_small = omega arith

delivers_in_claim_order_example :
    let sink = (run start fill_and_drain).sink in
    Delivered (history start fill_and_drain) sink
    × (length (history start fill_and_drain) ≤ length sink + 2)
delivers_in_claim_order_example =
    delivers_in_claim_order 2 slots LogLevel.info fill_and_drain two (omega arith) two_small
      slots-AreSlots (rw two_claims (omega arith))

one_thread_per_cell_example :
    bit_and 1 (run start fill_and_drain).mask ≢ bit_and 0 (run start fill_and_drain).mask
one_thread_per_cell_example =
    one_thread_per_cell 2 slots LogLevel.info fill_and_drain (producer 1) drainer 1 0 two
      (omega arith) two_small slots-AreSlots (rw two_claims (omega arith)) write_and_read.0
      write_and_read.1 (λ e. let bad : true ≡ false = ap is_producer e in cc)

single_cell_overwrites_example :
    let s0 = construct 1 (blank ∷ []) LogLevel.info in
    let s = run s0 (whole_call hi 5 ++ whole_call bad 6) in
    (history s0 (whole_call hi 5 ++ whole_call bad 6) ≡ (0, hi) ∷ (0, bad) ∷ [])
    × (s.dropped ≡ 0)
    × ((run s (consumes 20)).sink ≡ [])
single_cell_overwrites_example = single_cell_overwrites blank LogLevel.info hi bad 5 6 20 refl refl

-- Both cells are claimed, and a third producer finds that.
abbrev third : List Event
third = both_fill ++ (log 2 hi ∷ go 2 ∷ go 2 ∷ [])

third_tries : (run start third).producers 2 ≡ trying hi 2
unfolding run step log_step try_cell claim begin_log construct seeded
third_tries = refl

third_drops : (step (run start third) (produce 2 7 false)).producers 2 ≡ dropping
unfolding run step log_step try_cell claim begin_log construct seeded
third_drops = refl

third_claims : history start third ≡ (0, hi) ∷ (1, bad) ∷ []
unfolding history run step log_step try_cell claim begin_log construct seeded
third_claims = refl

drops_only_when_full_example : 2 ≤ (run start third).enqueue_pos - (run start third).dequeue_pos + 1
drops_only_when_full_example =
    drops_only_when_full 2 slots LogLevel.info third 2 hi 2 7 false two (omega arith) two_small
      slots-AreSlots (rw third_claims (omega arith)) third_tries third_drops

-- A record that is published and given to the sink, and not yet freed.
abbrev one_call : List Event
one_call = whole_call hi 5 ++ consumes 3

one_claim : history start one_call ≡ (0, hi) ∷ []
unfolding history run step log_step try_cell claim begin_log drain_step construct seeded format_into
one_claim = refl

one_few : length (history start one_call) < 2 ^ 62
one_few = rw one_claim (omega arith)

other : (i : ℕ) → (0 == suc i) ≡ false
other i = ground arith

all_idle : AllIdle (run start one_call).producers
unfolding run step log_step try_cell claim begin_log drain_step construct seeded format_into
all_idle zero = refl
all_idle (suc i) = rw (other i) refl

every_claim_delivered_example :
    Finished (run (run start one_call) (stop ∷ consumes 14)) (history start one_call)
unfolding run step log_step try_cell claim begin_log drain_step construct seeded format_into
every_claim_delivered_example =
    every_claim_delivered 2 slots LogLevel.info one_call 14 two (omega arith) two_small
      slots-AreSlots one_few all_idle tt (omega arith)

-- `Flush` compares before the drain thread has done anything, and again between its turns.
abbrev impatient : List Event
impatient = flush_on ∷ flush_on ∷ consumes 3 ++ (flush_on ∷ consumes 11)

abbrev four_turns : List Event
four_turns = flush_on ∷ consume ∷ flush_on ∷ flush_on ∷ flush_on ∷ []

flush_returns_example :
    let s = run start one_call in
    let s' = run s (flush ∷ (impatient ++ four_turns)) in
    (s'.flusher ≡ away)
    × Delivered (history start one_call) s'.sink
    × (length (history start one_call) ≤ s'.flushed)
    × (s'.flushed ≤ length s'.sink)
unfolding run step log_step try_cell claim begin_log drain_step construct seeded format_into
flush_returns_example =
    flush_returns 2 slots LogLevel.info one_call impatient four_turns two (omega arith) two_small
      slots-AreSlots one_few all_idle refl tt refl tt tt (omega arith) (omega arith)

-- The drain thread finds the ring empty, and then a call comes.
abbrev late_call : List Event
late_call = consumes 2 ++ whole_call hi 5

late_claim : history start late_call ≡ (0, hi) ∷ []
unfolding history run step log_step try_cell claim begin_log drain_step construct seeded format_into
late_claim = refl

late_claims_lost_example :
    let s' = run (run start late_call) (stop ∷ consumes 2) in
    (s'.drain ≡ ended)
    × Delivered (history start late_call) s'.sink
    × (length (history start late_call)
        ≡ length s'.sink + ((run start late_call).enqueue_pos - (run start late_call).dequeue_pos))
unfolding run step log_step try_cell claim begin_log drain_step construct seeded format_into
late_claims_lost_example =
    late_claims_lost 2 slots LogLevel.info late_call two (omega arith) two_small slots-AreSlots
      (rw late_claim (omega arith)) refl

-- The drain thread works on the record while `Flush` waits.
abbrev while_flushing : List Event
while_flushing = consumes 4 ++ (flush_on ∷ flush_on ∷ flush_on ∷ [])

flush_ends :
    (history start (whole_call hi 5)
        ++ history (run start (whole_call hi 5)) (flush ∷ while_flushing)
      ≡ (0, hi) ∷ [])
    × ((run start (whole_call hi 5)).flusher ≡ away)
    × ((run (run start (whole_call hi 5)) (flush ∷ while_flushing)).flusher ≡ away)
unfolding history run step log_step try_cell claim begin_log drain_step flush_step begin_flush
    construct seeded format_into
flush_ends = (refl, refl, refl)

flush_covers_example :
    let s = run start (whole_call hi 5) in
    let s' = run s (flush ∷ while_flushing) in
    Delivered (history start (whole_call hi 5) ++ history s (flush ∷ while_flushing)) s'.sink
    × (length (history start (whole_call hi 5)) ≤ s'.flushed)
    × (s'.flushed ≤ length s'.sink)
flush_covers_example =
    flush_covers 2 slots LogLevel.info (whole_call hi 5) while_flushing two (omega arith) two_small
      slots-AreSlots (rw flush_ends.0 (omega arith)) flush_ends.1 flush_ends.2

-- Two calls claim both cells, and the third is dropped.
abbrev third_dropped : List Event
third_dropped = third ++ (go 2 ∷ go 2 ∷ [])

dropped_test :
    (total (begun 2) start third_dropped ≡ 1)
    × (total (dropped_of 2) start third_dropped ≡ 1)
    × ((run start third_dropped).dropped ≡ 1)
unfolding total run step log_step try_cell claim begin_log construct seeded
dropped_test = (refl, refl, refl)

calls_accounted_example :
    let s = run start third_dropped in
    (total (begun 2) start third_dropped
      ≡ total (filtered 2) start third_dropped
        + total (dropped_of 2) start third_dropped
        + owned 2 (history start third_dropped)
        + pending (s.producers 2))
    × (s.dropped ≡ u64 (total dropped_any start third_dropped))
calls_accounted_example = calls_accounted 2 slots LogLevel.info third_dropped 2
