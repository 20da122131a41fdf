-- ===== src/Logging/RtLogger.antt =====
-- logging/rt_logger.hpp and src/rt_logger.cpp: `RtLogger`, a single-producer, single-consumer
-- ring. Three threads share one `State`: the producer in `Log`, the drain thread in `DrainLoop`,
-- and a thread that calls `Flush`, `SetLevel` and the destructor. Each stands at a program point
-- with its locals, and an `Event` is one access to shared memory by one of them, so a list of
-- events is one interleaving. An event that its thread is not ready for changes nothing.
-- Accesses are sequentially consistent, which is stronger than the code's acquire and release.
pub mod Invariant
mod Produce
mod Consume
pub mod Steps
pub mod Delivery
pub mod Hot
pub mod Outcome
pub mod Growth
pub mod Flushing
pub mod Draining
pub mod Shutdown
pub mod RoundUp
mod Tests
use xm_sigma.Common.{ℕ, zero, suc, ◌+◌, ◌-◌, ◌*◌, Bool, true, false, Option, none, some}
use xm_sigma.Common.{List, [], ◌∷◌, ◌++◌, length, take, get_elem?, modify, ltb, leb, ◌==◌}
use xm_sigma.Common.{if◌then◌else◌, u64, sub64, bit_and}
use xm_sigma.Logging.Level.{LogLevel, SpdlogLevel, to_spdlog_level, below}
use xm_sigma.Logging.Format.{format_into}

abbrev pub max_msg_len : ℕ
max_msg_len = 256

-- A slot of the ring.
pub record Record : Type 0 where
  pub time : ℕ
  pub level : LogLevel
  pub len : ℕ
  pub msg : List ℕ

-- What `sink_logger_->log` is given: the time, the level and the text.
abbrev pub Entry : Type 0
Entry = ℕ × SpdlogLevel × List ℕ

unfoldable pub entry_of : Record → Entry
entry_of rec = (rec.time, to_spdlog_level rec.level, take rec.len rec.msg)

-- A call of `Log`: its level, and what formatting its arguments gives.
pub record Call : Type 0 where
  pub level : LogLevel
  pub outcome : Option (List ℕ)

-- Where the producer stands in `Log`.
pub data Producer : Type 0 where
  idle : Producer
  called : Call → Producer  -- before the load of `min_level_`
  loading : Call → Producer  -- before the load of `head_`
  admitted : Call → ℕ → Producer  -- `head` is loaded, before the load of `tail_`
  dropping : Producer  -- before `dropped_.fetch_add`
  set_level : Call → ℕ → Producer  -- before the writes to the slot
  set_time : Call → ℕ → Producer
  set_text : Call → ℕ → ℕ → Producer  -- with the time that was read
  publish : Call → ℕ → ℕ → Producer  -- before the store of `head_`

-- Where the drain thread stands in `DrainLoop`.
pub data Drain : Type 0 where
  top : Drain
  got_tail : ℕ → Drain
  saw_empty : Drain  -- `tail == head`, before the load of `running_`
  logging : ℕ → Drain  -- before `sink_logger_->log` of the slot
  freeing : ℕ → Drain  -- before the store of `tail_`
  closing : Drain  -- after the loop, before the last flush
  ended : Drain

-- Where a thread stands in `Flush`.
pub data Flusher : Type 0 where
  away : Flusher
  waiting : Flusher  -- before the load of `tail_`
  compare_head : ℕ → Flusher  -- before the load of `head_`
  flushing : Flusher  -- before the flush of the sink

pub record State : Type 0 where
  pub capacity : ℕ
  pub mask : ℕ
  pub ring : List Record
  pub min_level : LogLevel
  pub head : ℕ
  pub tail : ℕ
  pub dropped : ℕ
  pub running : Bool
  pub sink : List Entry  -- what the sink was given, oldest first
  pub flushed : ℕ  -- how many of these the last flush of the sink pushed out
  pub producer : Producer
  pub drain : Drain
  pub flusher : Flusher

-- `while (cap < ring_capacity) cap <<= 1;` with fuel; `none` means that it ran out.
unfoldable pub round_up : ℕ → ℕ → ℕ → Option ℕ
round_up zero wanted cap = none
round_up (suc fuel) wanted cap =
    let more = round_up fuel wanted (u64 (cap * 2)) in if ltb cap wanted then more else some cap

-- The constructor, with the rounded capacity and the level that the environment gives.
unfoldable pub construct : ℕ → List Record → LogLevel → State
construct cap slots level = record {
  capacity = cap;
  mask = cap - 1;
  ring = slots;
  min_level = level;
  head = 0;
  tail = 0;
  dropped = 0;
  running = true;
  sink = [];
  flushed = 0;
  producer = Producer.idle;
  drain = Drain.top;
  flusher = Flusher.away;
}

-- A write to a part of the slot at an index.
abbrev pub at_slot : State → ℕ → (Record → Record) → State
at_slot s head f = record s { ring = modify s.ring (bit_and head s.mask) f }

-- The next access of the producer; `now` is what the clock reads if it is read.
unfoldable pub log_step : ℕ → Producer → State → State
log_step now idle s = s
log_step now (called c) s =
    if below c.level s.min_level
    then record s { producer = idle }
    else record s { producer = loading c }
log_step now (loading c) s = record s { producer = admitted c s.head }
log_step now (admitted c head) s =
    if leb s.capacity (sub64 head s.tail)
    then record s { producer = dropping }
    else record s { producer = set_level c head }
log_step now dropping s = record s { dropped = u64 (s.dropped + 1); producer = idle }
log_step now (set_level c head) s =
    let s' = at_slot s head (λ rec. record rec { level = c.level }) in
    record s' { producer = set_time c head }
log_step now (set_time c head) s =
    let s' = at_slot s head (λ rec. record rec { time = now }) in
    record s' { producer = set_text c head now }
log_step now (set_text c head time) s =
    let s' = at_slot s head (λ rec.
      let (msg, len) = format_into rec.msg max_msg_len c.outcome in
      record rec { len = len; msg = msg }) in
    record s' { producer = publish c head time }
log_step now (publish c head time) s = record s { head = u64 (head + 1); producer = idle }

-- The next access of the drain thread.
unfoldable pub drain_step : Drain → State → State
drain_step top s = record s { drain = got_tail s.tail }
drain_step (got_tail tail) s =
    if tail == s.head then record s { drain = saw_empty } else record s { drain = logging tail }
drain_step saw_empty s =
    if s.running then record s { drain = top } else record s { drain = closing }
drain_step (logging tail) s = elim (get_elem? s.ring (bit_and tail s.mask)) [
  | none ↦ s
  | some rec ↦ record s { sink = s.sink ++ (entry_of rec ∷ []); drain = freeing tail }
]
drain_step (freeing tail) s = record s { tail = u64 (tail + 1); drain = top }
drain_step closing s = record s { flushed = length s.sink; drain = ended }
drain_step ended s = s

-- The next access of `Flush`.
unfoldable pub flush_step : Flusher → State → State
flush_step away s = s
flush_step waiting s = record s { flusher = compare_head s.tail }
flush_step (compare_head tail) s =
    if tail == s.head then record s { flusher = flushing } else record s { flusher = waiting }
flush_step flushing s = record s { flushed = length s.sink; flusher = away }

pub data Event : Type 0 where
  log : Call → Event  -- the producer calls `Log`
  produce : ℕ → Event  -- the producer goes on; the clock reads this
  consume : Event  -- the drain thread goes on
  flush : Event  -- a thread calls `Flush`
  flush_on : Event  -- and goes on
  change_level : LogLevel → Event  -- `SetLevel`
  stop : Event  -- the destructor's store to `running_`; it then joins the drain thread

-- The producer is idle when it calls `Log` or when the destructor starts, and no `Log` follows
-- the destructor: the class is not thread-safe against its own destruction.
unfoldable pub begin_log : Call → Producer → State → State
begin_log c idle s = if s.running then record s { producer = called c } else s
begin_log c busy s = s

unfoldable pub begin_stop : Producer → State → State
begin_stop idle s = record s { running = false }
begin_stop busy s = s

unfoldable pub begin_flush : Flusher → State → State
begin_flush away s = record s { flusher = waiting }
begin_flush busy s = s

unfoldable pub step : State → Event → State
unfolding log_step drain_step flush_step begin_log begin_stop begin_flush
step s (log c) = begin_log c s.producer s
step s (produce now) = log_step now s.producer s
step s consume = drain_step s.drain s
step s flush = begin_flush s.flusher s
step s flush_on = flush_step s.flusher s
step s (change_level l) = record s { min_level = l }
step s stop = begin_stop s.producer s

unfoldable pub run : State → List Event → State
unfolding step
run s [] = s
run s (e ∷ es) = run (step s e) es
