-- ===== src/Logging/MpscRtLogger.antt =====
-- logging/rt_logger_mpsc.hpp and src/rt_logger_mpsc.cpp: `MpscRtLogger`, a ring that any number of
-- producers share. A thread stands at a program point with its locals, and an `Event` is one
-- access to shared memory by one thread, as in `RtLogger`; producers are numbered, and an event
-- that its thread is not ready for changes nothing. Accesses are sequentially consistent.
pub mod Slots
pub mod Invariant
pub mod Locals
pub mod Write
pub mod Claim
pub mod Produce
pub mod Advance
pub mod Freeing
pub mod Consume
pub mod Steps
pub mod Delivery
pub mod Race
pub mod Full
pub mod Pending
pub mod Growth
pub mod Flushing
pub mod SingleCell
pub mod Accounts
pub mod Draining
pub mod Shutdown
pub mod Working
mod Alone
pub mod Returning
mod Tests
use xm_sigma.Common.{ℕ, zero, suc, ◌+◌, ◌-◌, ◌*◌, ◌%◌, ◌^◌, Bool, true, false, Option, none, some}
use xm_sigma.Common.{List, [], ◌∷◌, ◌++◌, length, get_elem?, modify, ltb, leb, ◌==◌}
use xm_sigma.Common.{if◌then◌else◌, u64, bit_and}
use xm_sigma.Logging.Level.{LogLevel, below}
use xm_sigma.Logging.Format.{format_into}
use xm_sigma.Logging.RtLogger.{Record, Entry, Call, entry_of, max_msg_len, Flusher, away, waiting}
use xm_sigma.Logging.RtLogger.{compare_head, flushing}

-- A cell of the ring; the fields behind `sequence` are those of `RtLogger`'s record.
pub record Cell : Type 0 where
  pub sequence : ℕ
  pub payload : Record

-- Where a producer stands in `Log`.
pub data Producer : Type 0 where
  idle : Producer
  called : Call → Producer  -- before the load of `min_level_`
  loading : Call → Producer  -- before the load of `enqueue_pos_`
  trying : Call → ℕ → Producer  -- before the load of the cell's sequence
  claiming : Call → ℕ → Producer  -- before the compare-exchange of `enqueue_pos_`
  dropping : Producer  -- before `dropped_.fetch_add`
  set_time : Call → ℕ → Producer  -- before the writes to the cell
  set_level : Call → ℕ → ℕ → Producer  -- with the time that was read
  set_text : Call → ℕ → ℕ → Producer
  publish : Call → ℕ → ℕ → Producer  -- before the store of the cell's sequence

-- Where the drain thread stands in `DrainLoop`.
pub data Drain : Type 0 where
  top : Drain
  got_pos : ℕ → Drain  -- before the load of the cell's sequence
  saw_empty : Drain  -- before the load of `running_`
  logging : ℕ → Drain  -- before `sink_logger_->log` of the cell
  storing : ℕ → Drain  -- before the store of `dequeue_pos_`
  freeing : ℕ → Drain  -- before the store of the cell's sequence
  closing : Drain  -- after the loop, before the last flush
  ended : Drain

pub record State : Type 0 where
  pub capacity : ℕ
  pub mask : ℕ
  pub cells : List Cell
  pub min_level : LogLevel
  pub enqueue_pos : ℕ
  pub dequeue_pos : ℕ
  pub dropped : ℕ
  pub running : Bool
  pub sink : List Entry  -- what the sink was given, oldest first
  pub flushed : ℕ  -- how many of these the last flush of the sink pushed out
  pub producers : ℕ → Producer
  pub drain : Drain
  pub flusher : Flusher

-- `cells_[i].sequence.store(i)` from `i` on; the rest of the memory is left as it is.
unfoldable pub seeded : ℕ → List Record → List Cell
seeded i [] = []
seeded i (rec ∷ rest) = record { sequence = i; payload = rec } ∷ seeded (i + 1) rest

-- The constructor, with the rounded capacity and the level that the environment gives.
unfoldable pub construct : ℕ → List Record → LogLevel → State
unfolding seeded
construct cap slots level = record {
  capacity = cap;
  mask = cap - 1;
  cells = seeded 0 slots;
  min_level = level;
  enqueue_pos = 0;
  dequeue_pos = 0;
  dropped = 0;
  running = true;
  sink = [];
  flushed = 0;
  producers = λ i. Producer.idle;
  drain = Drain.top;
  flusher = Flusher.away;
}

-- The place of `static_cast<std::int64_t>(x)` in the order of the signed numbers; the sign of
-- `diff`, a difference of two of them, is how their places compare.
abbrev pub signed_place : ℕ → ℕ
signed_place x = (x + 2 ^ 63) % 2 ^ 64

abbrev pub diff_is_zero : ℕ → ℕ → Bool
diff_is_zero seq pos = signed_place seq == signed_place pos

abbrev pub diff_is_negative : ℕ → ℕ → Bool
diff_is_negative seq pos = ltb (signed_place seq) (signed_place pos)

-- Producer `i` moves on.
abbrev pub update : (ℕ → Producer) → ℕ → Producer → ℕ → Producer
update f i p j = if i == j then p else f j

abbrev pub goto : State → ℕ → Producer → State
goto s i p = record s { producers = update s.producers i p }

-- A write to a part of the cell of a position.
abbrev pub at_cell : State → ℕ → (Cell → Cell) → State
at_cell s pos f = record s { cells = modify s.cells (bit_and pos s.mask) f }

abbrev pub at_payload : State → ℕ → (Record → Record) → State
at_payload s pos f = at_cell s pos (λ cell. record cell { payload = f cell.payload })

-- What the loop of `Log` does once it has loaded the sequence.
unfoldable pub try_cell : ℕ → Call → ℕ → ℕ → State → State
try_cell i c pos seq s =
    if diff_is_zero seq pos
    then goto s i (claiming c pos)
    else if diff_is_negative seq pos
    then goto s i dropping
    else goto s i (loading c)

-- `compare_exchange_weak`, which may fail without a reason; when it fails it loads.
unfoldable pub claim : ℕ → Bool → Call → ℕ → State → State
claim i spurious c pos s =
    if spurious
    then goto s i (trying c s.enqueue_pos)
    else if s.enqueue_pos == pos
    then goto (record s { enqueue_pos = u64 (pos + 1) }) i (set_time c pos)
    else goto s i (trying c s.enqueue_pos)

-- The next access of producer `i`; `now` is what the clock reads if it is read, and `spurious`
-- says whether a weak compare-exchange fails without a reason.
unfoldable pub log_step : ℕ → ℕ → Bool → Producer → State → State
unfolding try_cell claim
log_step i now spurious idle s = s
log_step i now spurious (called c) s =
    if below c.level s.min_level then goto s i idle else goto s i (loading c)
log_step i now spurious (loading c) s = goto s i (trying c s.enqueue_pos)
log_step i now spurious (trying c pos) s = elim (get_elem? s.cells (bit_and pos s.mask)) [
  | none ↦ s
  | some cell ↦ try_cell i c pos cell.sequence s
]
log_step i now spurious (claiming c pos) s = claim i spurious c pos s
log_step i now spurious dropping s = goto (record s { dropped = u64 (s.dropped + 1) }) i idle
log_step i now spurious (set_time c pos) s =
    goto (at_payload s pos (λ rec. record rec { time = now })) i (set_level c pos now)
log_step i now spurious (set_level c pos time) s =
    goto (at_payload s pos (λ rec. record rec { level = c.level })) i (set_text c pos time)
log_step i now spurious (set_text c pos time) s =
    goto
      (at_payload s pos (λ rec.
        let (msg, len) = format_into rec.msg max_msg_len c.outcome in
        record rec { len = len; msg = msg }))
      i (publish c pos time)
log_step i now spurious (publish c pos time) s =
    goto (at_cell s pos (λ cell. record cell { sequence = u64 (pos + 1) })) i idle

-- The next access of the drain thread.
unfoldable pub drain_step : Drain → State → State
drain_step top s = record s { drain = got_pos s.dequeue_pos }
drain_step (got_pos pos) s = elim (get_elem? s.cells (bit_and pos s.mask)) [
  | none ↦ s
  | some cell ↦
      if diff_is_zero cell.sequence (u64 (pos + 1))
      then record s { drain = logging pos }
      else record s { drain = saw_empty }
]
drain_step saw_empty s =
    if s.running then record s { drain = top } else record s { drain = closing }
drain_step (logging pos) s = elim (get_elem? s.cells (bit_and pos s.mask)) [
  | none ↦ s
  | some cell ↦ record s { sink = s.sink ++ (entry_of cell.payload ∷ []); drain = storing pos }
]
drain_step (storing pos) s = record s { dequeue_pos = u64 (pos + 1); drain = freeing pos }
drain_step (freeing pos) s =
    record (at_cell s pos (λ cell. record cell { sequence = u64 (pos + s.mask + 1) })) {
      drain = top;
    }
drain_step closing s = record s { flushed = length s.sink; drain = ended }
drain_step ended s = s

-- The next access of `Flush`.
unfoldable pub flush_step : Flusher → State → State
flush_step away s = s
flush_step waiting s = record s { flusher = compare_head s.dequeue_pos }
flush_step (compare_head pos) s =
    if pos == s.enqueue_pos then record s { flusher = flushing } else record s { flusher = waiting }
flush_step flushing s = record s { flushed = length s.sink; flusher = away }

pub data Event : Type 0 where
  log : ℕ → Call → Event  -- a producer calls `Log`
  produce : ℕ → ℕ → Bool → Event  -- a producer goes on: the clock, a spurious failure
  consume : Event  -- the drain thread goes on
  flush : Event  -- a thread calls `Flush`
  flush_on : Event  -- and goes on
  change_level : LogLevel → Event  -- `SetLevel`
  stop : Event  -- the destructor's store to `running_`

-- A producer that is not idle does not call `Log` again.
unfoldable pub begin_log : ℕ → Call → Producer → State → State
begin_log i c idle s = goto s i (called c)
begin_log i c busy s = s

unfoldable pub begin_flush : Flusher → State → State
begin_flush away s = record s { flusher = waiting }
begin_flush busy s = s

unfoldable pub step : State → Event → State
unfolding log_step drain_step flush_step begin_log begin_flush
step s (log i c) = begin_log i c (s.producers i) s
step s (produce i now spurious) = log_step i now spurious (s.producers i) s
step s consume = drain_step s.drain s
step s flush = begin_flush s.flusher s
step s flush_on = flush_step s.flusher s
step s (change_level l) = record s { min_level = l }
step s stop = record s { running = false }

unfoldable pub run : State → List Event → State
unfolding step
run s [] = s
run s (e ∷ es) = run (step s e) es
