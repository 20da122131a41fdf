-- ===== src/Logging/MpscRtLogger/Invariant.antt =====
-- The invariant of an `MpscRtLogger` with at least two cells, for every interleaving: which
-- positions are claimed, what their cells hold, and what each thread's locals say. `claims` are
-- the calls that have claimed a position so far, with their producers, in the order of claiming.
use xm_sigma.Common.{ℕ, ◌+◌, ◌-◌, ◌^◌, ◌≤◌, ◌<◌, ◌≡◌}
use xm_sigma.Common.{List, [], ◌∷◌, length, All, get_elem?, Option, some, none, ◌⊎◌}
use xm_sigma.Common.Indices.{IsSize}
use xm_sigma.Logging.RtLogger.{Record, Entry, entry_of, Call, max_msg_len}
use xm_sigma.Logging.RtLogger.Invariant.{logged}
use xm_sigma.Logging.MpscRtLogger.{Cell, State, Producer, idle, called, loading, trying, claiming}
use xm_sigma.Logging.MpscRtLogger.{dropping, set_time, set_level, set_text, publish}
use xm_sigma.Logging.MpscRtLogger.{
  Drain, top, got_pos, saw_empty, logging, storing, freeing, closing, ended,
}
use xm_sigma.Logging.MpscRtLogger.Slots.{At}

abbrev pub Claims : Type 0
Claims = List (ℕ × Call)

-- The record of a call, with a reading of the clock.
abbrev pub IsRecord : Call → Entry → Type 0
IsRecord c e = (time : ℕ) × (e ≡ logged c time)

-- The entries are the records of the first claims, in order.
abbrev pub Delivered : Claims → List Entry → Type 0
Delivered claims [] = Unit
Delivered [] (e ∷ es) = ⊥
Delivered ((i, c) ∷ claims) (e ∷ es) = IsRecord c e × Delivered claims es

-- The cell of a claimed position: not yet published, or with the call's record.
abbrev pub HeldCell : ℕ → Call → Cell → Type 0
HeldCell p c cell =
    (cell.sequence ≡ p) ⊎ ((cell.sequence ≡ p + 1) × IsRecord c (entry_of cell.payload))

pub record Held (n : ℕ) (cells : List Cell) (claims : Claims) (p : ℕ) : Type 0 where
  pub owner : ℕ
  pub call : Call
  pub claimed : get_elem? claims p ≡ some (owner, call)
  pub at : At n cells p (HeldCell p call)

abbrev pub Sequence : ℕ → Cell → Type 0
Sequence q cell = cell.sequence ≡ q

-- Producer `i` fills the cell of `p` for its call `c`, and has come to where `P` holds.
pub record Writes (n : ℕ) (cells : List Cell) (first next : ℕ) (claims : Claims) (i : ℕ) (c : Call)
    (p : ℕ) (P : Record → Type 0) : Type 0 where
  pub from : first ≤ p
  pub before : p < next
  pub claimed : get_elem? claims p ≡ some (i, c)
  pub at : At n cells p (λ cell. (cell.sequence ≡ p) × P cell.payload)

abbrev pub Anything : Record → Type 0
Anything rec = Unit

-- What the locals of producer `i` say.
abbrev pub ProducerOk : ℕ → List Cell → ℕ → ℕ → Claims → ℕ → Producer → Type 0
ProducerOk n cells first next claims i idle = Unit
ProducerOk n cells first next claims i (called c) = Unit
ProducerOk n cells first next claims i (loading c) = Unit
ProducerOk n cells first next claims i (trying c p) = p ≤ next
ProducerOk n cells first next claims i (claiming c p) =
    (p ≤ next) × (p ≡ next → At n cells p (Sequence p))
ProducerOk n cells first next claims i dropping = Unit
ProducerOk n cells first next claims i (set_time c p) =
    Writes n cells first next claims i c p Anything
ProducerOk n cells first next claims i (set_level c p t) =
    Writes n cells first next claims i c p (λ rec. rec.time ≡ t)
ProducerOk n cells first next claims i (set_text c p t) =
    Writes n cells first next claims i c p (λ rec. (rec.time ≡ t) × (rec.level ≡ c.level))
ProducerOk n cells first next claims i (publish c p t) =
    Writes n cells first next claims i c p (λ rec. entry_of rec ≡ logged c t)

-- What the drain thread's locals say.
abbrev pub DrainOk : ℕ → List Cell → ℕ → ℕ → Drain → Type 0
DrainOk n cells first next top = Unit
DrainOk n cells first next (got_pos p) = p ≡ first
DrainOk n cells first next saw_empty = Unit
DrainOk n cells first next (logging p) =
    (p ≡ first) × (first < next) × At n cells p (Sequence (p + 1))
DrainOk n cells first next (storing p) =
    (p ≡ first) × (first < next) × At n cells p (Sequence (p + 1))
DrainOk n cells first next (freeing p) =
    (first ≡ p + 1) × (next ≤ p + n) × At n cells p (Sequence (p + 1))
DrainOk n cells first next closing = Unit
DrainOk n cells first next ended = Unit

-- The position whose cell a producer is filling.
abbrev pub writing : Producer → Option ℕ
writing idle = none
writing (called c) = none
writing (loading c) = none
writing (trying c p) = none
writing (claiming c p) = none
writing dropping = none
writing (set_time c p) = some p
writing (set_level c p t) = some p
writing (set_text c p t) = some p
writing (publish c p t) = some p

-- The position whose cell the drain thread is giving to the sink or has yet to free.
abbrev pub reading : Drain → Option ℕ
reading top = none
reading (got_pos p) = none
reading saw_empty = none
reading (logging p) = some p
reading (storing p) = some p
reading (freeing p) = some p
reading closing = none
reading ended = none

-- How many records the sink was given: one more than `dequeue_pos_` says while it is behind.
abbrev pub given : Drain → ℕ → ℕ
given top first = first
given (got_pos p) first = first
given saw_empty first = first
given (logging p) first = first
given (storing p) first = first + 1
given (freeing p) first = first
given closing first = first
given ended first = first

abbrev pub CellOk : Cell → Type 0
CellOk cell = (length cell.payload.msg ≡ max_msg_len) × (cell.sequence < 2 ^ 63)

-- Up to which position the cells are freed: one less than `n` behind `dequeue_pos_` while the drain
-- thread has moved that on and has yet to free the cell.
abbrev pub freed : ℕ → Drain → ℕ → ℕ
freed n top first = first + n
freed n (got_pos p) first = first + n
freed n saw_empty first = first + n
freed n (logging p) first = first + n
freed n (storing p) first = first + n
freed n (freeing p) first = p + n
freed n closing first = first + n
freed n ended first = first + n

-- The ring: the positions from `first` up to `next` are claimed, and from there up to `limit` the
-- cells are free.
pub record IsRing (n : ℕ) (capacity mask : ℕ) (cells : List Cell) (first limit next : ℕ)
    (claims : Claims) : Type 0 where
  pub size : IsSize n
  pub two : 2 ≤ n
  pub capacity_is : capacity ≡ n
  pub mask_is : mask ≡ n - 1
  pub array : length cells ≡ n
  pub cells_ok : All CellOk cells
  pub count : next ≡ length claims
  pub order : first ≤ next
  pub room : next ≤ first + n
  pub held : (p : ℕ) → first ≤ p → p < next → Held n cells claims p
  pub limit_lo : first + n ≤ limit + 1
  pub limit_hi : limit ≤ first + n
  pub free : (p : ℕ) → next ≤ p → p < limit → At n cells p (Sequence p)

pub record IsMpsc (n : ℕ) (s : State) (claims : Claims) : Type 0 where
  pub ring :
      IsRing n s.capacity s.mask s.cells s.dequeue_pos
        (freed n s.drain s.dequeue_pos)
        s.enqueue_pos
        claims
  pub producers_ok :
      (i : ℕ) → ProducerOk n s.cells s.dequeue_pos s.enqueue_pos claims i (s.producers i)
  pub drain_ok : DrainOk n s.cells s.dequeue_pos s.enqueue_pos s.drain
  pub delivered : Delivered claims s.sink
  pub given_is : length s.sink ≡ given s.drain s.dequeue_pos
