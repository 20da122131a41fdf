-- ===== src/Logging/RtLogger/Invariant.antt =====
-- The invariant of an `RtLogger`, for every interleaving: which slots hold records that are
-- published and not yet freed, and what each thread's locals say.
use xm_sigma.Common.{ℕ, ◌+◌, ◌-◌, ◌%◌, ◌^◌, ◌≤◌, ◌<◌, ◌≡◌}
use xm_sigma.Common.{List, ◌++◌, map, length, drop, All, get_elem?, some, u64}
use xm_sigma.Common.Indices.{IsSize}
use xm_sigma.Common.Cells.{Holds}
use xm_sigma.Logging.Level.{to_spdlog_level}
use xm_sigma.Logging.Format.{visible}
use xm_sigma.Logging.RtLogger.{Record, Entry, entry_of, Call, State, max_msg_len}
use xm_sigma.Logging.RtLogger.{
  Producer, idle, called, loading, admitted, dropping, set_level, set_time, set_text, publish,
}
use xm_sigma.Logging.RtLogger.{Drain, top, got_tail, saw_empty, logging, freeing, closing, ended}

-- What the sink is to be given for a call: the formatted text cut to the slot, or the diagnostic.
abbrev pub logged : Call → ℕ → Entry
logged c time = (time, to_spdlog_level c.level, visible max_msg_len c.outcome)

abbrev pub Slot : List Record → ℕ → (Record → Type 0) → Type 0
Slot ring i P = (rec : Record) × (get_elem? ring i ≡ some rec) × P rec

-- What the producer's locals say; `len` slots are in use.
abbrev pub ProducerOk : ℕ → List Record → ℕ → ℕ → Producer → Type 0
ProducerOk n ring head len idle = Unit
ProducerOk n ring head len (called c) = Unit
ProducerOk n ring head len (loading c) = Unit
ProducerOk n ring head len (admitted c h) = h ≡ head
ProducerOk n ring head len dropping = Unit
ProducerOk n ring head len (set_level c h) = (h ≡ head) × (len < n)
ProducerOk n ring head len (set_time c h) =
    (h ≡ head) × (len < n) × Slot ring (h % n) (λ rec. rec.level ≡ c.level)
ProducerOk n ring head len (set_text c h t) =
    (h ≡ head) × (len < n) × Slot ring (h % n) (λ rec. (rec.level ≡ c.level) × (rec.time ≡ t))
ProducerOk n ring head len (publish c h t) =
    (h ≡ head) × (len < n) × Slot ring (h % n) (λ rec. entry_of rec ≡ logged c t)

abbrev pub DrainOk : ℕ → ℕ → Drain → Type 0
DrainOk tail len top = Unit
DrainOk tail len (got_tail t) = t ≡ tail
DrainOk tail len saw_empty = Unit
DrainOk tail len (logging t) = (t ≡ tail) × (0 < len)
DrainOk tail len (freeing t) = (t ≡ tail) × (0 < len)
DrainOk tail len closing = Unit
DrainOk tail len ended = Unit

-- The records in use that the sink has not been given: the drain thread gives one to the sink
-- before it frees the slot.
abbrev pub unread : Drain → List Record → List Record
unread top q = q
unread (got_tail t) q = q
unread saw_empty q = q
unread (logging t) q = q
unread (freeing t) q = drop 1 q
unread closing q = q
unread ended q = q

-- The slots from `tail` up to `head` hold the records `q`, at most one in each of the n slots.
pub record InSlots (n capacity mask : ℕ) (ring : List Record) (head tail : ℕ) (q : List Record)
    : Type 0 where
  pub size : IsSize n
  pub capacity_is : capacity ≡ n
  pub mask_is : mask ≡ n - 1
  pub array : length ring ≡ n
  pub slots : All (λ rec. length rec.msg ≡ max_msg_len) ring
  pub tail_range : tail < 2 ^ 64
  pub head_at : head ≡ u64 (tail + length q)
  pub room : length q ≤ n
  pub cells : Holds n ring tail q

abbrev pub InUse : ℕ → State → List Record → Type 0
InUse n s q = InSlots n s.capacity s.mask s.ring s.head s.tail q

-- `published` is what the producer has published so far, in order: the sink's part of it, and
-- behind that the records still to be read.
pub record IsLogger (n : ℕ) (s : State) (published : List Entry) : Type 0 where
  pub q : List Record
  pub in_use : InUse n s q
  pub delivered : published ≡ s.sink ++ map entry_of (unread s.drain q)
  pub producer_ok : ProducerOk n s.ring s.head (length q) s.producer
  pub drain_ok : DrainOk s.tail (length q) s.drain
