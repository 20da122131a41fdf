-- ===== src/Logging/RtLogger/Hot.antt =====
-- The hot path: when a record is filtered, dropped or kept, that the producer and the drain
-- thread never touch one slot together, and that a call of `Log` is over after seven accesses.
use xm_sigma.Common.{ℕ, suc, ◌+◌, ◌-◌, ◌%◌, ◌≤◌, ◌<◌, ◌≡◌, ◌≢◌, refl, ◌∙◌, ap, arith}
use xm_sigma.Common.{List, [], ◌∷◌, length, bit_and}
use xm_sigma.Common.{Option, none, some}
use xm_sigma.Common.Indices.{IsSize, index_ne, index_in_range, u64-mod, mask_lem}
use xm_sigma.Logging.Level.{LogLevel}
use xm_sigma.Logging.RtLogger.{Record, State, Event, log, produce, step, run, construct, log_step}
use xm_sigma.Logging.RtLogger.{consume, flush, flush_on, change_level, stop}
use xm_sigma.Logging.RtLogger.{
  Producer, idle, called, loading, admitted, dropping, set_level, set_time, set_text, publish,
}
use xm_sigma.Logging.RtLogger.{
  Drain, top, got_tail, saw_empty, logging, freeing, closing, ended, flush_step, begin_stop,
  begin_flush, drain_step, Flusher, away,
}
use xm_sigma.Logging.RtLogger.Invariant.{ProducerOk, DrainOk}
use xm_sigma.Logging.RtLogger.Steps.{run-IsLogger}
use xm_sigma.Logging.RtLogger.Delivery.{AreSlots, construct-IsLogger}

-- The index of the slot that the producer is filling.
abbrev pub writing : Producer → Option ℕ
writing idle = none
writing (called c) = none
writing (loading c) = none
writing (admitted c h) = none
writing dropping = none
writing (set_level c h) = some h
writing (set_time c h) = some h
writing (set_text c h t) = some h
writing (publish c h t) = some h

-- The index of the slot that the drain thread is giving to the sink.
abbrev pub reading : Drain → Option ℕ
reading top = none
reading (got_tail t) = none
reading saw_empty = none
reading (logging t) = some t
reading (freeing t) = none
reading closing = none
reading ended = none

same : (i h : ℕ) → some i ≡ some h → h ≡ i
same i h e = cc

owned :
    (n : ℕ) (ring : List Record) (head len h : ℕ) (p : Producer)
    → writing p ≡ some h
    → ProducerOk n ring head len p
    → (h ≡ head) × (len < n)
owned n ring head len h idle e ok = cc
owned n ring head len h (called c) e ok = cc
owned n ring head len h (loading c) e ok = cc
owned n ring head len h (admitted c i) e ok = cc
owned n ring head len h dropping e ok = cc
owned n ring head len h (set_level c i) e ok = (same i h e ∙ ok.0, ok.1)
owned n ring head len h (set_time c i) e ok = (same i h e ∙ ok.0, ok.1)
owned n ring head len h (set_text c i t) e ok = (same i h e ∙ ok.0, ok.1)
owned n ring head len h (publish c i t) e ok = (same i h e ∙ ok.0, ok.1)

read_at :
    (tail len t : ℕ) (d : Drain) → reading d ≡ some t → DrainOk tail len d → (t ≡ tail) × (0 < len)
read_at tail len t top e ok = cc
read_at tail len t (got_tail i) e ok = cc
read_at tail len t saw_empty e ok = cc
read_at tail len t (logging i) e ok = (same i t e ∙ ok.0, ok.1)
read_at tail len t (freeing i) e ok = cc
read_at tail len t closing e ok = cc
read_at tail len t ended e ok = cc

-- The hot path never races with the drain thread: in every interleaving the slot that the
-- producer fills lies inside the ring and is not the slot that the drain thread reads.
pub no_data_race :
    (n : ℕ) (slots : List Record) (level : LogLevel) (es : List Event) (h t : ℕ)
    → IsSize n
    → AreSlots n slots
    → let s = run (construct n slots level) es in
      writing s.producer ≡ some h
      → reading s.drain ≡ some t
      → (bit_and h s.mask < length s.ring) × (bit_and h s.mask ≢ bit_and t s.mask)
no_data_race n slots level es h t size slots_ok eh et =
    let s = run (construct n slots level) es in
    let v =
      run-IsLogger es (construct n slots level) [] (construct-IsLogger slots level size slots_ok) in
    let (h_is, free) = owned n s.ring s.head (length v.q) h s.producer eh v.producer_ok in
    let (t_is, used) = read_at s.tail (length v.q) t s.drain et v.drain_ok in
    let cell_h : bit_and h s.mask ≡ (s.tail + length v.q) % n =
      ap (bit_and h) v.in_use.mask_is
      ∙ mask_lem size h
      ∙ ap (λ (i : ℕ). i % n) (h_is ∙ v.in_use.head_at)
      ∙ u64-mod size (s.tail + length v.q) in
    let cell_t : bit_and t s.mask ≡ s.tail % n =
      ap (bit_and t) v.in_use.mask_is ∙ mask_lem size t ∙ ap (λ (i : ℕ). i % n) t_is in
    (
      rw (cell_h, v.in_use.array) (index_in_range size (s.tail + length v.q)),
      rw (cell_h, cell_t) (index_ne size s.tail (length v.q) used free),
    )

-- How many accesses a call of `Log` has left at most.
abbrev pub left : Producer → ℕ
left idle = 0
left (called c) = 7
left (loading c) = 6
left (admitted c h) = 5
left dropping = 1
left (set_level c h) = 4
left (set_time c h) = 3
left (set_text c h t) = 2
left (publish c h t) = 1

-- How many accesses the producer gets in a list of events.
abbrev pub turns : List Event → ℕ
turns [] = 0
turns (produce now ∷ es) = suc (turns es)
turns (e ∷ es) = turns es

-- The list holds no new call of `Log`.
abbrev pub NoCall : List Event → Type 0
NoCall [] = Unit
NoCall (log c ∷ es) = ⊥
NoCall (e ∷ es) = NoCall es

left-log_step :
    (now : ℕ) (p : Producer) (s : State)
    → s.producer ≡ p
    → left (log_step now p s).producer ≤ left p - 1
unfolding log_step
left-log_step now idle s e = omega (arith, ap left e)
left-log_step now p s e = ground arith

idle_of_left : (p : Producer) → left p ≡ 0 → p ≡ idle
idle_of_left idle e = refl
idle_of_left p e = absurd (omega arith)

producer-flush_step : (f : Flusher) (s : State) → (flush_step f s).producer ≡ s.producer
unfolding flush_step
producer-flush_step away s = refl
producer-flush_step f s = ground arith

producer-drain_step : (d : Drain) (s : State) → (drain_step d s).producer ≡ s.producer
unfolding drain_step
producer-drain_step top s = refl
producer-drain_step d s = ground arith

producer-begin_stop : (p : Producer) (s : State) → (begin_stop p s).producer ≡ s.producer
unfolding begin_stop
producer-begin_stop idle s = refl
producer-begin_stop p s = refl

producer-begin_flush : (f : Flusher) (s : State) → (begin_flush f s).producer ≡ s.producer
unfolding begin_flush
producer-begin_flush away s = refl
producer-begin_flush f s = refl

wait_free_from :
    (es : List Event) (s : State)
    → NoCall es
    → left s.producer ≤ turns es
    → (run s es).producer ≡ idle
unfolding run
wait_free_from [] s h le = idle_of_left s.producer (omega arith)
wait_free_from (produce now ∷ es) s h le =
    wait_free_from es (step s (produce now)) h
      (unfold step in omega (arith, left-log_step now s.producer s refl))
wait_free_from (log c ∷ es) s h le = absurd h
wait_free_from (consume ∷ es) s h le =
    wait_free_from es (step s consume) h
      (unfold step in omega (arith, ap left (producer-drain_step s.drain s)))
wait_free_from (flush ∷ es) s h le =
    wait_free_from es (step s flush) h
      (unfold step in omega (arith, ap left (producer-begin_flush s.flusher s)))
wait_free_from (flush_on ∷ es) s h le =
    wait_free_from es (step s flush_on) h
      (unfold step in omega (arith, ap left (producer-flush_step s.flusher s)))
wait_free_from (change_level l ∷ es) s h le =
    wait_free_from es (step s (change_level l)) h (unfold step in le)
wait_free_from (stop ∷ es) s h le =
    wait_free_from es (step s stop) h
      (unfold step in omega (arith, ap left (producer-begin_stop s.producer s)))

-- A call of `Log` never waits: from any state, full ring, stopped or slow drain thread included,
-- the producer is done after at most seven accesses of its own, whatever the other threads do in
-- between.
pub log_wait_free :
    (es : List Event) (s : State) → NoCall es → 7 ≤ turns es → (run s es).producer ≡ idle
log_wait_free es s h le = wait_free_from es s h (omega (arith, at_most s.producer))
  where
    at_most : (p : Producer) → left p ≤ 7
    at_most idle = omega arith
    at_most p = omega arith
