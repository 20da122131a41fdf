-- ===== src/Logging/MpscRtLogger/Accounts.antt =====
-- Every call of `Log` comes to exactly one of three ends, and `dropped_` counts those of one kind.
pub mod Drops
pub mod Calls
use xm_sigma.Common.{ℕ, ◌+◌, ◌≡◌, refl, sym, ◌∙◌, ap, arith, u64}
use xm_sigma.Common.{
  Bool, true, false, Bool-cases, inl, inr, ◌==◌, ==_self, eq_of_==, if◌then◌else◌,
}
use xm_sigma.Common.{List, [], ◌∷◌, ◌++◌, length, get_elem?, Option, some, none, bit_and}
use xm_sigma.Logging.Level.{LogLevel, below}
use xm_sigma.Logging.RtLogger.{Record, Call, Flusher, away, waiting, compare_head, flushing}
use xm_sigma.Logging.MpscRtLogger.{
  Cell, State, Event, log, produce, consume, flush, flush_on, change_level, stop, step, run,
}
use xm_sigma.Logging.MpscRtLogger.{construct, log_step, try_cell, claim, begin_log, begin_flush}
use xm_sigma.Logging.MpscRtLogger.{drain_step, flush_step, diff_is_zero, diff_is_negative, update}
use xm_sigma.Logging.MpscRtLogger.{Producer, idle, called, loading, trying, claiming}
use xm_sigma.Logging.MpscRtLogger.{dropping, set_time, set_level, set_text, publish}
use xm_sigma.Logging.MpscRtLogger.{
  Drain, top, got_pos, saw_empty, logging, storing, freeing, closing, ended,
}
use xm_sigma.Logging.MpscRtLogger.Invariant.{Claims}
use xm_sigma.Logging.MpscRtLogger.Produce.{claimed_by}
use xm_sigma.Logging.MpscRtLogger.Steps.{claimed, history}

-- Whether a producer is in a call of `Log` that has not come to its end: it has neither been
-- filtered nor dropped nor has it claimed a position.
abbrev pub pending : Producer → ℕ
pending idle = 0
pending (called c) = 1
pending (loading c) = 1
pending (trying c p) = 1
pending (claiming c p) = 1
pending dropping = 1
pending (set_time c p) = 0
pending (set_level c p t) = 0
pending (set_text c p t) = 0
pending (publish c p t) = 0

abbrev pub begun_by : Producer → ℕ
begun_by idle = 1
begun_by p = 0

abbrev pub filtered_by : LogLevel → Producer → ℕ
filtered_by level (called c) = if below c.level level then 1 else 0
filtered_by level p = 0

abbrev pub dropped_by : Producer → ℕ
dropped_by dropping = 1
dropped_by p = 0

-- How many of the claims are those of producer `i`.
abbrev pub owned : ℕ → Claims → ℕ
owned i [] = 0
owned i ((j, c) ∷ claims) = (if j == i then 1 else 0) + owned i claims

-- The calls of producer `i` that an event begins, that it filters and that it drops.
abbrev pub begun : ℕ → State → Event → ℕ
begun i s (log j c) = if j == i then begun_by (s.producers j) else 0
begun i s e = 0

abbrev pub filtered : ℕ → State → Event → ℕ
filtered i s (produce j now spurious) =
    if j == i then filtered_by s.min_level (s.producers j) else 0
filtered i s e = 0

abbrev pub dropped_of : ℕ → State → Event → ℕ
dropped_of i s (produce j now spurious) = if j == i then dropped_by (s.producers j) else 0
dropped_of i s e = 0

-- The calls of all producers that an event drops.
abbrev pub dropped_any : State → Event → ℕ
dropped_any s (produce j now spurious) = dropped_by (s.producers j)
dropped_any s e = 0

-- How many there are over a list of events.
unfoldable pub total : (State → Event → ℕ) → State → List Event → ℕ
total f s [] = 0
total f s (e ∷ es) = f s e + total f (step s e) es

pub owned-append : (i : ℕ) (xs ys : Claims) → owned i (xs ++ ys) ≡ owned i xs + owned i ys
owned-append i [] ys = omega arith
owned-append i ((j, c) ∷ xs) ys = omega (arith, owned-append i xs ys)

pub either : (P : State → Type 0) (b : Bool) (x y : State) → P x → P y → P (if b then x else y)
either P true x y hx hy = hx
either P false x y hx hy = hy

-- An access of producer `j` is none of producer `i`.
module _ (s : State) (i j : ℕ) (apart : (j == i) ≡ false) where
  abbrev Same : State → Type 0
  Same s' = s'.producers i ≡ s.producers i

  elsewhere : (p : Producer) → update s.producers j p i ≡ s.producers i
  elsewhere p = rw apart refl

  pub log_step-Same :
      (now : ℕ) (spurious : Bool) (p : Producer) → Same (log_step j now spurious p s)
  unfolding log_step try_cell claim
  log_step-Same now spurious idle = refl
  log_step-Same now spurious (called c) =
      either Same (below c.level s.min_level) _ _ (elsewhere _) (elsewhere _)
  log_step-Same now spurious (loading c) = elsewhere _
  log_step-Same now spurious (trying c pos) = from_cell _ refl
    where
      from_cell :
          (o : Option Cell)
          → get_elem? s.cells (bit_and pos s.mask) ≡ o
          → Same (log_step j now spurious (trying c pos) s)
      from_cell none e = rw (e, log_step) refl
      from_cell (some cell) e =
          rw (e, log_step)
            (either Same (diff_is_zero cell.sequence pos) _ _ (elsewhere _)
              (either Same (diff_is_negative cell.sequence pos) _ _ (elsewhere _) (elsewhere _)))
  log_step-Same now spurious (claiming c pos) =
      either Same spurious _ _ (elsewhere _)
        (either Same (s.enqueue_pos == pos) _ _ (elsewhere _) (elsewhere _))
  log_step-Same now spurious p = elsewhere _

  pub begin_log-Same : (c : Call) (p : Producer) → Same (begin_log j c p s)
  unfolding begin_log
  begin_log-Same c idle = elsewhere _
  begin_log-Same c p = refl

  pub not_owned :
      (spurious : Bool) (p : Producer) → owned i (claimed_by j spurious p s.enqueue_pos) ≡ 0
  not_owned true (claiming c pos) = refl
  not_owned false (claiming c pos) = elim (Bool-cases (s.enqueue_pos == pos)) [
    | inl won ↦ rw (won, apart) refl
    | inr lost ↦ rw lost refl
  ]
  not_owned spurious p = refl

-- What an access of producer `i` ends, and what it leaves pending.
module _ (s : State) (i : ℕ) where
  abbrev Left : ℕ → State → Type 0
  Left k s' = pending (s'.producers i) ≡ k

  own : (p : Producer) → pending (update s.producers i p i) ≡ pending p
  own p = rw (==_self i) refl

  trying-Left :
      (now : ℕ) (spurious : Bool) (c : Call) (pos : ℕ) (o : Option Cell)
      → get_elem? s.cells (bit_and pos s.mask) ≡ o
      → s.producers i ≡ trying c pos
      → Left 1 (log_step i now spurious (trying c pos) s)
  unfolding log_step try_cell
  trying-Left now spurious c pos none e at = rw (e, log_step) (ap pending at)
  trying-Left now spurious c pos (some cell) e at =
      rw (e, log_step)
        (either (Left 1) (diff_is_zero cell.sequence pos) _ _ (own _)
          (either (Left 1) (diff_is_negative cell.sequence pos) _ _ (own _) (own _)))

  pub log_step_accounts :
      (now : ℕ) (spurious : Bool) (p : Producer)
      → s.producers i ≡ p
      → pending p
        ≡ filtered_by s.min_level p
          + dropped_by p
          + owned i (claimed_by i spurious p s.enqueue_pos)
          + pending ((log_step i now spurious p s).producers i)
  unfolding log_step claim
  log_step_accounts now spurious idle e = omega (arith, ap pending e)
  log_step_accounts now spurious (called c) e = elim (Bool-cases (below c.level s.min_level)) [
    | inl low ↦ rw low (omega (arith, own idle))
    | inr passed ↦ rw passed (omega (arith, own (loading c)))
  ]
  log_step_accounts now spurious (loading c) e = omega (arith, own (trying c s.enqueue_pos))
  log_step_accounts now spurious (trying c pos) e =
      omega (arith, trying-Left now spurious c pos _ refl e)
  log_step_accounts now true (claiming c pos) e = omega (arith, own (trying c s.enqueue_pos))
  log_step_accounts now false (claiming c pos) e = elim (Bool-cases (s.enqueue_pos == pos)) [
    | inl won ↦ rw (won, ==_self i) refl
    | inr lost ↦ rw lost (omega (arith, own (trying c s.enqueue_pos)))
  ]
  log_step_accounts now spurious dropping e = omega (arith, own idle)
  log_step_accounts now spurious (set_time c pos) e = omega (arith, own (set_level c pos now))
  log_step_accounts now spurious (set_level c pos t) e = omega (arith, own (set_text c pos t))
  log_step_accounts now spurious (set_text c pos t) e = omega (arith, own (publish c pos t))
  log_step_accounts now spurious (publish c pos t) e = omega (arith, own idle)

  pub begin_log_accounts :
      (c : Call) (p : Producer)
      → s.producers i ≡ p
      → begun_by p + pending p ≡ pending ((begin_log i c p s).producers i)
  unfolding begin_log
  begin_log_accounts c idle e = omega (arith, own (called c))
  begin_log_accounts c (called d) e = sym (ap pending e)
  begin_log_accounts c (loading d) e = sym (ap pending e)
  begin_log_accounts c (trying d q) e = sym (ap pending e)
  begin_log_accounts c (claiming d q) e = sym (ap pending e)
  begin_log_accounts c dropping e = sym (ap pending e)
  begin_log_accounts c (set_time d q) e = sym (ap pending e)
  begin_log_accounts c (set_level d q t) e = sym (ap pending e)
  begin_log_accounts c (set_text d q t) e = sym (ap pending e)
  begin_log_accounts c (publish d q t) e = sym (ap pending e)
