-- ===== src/Logging/MpscRtLogger/Alone.antt =====
-- `DrainLoop` and `Flush` taking turns, in whatever order: the drain thread catches up, and from
-- then on each access brings `Flush` nearer to its return.
use xm_sigma.Common.{ℕ, zero, suc, ◌+◌, ◌^◌, ◌≤◌, ◌<◌, ◌≡◌, refl, ap, subst, arith}
use xm_sigma.Common.{List, [], ◌∷◌, true, inl, inr}
use xm_sigma.Common.{Bool-cases, append-nil, ◌==◌}
use xm_sigma.Logging.RtLogger.{Flusher, away, waiting, compare_head, flushing}
use xm_sigma.Common.{◌-◌, if◌then◌else◌}
use xm_sigma.Logging.MpscRtLogger.{State, Event, consume, flush_on, step, run, flush_step}
use xm_sigma.Logging.MpscRtLogger.{}
use xm_sigma.Logging.MpscRtLogger.Invariant.{Claims, IsMpsc}
use xm_sigma.Logging.MpscRtLogger.Steps.{step-IsMpsc}
use xm_sigma.Logging.MpscRtLogger.Pending.{IsPending}
use xm_sigma.Logging.MpscRtLogger.Pending.Steps.{step-IsPending}
use xm_sigma.Logging.MpscRtLogger.Growth.{drain_step-Grows}
use xm_sigma.Logging.MpscRtLogger.Draining.{behind}
use xm_sigma.Logging.MpscRtLogger.Working.{Works, drain_step-Works, caught_up, flush_step-Works}

-- What stays true while the drain thread and `Flush` alone take turns.
pub record Alone (n : ℕ) (s : State) (claims : Claims) (bound : ℕ) : Type 0 where
  pub small : s.enqueue_pos + n < 2 ^ 63
  pub ring : IsMpsc n s claims
  pub pending : IsPending n s claims
  pub works : Works s bound

caught_up-Alone : {n : ℕ} (s : State) (claims : Claims) → Alone n s claims 0 → behind s ≡ 0
caught_up-Alone s claims h = caught_up s s.drain h.works.alive h.works.soon

more_time : (s : State) → Works s 0 → Works s 1
more_time s w = record {
  still = w.still;
  on = w.on;
  alive = w.alive;
  soon = inl (caught_up s s.drain w.alive w.soon);
}

consume_once :
    {n : ℕ} (k : ℕ) (s : State) (claims : Claims)
    → Alone n s claims (suc k)
    → Alone n (step s consume) claims k
consume_once {n} k s claims h =
    let v' : IsMpsc n (step s consume) claims =
      rw (← append-nil claims) (step-IsMpsc s consume claims h.small h.ring) in
    record {
      small = omega (arith, h.small, h.ring.ring.count, v'.ring.count);
      ring = v';
      pending = rw (← append-nil claims) (step-IsPending s consume claims h.small h.ring h.pending);
      works =
          unfold step in
          drain_step-Works s h.ring h.pending h.small k h.works.still h.works.on s.drain
            h.ring.drain_ok h.works.alive h.works.soon;
    }

consume-Alone :
    {n : ℕ} (k : ℕ) (s : State) (claims : Claims)
    → Alone n s claims k
    → Alone n (step s consume) claims (k - 1)
consume-Alone zero s claims h =
    consume_once 0 s claims
      (record { small = h.small; ring = h.ring; pending = h.pending; works = more_time s h.works })
consume-Alone {n} (suc k) s claims h =
    subst (Alone n (step s consume) claims) {x = k} (omega arith) (consume_once k s claims h)

flush_on-Alone :
    {n : ℕ} (k : ℕ) (s : State) (claims : Claims)
    → Alone n s claims k
    → Alone n (step s flush_on) claims k
flush_on-Alone {n} k s claims h =
    let v' : IsMpsc n (step s flush_on) claims =
      rw (← append-nil claims) (step-IsMpsc s flush_on claims h.small h.ring) in
    record {
      small = omega (arith, h.small, h.ring.ring.count, v'.ring.count);
      ring = v';
      pending =
          rw (← append-nil claims) (step-IsPending s flush_on claims h.small h.ring h.pending);
      works = unfold step in flush_step-Works k s.flusher s h.works;
    }

-- The list has turns of the drain thread and of `Flush` alone.
abbrev pub Turns : List Event → Type 0
Turns [] = Unit
Turns (consume ∷ es) = Turns es
Turns (flush_on ∷ es) = Turns es
Turns (e ∷ es) = ⊥

abbrev pub drain_turns : List Event → ℕ
drain_turns [] = 0
drain_turns (consume ∷ es) = suc (drain_turns es)
drain_turns (e ∷ es) = drain_turns es

abbrev pub flush_turns : List Event → ℕ
flush_turns [] = 0
flush_turns (flush_on ∷ es) = suc (flush_turns es)
flush_turns (e ∷ es) = flush_turns es

pub catches_up :
    {n : ℕ} (es : List Event) (k : ℕ) (s : State) (claims : Claims)
    → Turns es
    → k ≤ drain_turns es
    → Alone n s claims k
    → Alone n (run s es) claims 0
unfolding run
catches_up {n} [] k s claims only le h = subst (Alone n s claims) (omega arith) h
catches_up (consume ∷ es) k s claims only le h =
    catches_up es (k - 1) (step s consume) claims only (omega arith) (consume-Alone k s claims h)
catches_up (flush_on ∷ es) k s claims only le h =
    catches_up es k (step s flush_on) claims only le (flush_on-Alone k s claims h)
catches_up (e ∷ es) k s claims only le h = absurd only

-- How many accesses `Flush` has left once the drain thread has caught up.
abbrev pub to_go : Flusher → ℕ → ℕ
to_go away pos = 0
to_go flushing pos = 1
to_go (compare_head p) pos = if p == pos then 2 else 4
to_go waiting pos = 3

flush_step-nearer :
    (f : Flusher) (s : State)
    → s.flusher ≡ f
    → (s.dequeue_pos == s.enqueue_pos) ≡ true
    → to_go (flush_step f s).flusher (flush_step f s).enqueue_pos ≤ to_go f s.enqueue_pos - 1
unfolding flush_step
flush_step-nearer away s off e = omega (arith, ap (λ g. to_go g s.enqueue_pos) off)
flush_step-nearer waiting s on e = rw e (omega arith)
flush_step-nearer (compare_head p) s on e = elim (Bool-cases (p == s.enqueue_pos)) [
  | inl same ↦ rw same (omega arith)
  | inr other ↦ rw other (omega arith)
]
flush_step-nearer flushing s on e = omega arith

none_behind :
    {n : ℕ} (s : State) (claims : Claims)
    → IsMpsc n s claims
    → behind s ≡ 0
    → (s.dequeue_pos == s.enqueue_pos) ≡ true
unfolding behind
none_behind s claims v e = ground (arith, v.ring.order)

to_go_none : (f : Flusher) (pos : ℕ) → to_go f pos ≤ 0 → f ≡ away
to_go_none away pos le = refl
to_go_none waiting pos le = absurd (omega arith)
to_go_none (compare_head p) pos le = ground arith
to_go_none flushing pos le = absurd (omega arith)

pub finishes :
    {n : ℕ} (es : List Event) (s : State) (claims : Claims)
    → Turns es
    → to_go s.flusher s.enqueue_pos ≤ flush_turns es
    → Alone n s claims 0
    → (run s es).flusher ≡ away
unfolding run
finishes [] s claims only le h = to_go_none s.flusher s.enqueue_pos le
finishes {n} (consume ∷ es) s claims only le h =
    let h' = consume-Alone 0 s claims h in
    let same : (step s consume).flusher ≡ s.flusher =
      unfold step in (drain_step-Grows s n s.drain h.small h.ring.drain_ok).same in
    let pos : (step s consume).enqueue_pos ≡ s.enqueue_pos =
      omega (arith, h.ring.ring.count, h'.ring.ring.count) in
    finishes es (step s consume) claims only (rw (same, pos) le) h'
finishes (flush_on ∷ es) s claims only le h =
    let found = none_behind s claims h.ring (caught_up-Alone s claims h) in
    finishes es (step s flush_on) claims only
      (unfold step in omega (arith, flush_step-nearer s.flusher s refl found))
      (flush_on-Alone 0 s claims h)
finishes (e ∷ es) s claims only le h = absurd only
