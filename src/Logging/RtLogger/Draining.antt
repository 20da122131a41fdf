-- ===== src/Logging/RtLogger/Draining.antt =====
-- The drain thread once `running_` is false: what it has left to do, and that it comes to an end
-- with the ring empty.
use xm_sigma.Common.{ℕ, zero, suc, ◌+◌, ◌-◌, ◌*◌, ◌≤◌, ◌<◌, ◌≡◌, refl, sym, ◌∙◌, ap, subst, arith}
use xm_sigma.Common.{List, [], ◌∷◌, ◌++◌, length, map, ◌==◌, eq_of_==, u64, sub64, false, inl, inr}
use xm_sigma.Common.{Bool-cases, append-nil, bit_and, get_elem?, some}
use xm_sigma.Common.Indices.{size_bound, sub64-u64, mask_lem}
use xm_sigma.Logging.RtLogger.{Record, Entry, entry_of, State, Event, consume, step, run, idle}
use xm_sigma.Logging.RtLogger.{
  Drain, top, got_tail, saw_empty, logging, freeing, closing, ended, drain_step,
}
use xm_sigma.Logging.RtLogger.Invariant.{InUse, IsLogger, DrainOk, unread}
use xm_sigma.Logging.RtLogger.Steps.{consume-IsLogger}

-- Turns of the drain thread.
abbrev pub consumes : ℕ → List Event
consumes zero = []
consumes (suc k) = consume ∷ consumes k

unfoldable pub waiting : State → ℕ
waiting s = sub64 s.head s.tail

-- What the drain thread has left to do once `running_` is false.
abbrev pub todo : Drain → ℕ → ℕ
todo top len = 4 * len + 4
todo (got_tail t) len = 4 * len + 3
todo (logging t) len = 4 * len + 2
todo (freeing t) len = 4 * len + 1
todo saw_empty len = 2
todo closing len = 1
todo ended len = 0

-- Behind the test nothing waits, and at the end all was flushed.
abbrev pub Ready : Drain → ℕ → ℕ → List Entry → Type 0
Ready top len flushed sink = Unit
Ready (got_tail t) len flushed sink = Unit
Ready (logging t) len flushed sink = Unit
Ready (freeing t) len flushed sink = Unit
Ready saw_empty len flushed sink = len ≡ 0
Ready closing len flushed sink = len ≡ 0
Ready ended len flushed sink = (len ≡ 0) × (flushed ≡ length sink)

pub record Stopped (s : State) (bound : ℕ) : Type 0 where
  pub still : s.producer ≡ idle
  pub off : s.running ≡ false
  pub ready : Ready s.drain (waiting s) s.flushed s.sink
  pub soon : todo s.drain (waiting s) ≤ bound

pub occupied : {n : ℕ} (s : State) {q : List Record} → InUse n s q → waiting s ≡ length q
unfolding waiting
occupied s {q = q} v =
    ap (λ (h : ℕ). sub64 h s.tail) v.head_at
    ∙ sub64-u64 s.tail (length q) v.tail_range (omega (arith, v.room, size_bound v.size))

none_left : {n : ℕ} (s : State) {q : List Record} → InUse n s q → s.tail ≡ s.head → waiting s ≡ 0
unfolding waiting
none_left s v e = omega (arith, v.tail_range)

freed :
    {n : ℕ} (s : State) {q : List Record} {t : ℕ}
    → InUse n s q
    → s.tail ≡ t
    → 0 < length q
    → sub64 s.head (u64 (t + 1)) ≡ length q - 1
freed s {q = q} v e some_left = omega (arith, v.tail_range, v.head_at, v.room, size_bound v.size)

Stopped-drain_step :
    {n : ℕ} (s : State) (d : Drain) (bound : ℕ) {q : List Record}
    → InUse n s q
    → DrainOk s.tail (length q) d
    → s.producer ≡ idle
    → s.running ≡ false
    → s.drain ≡ d
    → Ready d (waiting s) s.flushed s.sink
    → todo d (waiting s) ≤ suc bound
    → Stopped (drain_step d s) bound
unfolding drain_step waiting
Stopped-drain_step s top bound v fits still off e ready soon = record {
  still = still;
  off = off;
  ready = tt;
  soon = omega arith;
}
Stopped-drain_step s (got_tail t) bound v fits still off e ready soon =
    elim (Bool-cases (t == s.head)) [
      | inl same ↦ rw same (record {
        still = still;
        off = off;
        ready = none_left s v (sym fits ∙ eq_of_== t s.head same);
        soon = omega arith;
      })
      | inr other ↦ rw other (record { still = still; off = off; ready = tt; soon = omega arith })
    ]
Stopped-drain_step s saw_empty bound v fits still off e ready soon =
    rw off (record { still = still; off = refl; ready = ready; soon = omega arith })
Stopped-drain_step s (logging t) bound {q = []} v fits still off e ready soon =
    absurd (omega (arith, fits.1))
Stopped-drain_step s (logging t) bound {q = x ∷ q} v fits still off e ready soon =
    rw (cell, drain_step) (record { still = still; off = off; ready = tt; soon = omega arith })
  where
    cell : get_elem? s.ring (bit_and t s.mask) ≡ some x
    cell =
        ap (λ i. get_elem? s.ring (bit_and i s.mask)) fits.0
        ∙ ap (get_elem? s.ring) (ap (bit_and s.tail) v.mask_is ∙ mask_lem v.size s.tail)
        ∙ v.cells.0
Stopped-drain_step s (freeing t) bound v fits still off e ready soon = record {
  still = still;
  off = off;
  ready = tt;
  soon = omega (arith, freed s v (sym fits.0) fits.1, occupied s v);
}
Stopped-drain_step s closing bound v fits still off e ready soon = record {
  still = still;
  off = off;
  ready = (ready, refl);
  soon = omega arith;
}
Stopped-drain_step s ended bound v fits still off e ready soon = record {
  still = still;
  off = off;
  ready = subst (λ d'. Ready d' (waiting s) s.flushed s.sink) (sym e) ready;
  soon = subst (λ d'. todo d' (waiting s) ≤ bound) (sym e) (omega arith);
}

-- What is left once the drain thread has ended.
module _ {n : ℕ} (done : List Entry) where
  drained :
      (s : State) (d : Drain) (q : List Record)
      → todo d (waiting s) ≤ 0
      → d ≡ s.drain
      → Ready d (waiting s) s.flushed s.sink
      → InUse n s q
      → done ≡ s.sink ++ map entry_of (unread d q)
      → (s.drain ≡ ended) × (s.sink ≡ done) × (s.flushed ≡ length s.sink)
  drained s ended [] le e ready v all = (sym e, sym (all ∙ append-nil s.sink), ready.1)
  drained s ended (x ∷ q) le e ready v all = absurd (omega (arith, ready.0, occupied s v))
  drained s d q le e ready v all = absurd (omega arith)

  pub drains :
      (k : ℕ) (s : State)
      → IsLogger n s done
      → Stopped s k
      → (let s' = run s (consumes k) in
          (s'.drain ≡ ended) × (s'.sink ≡ done) × (s'.flushed ≡ length s'.sink))
  unfolding run
  drains zero s v h = drained s s.drain v.q h.soon refl h.ready v.in_use v.delivered
  drains (suc k) s v h =
      drains k (step s consume) (rw (← append-nil done) (consume-IsLogger s done v)) (
        unfold step in
        Stopped-drain_step s s.drain k v.in_use v.drain_ok h.still h.off refl h.ready h.soon)
