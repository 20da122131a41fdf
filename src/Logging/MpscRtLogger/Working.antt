-- ===== src/Logging/MpscRtLogger/Working.antt =====
-- `DrainLoop` with no producer in `Log`: it comes nearer to the last claim with each turn, and an
-- access of `Flush` takes nothing away from that.
use xm_sigma.Common.{ℕ, suc, ◌+◌, ◌*◌, ◌^◌, ◌≤◌, ◌<◌, ◌≡◌, ◌⊎◌, refl, ◌∙◌, ap, arith}
use xm_sigma.Common.{get_elem?, some, true, inl, inr}
use xm_sigma.Common.{Bool-cases, bit_and, ◌==◌, get_elem?_held, u64}
use xm_sigma.Common.Indices.{index_in_range}
use xm_sigma.Logging.RtLogger.{Flusher, away, waiting, compare_head, flushing}
use xm_sigma.Logging.MpscRtLogger.{State, flush_step}
use xm_sigma.Logging.MpscRtLogger.{
  Drain, top, got_pos, saw_empty, logging, storing, freeing, closing, ended, drain_step,
}
use xm_sigma.Logging.MpscRtLogger.{diff_is_zero}
use xm_sigma.Logging.MpscRtLogger.Invariant.{Claims, DrainOk, IsMpsc}
use xm_sigma.Logging.MpscRtLogger.Write.{cell_index}
use xm_sigma.Logging.MpscRtLogger.Pending.{IsPending}
use xm_sigma.Logging.MpscRtLogger.Draining.{AllIdle, behind, empty_seen}

-- The drain thread has not left its loop.
abbrev pub InLoop : Drain → Type 0
InLoop top = Unit
InLoop (got_pos p) = Unit
InLoop (logging p) = Unit
InLoop (storing p) = Unit
InLoop (freeing p) = Unit
InLoop saw_empty = Unit
InLoop closing = ⊥
InLoop ended = ⊥

-- How many turns the drain thread has at most until it has passed `len` claims.
abbrev left : Drain → ℕ → ℕ
left top len = 5 * len + 3
left (got_pos p) len = 5 * len + 2
left (logging p) len = 5 * len + 1
left (storing p) len = 5 * len
left (freeing p) len = 5 * len + 4
left saw_empty len = 5 * len + 4
left closing len = 0
left ended len = 0

pub record Works (s : State) (bound : ℕ) : Type 0 where
  pub still : AllIdle s.producers
  pub on : s.running ≡ true
  pub alive : InLoop s.drain
  pub soon : (behind s ≡ 0) ⊎ (left s.drain (behind s) ≤ bound)

sooner : {len x y bound : ℕ} → y < x → (len ≡ 0) ⊎ (x ≤ suc bound) → (len ≡ 0) ⊎ (y ≤ bound)
sooner lt (inl e) = inl e
sooner lt (inr le) = inr (omega arith)

module _ {n : ℕ} (s : State) {claims : Claims} (v : IsMpsc n s claims) (h : IsPending n s claims)
    (small : s.enqueue_pos + n < 2 ^ 63) (bound : ℕ) (still : AllIdle s.producers)
    (on : s.running ≡ true) where
  got_pos-Works :
      (behind s ≡ 0) ⊎ (left (got_pos s.dequeue_pos) (behind s) ≤ suc bound)
      → Works (drain_step (got_pos s.dequeue_pos) s) bound
  unfolding drain_step behind
  got_pos-Works soon =
      let (cell, there) = get_elem?_held s.cells (bit_and s.dequeue_pos s.mask) (
        rw (cell_index v.ring s.dequeue_pos, v.ring.array)
          (index_in_range v.ring.size s.dequeue_pos)) in
      rw (there, drain_step)
        (elim (Bool-cases (diff_is_zero cell.sequence (u64 (s.dequeue_pos + 1)))) [
          | inl zero_diff ↦
              rw zero_diff
                (record { still = still; on = on; alive = tt; soon = sooner (omega arith) soon })
          | inr other ↦ rw other (record {
            still = still;
            on = on;
            alive = tt;
            soon = inl (empty_seen s v h still small cell there other);
          })
        ])

  pub drain_step-Works :
      (d : Drain)
      → DrainOk n s.cells s.dequeue_pos s.enqueue_pos d
      → InLoop d
      → (behind s ≡ 0) ⊎ (left d (behind s) ≤ suc bound)
      → Works (drain_step d s) bound
  unfolding drain_step behind
  drain_step-Works top ok alive soon = record {
    still = still;
    on = on;
    alive = tt;
    soon = sooner (omega arith) soon;
  }
  drain_step-Works (got_pos p) ok alive soon = rw ok (got_pos-Works soon)
  drain_step-Works saw_empty ok alive soon =
      rw on (record { still = still; on = refl; alive = tt; soon = sooner (omega arith) soon })
  drain_step-Works (logging p) ok alive soon =
      rw (cell, drain_step)
        (record { still = still; on = on; alive = tt; soon = sooner (omega arith) soon })
    where
      cell : get_elem? s.cells (bit_and p s.mask) ≡ some ok.2.cell
      cell = ap (get_elem? s.cells) (cell_index v.ring p) ∙ ok.2.there
  drain_step-Works (storing p) ok alive (inl none_left) = absurd (omega (arith, ok.1))
  drain_step-Works (storing p) ok alive (inr le) = record {
    still = still;
    on = on;
    alive = tt;
    soon = inr (omega (arith, ok.0, ok.1));
  }
  drain_step-Works (freeing p) ok alive soon = record {
    still = still;
    on = on;
    alive = tt;
    soon = sooner (omega arith) soon;
  }
  drain_step-Works d ok alive soon = absurd alive

pub caught_up :
    (s : State) (d : Drain) → InLoop d → (behind s ≡ 0) ⊎ (left d (behind s) ≤ 0) → behind s ≡ 0
caught_up s d alive (inl e) = e
caught_up s (storing p) alive (inr le) = omega arith
caught_up s closing alive (inr le) = absurd alive
caught_up s ended alive (inr le) = absurd alive
caught_up s d alive (inr le) = absurd (omega arith)

pub flush_step-Works : (k : ℕ) (f : Flusher) (s : State) → Works s k → Works (flush_step f s) k
unfolding flush_step behind
flush_step-Works k away s w = w
flush_step-Works k waiting s w = record {
  still = w.still;
  on = w.on;
  alive = w.alive;
  soon = w.soon;
}
flush_step-Works k (compare_head pos) s w = elim (Bool-cases (pos == s.enqueue_pos)) [
  | inl same ↦ rw same (record { still = w.still; on = w.on; alive = w.alive; soon = w.soon })
  | inr other ↦ rw other (record { still = w.still; on = w.on; alive = w.alive; soon = w.soon })
]
flush_step-Works k flushing s w = record {
  still = w.still;
  on = w.on;
  alive = w.alive;
  soon = w.soon;
}

pub bound_of :
    {n : ℕ} (d : Drain) (s : State) (claims : Claims) (k : ℕ)
    → IsMpsc n s claims
    → 5 * n + 4 ≤ k
    → left d (behind s) ≤ k
unfolding behind
bound_of top s claims k v le = omega (arith, v.ring.room)
bound_of (got_pos p) s claims k v le = omega (arith, v.ring.room)
bound_of (logging p) s claims k v le = omega (arith, v.ring.room)
bound_of (storing p) s claims k v le = omega (arith, v.ring.room)
bound_of (freeing p) s claims k v le = omega (arith, v.ring.room)
bound_of saw_empty s claims k v le = omega (arith, v.ring.room)
bound_of d s claims k v le = omega arith
