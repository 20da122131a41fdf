-- ===== src/Logging/MpscRtLogger/Pending/Steps.antt =====
-- Every event keeps the claimed and unpublished cells in the hands of their producers.
use xm_sigma.Common.{ℕ, ◌+◌, ◌%◌, ◌^◌, ◌≤◌, ◌<◌, ◌≡◌, ◌≢◌, refl, sym, ap, subst, arith}
use xm_sigma.Common.{List, [], ◌∷◌, ◌++◌, length, length-append, get_elem?, Option, some, none}
use xm_sigma.Common.{Bool, true, false, Bool-cases, inl, inr, ◌==◌, eq_of_==, if◌then◌else◌, u64}
use xm_sigma.Common.{bit_and, append-nil, append_assoc}
use xm_sigma.Logging.Level.{below}
use xm_sigma.Logging.RtLogger.{Call, Flusher, away, compare_head}
use xm_sigma.Logging.MpscRtLogger.{Cell, State, goto, try_cell, claim, log_step, drain_step}
use xm_sigma.Logging.MpscRtLogger.{flush_step, begin_log, begin_flush, step, run}
use xm_sigma.Logging.MpscRtLogger.{diff_is_zero, diff_is_negative}
use xm_sigma.Logging.MpscRtLogger.{
  Event, log, produce, consume, flush, flush_on, change_level, stop,
}
use xm_sigma.Logging.MpscRtLogger.{Producer, idle, called, loading, trying, claiming}
use xm_sigma.Logging.MpscRtLogger.{dropping, set_time, set_level, set_text, publish}
use xm_sigma.Logging.MpscRtLogger.{
  Drain, top, got_pos, saw_empty, logging, storing, freeing, closing, ended,
}
use xm_sigma.Logging.MpscRtLogger.Slots.{window_ne}
use xm_sigma.Logging.MpscRtLogger.Invariant.{Claims, ProducerOk, DrainOk, IsMpsc, writing}
use xm_sigma.Logging.MpscRtLogger.Write.{cell_index}
use xm_sigma.Logging.MpscRtLogger.Produce.{claimed_by}
use xm_sigma.Logging.MpscRtLogger.Steps.{claimed, history, step-IsMpsc}
use xm_sigma.Logging.MpscRtLogger.Pending.{
  IsPending, At-elsewhere, moved, stays, wrote, published, claimed_next,
}

module _ {n : ℕ} (s : State) {claims : Claims} (v : IsMpsc n s claims) (h : IsPending n s claims)
    (small : s.enqueue_pos + n < 2 ^ 63) where
  module _ (i : ℕ) where
    go : (p : Producer) → writing (s.producers i) ≡ none → IsPending n (goto s i p) (claims ++ [])
    go p none_yet = moved s v h small i p none_yet

    branch :
        (b : Bool) (x y : State)
        → IsPending n x (claims ++ [])
        → IsPending n y (claims ++ [])
        → IsPending n (if b then x else y) (claims ++ [])
    branch true x y hx hy = hx
    branch false x y hx hy = hy

    trying-IsPending :
        (now : ℕ) (spurious : Bool) (c : Call) (pos : ℕ) (o : Option Cell)
        → get_elem? s.cells (bit_and pos s.mask) ≡ o
        → writing (s.producers i) ≡ none
        → IsPending n (log_step i now spurious (trying c pos) s) (claims ++ [])
    unfolding log_step try_cell
    trying-IsPending now spurious c pos none e free = rw (e, log_step) (stays s v h small i)
    trying-IsPending now spurious c pos (some cell) e free =
        rw (e, log_step)
          (branch (diff_is_zero cell.sequence pos) _ _ (go _ free)
            (branch (diff_is_negative cell.sequence pos) _ _ (go _ free) (go _ free)))

    claim-IsPending :
        (spurious : Bool) (c : Call) (pos : ℕ)
        → pos ≤ s.enqueue_pos
        → writing (s.producers i) ≡ none
        → IsPending n
            (claim i spurious c pos s)
            (claims ++ claimed_by i spurious (claiming c pos) s.enqueue_pos)
    unfolding claim
    claim-IsPending true c pos le free = go _ free
    claim-IsPending false c pos le free = elim (Bool-cases (s.enqueue_pos == pos)) [
      | inr lost ↦ rw lost (go _ free)
      | inl won ↦
          let e = eq_of_== s.enqueue_pos pos won in
          let fits : u64 (pos + 1) ≡ pos + 1 = omega arith in
          rw (won, fits)
            (subst
              (λ (k : ℕ).
                IsPending n (goto (record s { enqueue_pos = k + 1 }) i (set_time c k))
                  (claims ++ ((i, c) ∷ [])))
              e (claimed_next s v h small i c free))
    ]

    log_step-IsPending :
        (now : ℕ) (spurious : Bool) (p : Producer)
        → s.producers i ≡ p
        → ProducerOk n s.cells s.dequeue_pos s.enqueue_pos claims i p
        → IsPending n
            (log_step i now spurious p s)
            (claims ++ claimed_by i spurious p s.enqueue_pos)
    log_step-IsPending now spurious idle e ok = unfold log_step in stays s v h small i
    log_step-IsPending now spurious (called c) e ok =
        unfold log_step in
        branch (below c.level s.min_level) _ _ (go _ (ap writing e)) (go _ (ap writing e))
    log_step-IsPending now spurious (loading c) e ok = unfold log_step in go _ (ap writing e)
    log_step-IsPending now spurious (trying c pos) e ok =
        trying-IsPending now spurious c pos _ refl (ap writing e)
    log_step-IsPending now spurious (claiming c pos) e ok =
        unfold log_step in claim-IsPending spurious c pos ok.0 (ap writing e)
    log_step-IsPending now spurious dropping e ok = unfold log_step in go _ (ap writing e)
    log_step-IsPending now spurious (set_time c pos) e ok =
        unfold log_step in wrote s v h small i _ _ _ (λ cell. refl) (ap writing e)
    log_step-IsPending now spurious (set_level c pos t) e ok =
        unfold log_step in wrote s v h small i _ _ _ (λ cell. refl) (ap writing e)
    log_step-IsPending now spurious (set_text c pos t) e ok =
        unfold log_step in wrote s v h small i _ _ _ (λ cell. refl) (ap writing e)
    log_step-IsPending now spurious (publish c pos t) e ok =
        unfold log_step in published s v h small i c pos ok (ap writing e)

    begin_log-IsPending :
        (c : Call) (p : Producer)
        → s.producers i ≡ p
        → IsPending n (begin_log i c p s) (claims ++ [])
    unfolding begin_log
    begin_log-IsPending c idle e = go _ (ap writing e)
    begin_log-IsPending c p e = stays s v h small i

  stored :
      (p : ℕ)
      → DrainOk n s.cells s.dequeue_pos s.enqueue_pos (storing p)
      → IsPending n (drain_step (storing p) s) claims
  unfolding drain_step
  stored p ok q j c lo hi e at = h q j c (omega (arith, ok.0, ok.1)) hi e at

  freed_cell :
      (p : ℕ)
      → DrainOk n s.cells s.dequeue_pos s.enqueue_pos (freeing p)
      → IsPending n (drain_step (freeing p) s) claims
  unfolding drain_step
  freed_cell p ok q j c lo hi e at = h q j c lo hi e (At-elsewhere (bit_and p s.mask) _ apart at)
    where
      apart : bit_and p s.mask ≢ q % n
      apart =
          subst (λ (k : ℕ). k ≢ q % n) (sym (cell_index v.ring p))
            (window_ne v.ring.size p p q (omega arith) (omega (arith, v.ring.two))
              (omega (arith, ok.0)) (omega (arith, ok.1)) (omega (arith, ok.0)))

  drain_step-IsPending :
      (d : Drain)
      → DrainOk n s.cells s.dequeue_pos s.enqueue_pos d
      → IsPending n (drain_step d s) claims
  drain_step-IsPending top ok = unfold drain_step in h
  drain_step-IsPending (got_pos p) ok = from_cell _ refl
    where
      from_cell :
          (o : Option Cell)
          → get_elem? s.cells (bit_and p s.mask) ≡ o
          → IsPending n (drain_step (got_pos p) s) claims
      from_cell none e = unfold drain_step in rw (e, drain_step) h
      from_cell (some cell) e =
          unfold drain_step in
          rw (e, drain_step)
            (elim (diff_is_zero cell.sequence (u64 (p + 1)))
              as (λ b.
                IsPending n
                  (if b then record s { drain = logging p } else record s { drain = saw_empty })
                  claims) [ true ↦ h | false ↦ h ])
  drain_step-IsPending saw_empty ok =
      unfold drain_step in
      (elim s.running
        as (λ b.
          IsPending n (if b then record s { drain = top } else record s { drain = closing })
            claims) [ true ↦ h | false ↦ h ])
  drain_step-IsPending (logging p) ok = from_cell _ refl
    where
      from_cell :
          (o : Option Cell)
          → get_elem? s.cells (bit_and p s.mask) ≡ o
          → IsPending n (drain_step (logging p) s) claims
      from_cell none e = unfold drain_step in rw (e, drain_step) h
      from_cell (some cell) e = unfold drain_step in rw (e, drain_step) h
  drain_step-IsPending (storing p) ok = stored p ok
  drain_step-IsPending (freeing p) ok = freed_cell p ok
  drain_step-IsPending closing ok = unfold drain_step in h
  drain_step-IsPending ended ok = unfold drain_step in h

  begin_flush-IsPending : (f : Flusher) → IsPending n (begin_flush f s) claims
  unfolding begin_flush
  begin_flush-IsPending away = h
  begin_flush-IsPending f = h

  flush_step-IsPending : (f : Flusher) → IsPending n (flush_step f s) claims
  unfolding flush_step
  flush_step-IsPending (compare_head pos) = elim (Bool-cases (pos == s.enqueue_pos)) [
    | inl same ↦ rw same h
    | inr other ↦ rw other h
  ]
  flush_step-IsPending f = h

pub step-IsPending :
    {n : ℕ} (s : State) (e : Event) (claims : Claims)
    → s.enqueue_pos + n < 2 ^ 63
    → IsMpsc n s claims
    → IsPending n s claims
    → IsPending n (step s e) (claims ++ claimed s e)
unfolding step
step-IsPending s (log i c) claims small v h =
    begin_log-IsPending s v h small i c (s.producers i) refl
step-IsPending s (produce i now spurious) claims small v h =
    log_step-IsPending s v h small i now spurious (s.producers i) refl (v.producers_ok i)
step-IsPending s consume claims small v h =
    rw (append-nil claims) (drain_step-IsPending s v h small s.drain v.drain_ok)
step-IsPending s flush claims small v h =
    rw (append-nil claims) (begin_flush-IsPending s v h small s.flusher)
step-IsPending s flush_on claims small v h =
    rw (append-nil claims) (flush_step-IsPending s v h small s.flusher)
step-IsPending s (change_level l) claims small v h = rw (append-nil claims) h
step-IsPending s stop claims small v h = rw (append-nil claims) h

pub run-IsPending :
    {n : ℕ} (es : List Event) (s : State) (claims : Claims)
    → n ≤ 2 ^ 62
    → length (claims ++ history s es) < 2 ^ 62
    → IsMpsc n s claims
    → IsPending n s claims
    → IsPending n (run s es) (claims ++ history s es)
unfolding run history
run-IsPending [] s claims size few v h = rw (append-nil claims) h
run-IsPending {n} (e ∷ es) s claims size few v h =
    rw (← append_assoc claims (claimed s e) (history (step s e) es)) (
      run-IsPending es (step s e) (claims ++ claimed s e) size
        (rw (append_assoc claims (claimed s e) (history (step s e) es)) few)
        (step-IsMpsc s e claims small v) (step-IsPending s e claims small v h))
  where
    small : s.enqueue_pos + n < 2 ^ 63
    small = omega (arith, v.ring.count, length-append claims (claimed s e ++ history (step s e) es))
