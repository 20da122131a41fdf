-- ===== src/Logging/MpscRtLogger/Accounts/Calls.antt =====
-- The accounts of any run.
use xm_sigma.Common.{ℕ, ◌+◌, ◌≡◌, refl, sym, ap, subst, arith, u64}
use xm_sigma.Common.{Bool-cases, inl, inr, ◌==◌, ==_self, eq_of_==, if◌then◌else◌}
use xm_sigma.Common.{List, [], ◌∷◌}
use xm_sigma.Logging.Level.{LogLevel}
use xm_sigma.Logging.RtLogger.{Record}
use xm_sigma.Logging.MpscRtLogger.{
  State, Event, log, produce, consume, flush, flush_on, change_level, stop, step, run,
}
use xm_sigma.Logging.MpscRtLogger.{construct, log_step, begin_log}
use xm_sigma.Logging.MpscRtLogger.Produce.{claimed_by}
use xm_sigma.Logging.MpscRtLogger.Steps.{claimed, history}
use xm_sigma.Logging.MpscRtLogger.Accounts.{
  pending, owned, owned-append, begun, begun_by, filtered_by, dropped_by, filtered, dropped_of,
  dropped_any, total,
}
use xm_sigma.Logging.MpscRtLogger.Accounts.{
  log_step-Same, begin_log-Same, not_owned, log_step_accounts, begin_log_accounts,
}
use xm_sigma.Logging.MpscRtLogger.Accounts.Drops.{
  drain_step-Aside, flush_step-Aside, begin_flush-Aside, step_drops,
}

module _ (i : ℕ) where
  -- An event that leaves the producers alone.
  aside :
      (s s' : State)
      → s'.producers ≡ s.producers
      → pending (s'.producers i) ≡ pending (s.producers i)
  aside s s' e = ap (λ f. pending (f i)) e

  step_accounts :
      (s : State) (e : Event)
      → begun i s e + pending (s.producers i)
        ≡ filtered i s e
          + dropped_of i s e
          + owned i (claimed s e)
          + pending ((step s e).producers i)
  unfolding step
  step_accounts s (log j c) = elim (Bool-cases (j == i)) [
    | inl mine ↦
        subst
          (λ k.
            (if k == i then begun_by (s.producers k) else 0) + pending (s.producers i)
            ≡ 0 + 0 + 0 + pending ((begin_log k c (s.producers k) s).producers i))
          (sym (eq_of_== j i mine))
          (rw (==_self i) (omega (arith, begin_log_accounts s i c (s.producers i) refl)))
    | inr other ↦
        rw other (omega (arith, ap pending (begin_log-Same s i j other c (s.producers j))))
  ]
  step_accounts s (produce j now spurious) = elim (Bool-cases (j == i)) [
    | inl mine ↦
        subst
          (λ k.
            0 + pending (s.producers i)
            ≡ (if k == i then filtered_by s.min_level (s.producers k) else 0)
              + (if k == i then dropped_by (s.producers k) else 0)
              + owned i (claimed_by k spurious (s.producers k) s.enqueue_pos)
              + pending ((log_step k now spurious (s.producers k) s).producers i))
          (sym (eq_of_== j i mine))
          (rw (==_self i) (omega (arith, log_step_accounts s i now spurious (s.producers i) refl)))
    | inr other ↦ rw other (
        omega (
          arith,
          ap pending (log_step-Same s i j other now spurious (s.producers j)),
          not_owned s i j other spurious (s.producers j),
        ))
  ]
  step_accounts s consume = omega (arith, aside s _ (drain_step-Aside s s.drain).0)
  step_accounts s flush = omega (arith, aside s _ (begin_flush-Aside s s.flusher).0)
  step_accounts s flush_on = omega (arith, aside s _ (flush_step-Aside s s.flusher).0)
  step_accounts s (change_level l) = omega arith
  step_accounts s stop = omega arith

  run_accounts :
      (es : List Event) (s : State)
      → total (begun i) s es + pending (s.producers i)
        ≡ total (filtered i) s es
          + total (dropped_of i) s es
          + owned i (history s es)
          + pending ((run s es).producers i)
  unfolding run history total
  run_accounts [] s = omega arith
  run_accounts (e ∷ es) s = omega (
    arith,
    step_accounts s e,
    run_accounts es (step s e),
    owned-append i (claimed s e) (history (step s e) es),
  )

run_drops :
    (es : List Event) (s : State) (count : ℕ)
    → s.dropped ≡ u64 count
    → (run s es).dropped ≡ u64 (count + total dropped_any s es)
unfolding run total
run_drops [] s count e = omega (arith, e)
run_drops (e ∷ es) s count h =
    omega (arith, run_drops es (step s e) (count + dropped_any s e) (step_drops s e count h))

-- In every interleaving, on a ring of any size: of the calls of `Log` that a producer has begun,
-- each was filtered by its level, or was dropped, or has claimed a position, or is still to do one
-- of these; and `dropped_` is the number of the calls that were dropped, of all producers, modulo
-- 2 ^ 64.
pub calls_accounted :
    (n : ℕ) (slots : List Record) (level : LogLevel) (es : List Event) (i : ℕ)
    → let s0 = construct n slots level in
      let s = run s0 es in
      (total (begun i) s0 es
        ≡ total (filtered i) s0 es
          + total (dropped_of i) s0 es
          + owned i (history s0 es)
          + pending (s.producers i))
      × (s.dropped ≡ u64 (total dropped_any s0 es))
unfolding construct
calls_accounted n slots level es i =
    let s0 = construct n slots level in
    (omega (arith, run_accounts i es s0), omega (arith, run_drops es s0 0 refl))
