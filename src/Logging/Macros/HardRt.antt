-- ===== src/Logging/Macros/HardRt.antt =====
-- The hard-RT macros.
use xm_sigma.Logging.Macros.Filters.{named, leaves, named_lem, passes_lem}
use xm_sigma.Logging.RtLogger.Outcome.{LogDid}
use xm_sigma.Common.{ℕ, ◌≡◌, refl, ◌==◌, List, true, not, Option, sub64}
use xm_sigma.Common.{Bool-cases, inl, inr}
use xm_sigma.Common.Indices.{IsSize}
use xm_sigma.Common.{leb, ltb, arith}
use xm_sigma.Logging.Level.{LogLevel, to_int}
use xm_sigma.Logging.Level.Laws.{rank, rank_lem}
use xm_sigma.Logging.RtLogger.{Record, Event, run, construct, idle}
use xm_sigma.Logging.RtLogger.Delivery.{AreSlots}
use xm_sigma.Logging.RtLogger.Outcome.{log_outcome}
use xm_sigma.Logging.Macros.{Build, Macro, compiled_in, xlog_rt}

above : (level l : LogLevel) → not (leb (to_int level) (to_int l)) ≡ ltb (rank l) (rank level)
above level l = rw (rank_lem level, rank_lem l) (ground arith)

-- XLOG_RT_TRACE to XLOG_RT_FATAL on a running logger with the producer idle, when no other thread
-- comes between: if logging is not enabled, or the level of the macro's name is below the level of
-- the build or the runtime level, neither the ring, nor the count of dropped records, nor `head_`
-- changes; else, with n records waiting in the ring, the call is counted as dropped; else the slot
-- at `head_` holds the level of the macro's name, the time and the text, and `head_` moves on.
pub xlog_rt_lem :
    (n : ℕ) (slots : List Record) (level : LogLevel) (es : List Event)
    → (b : Build) (m : Macro) (outcome : Option (List ℕ)) (now : ℕ) → IsSize n
    → AreSlots n slots
    → (run (construct n slots level) es).producer ≡ idle
    → (run (construct n slots level) es).running ≡ true
    → let s = run (construct n slots level) es in
      LogDid n s
        (run s (xlog_rt b m outcome now))
        (record { level = named m; outcome = outcome })
        now
        (not (leaves b m s.min_level))
        (sub64 s.head s.tail == n)
unfolding xlog_rt run
xlog_rt_lem n slots level es b m outcome now size slots_ok e on =
    let s = run (construct n slots level) es in
    rw (← passes_lem b m s.min_level) (elim (Bool-cases (compiled_in b m)) [
      | inl inside ↦
          rw (inside, named_lem m, above s.min_level (named m))
            (log_outcome n slots level es (record { level = named m; outcome = outcome }) now size
              slots_ok e on)
      | inr outside ↦ rw outside (record { ring = refl; head = refl; dropped = refl })
    ])
