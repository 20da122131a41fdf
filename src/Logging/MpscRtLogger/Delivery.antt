-- ===== src/Logging/MpscRtLogger/Delivery.antt =====
-- What reaches the sink: the records of the claims, in order, each once.
use native.Mathlib.Nat.{mod-eq_of_lt}
use xm_sigma.Common.{ℕ, zero, suc, ◌+◌, ◌^◌, ◌≤◌, ◌<◌, ◌≡◌, refl, ◌∙◌, ap, arith}
use xm_sigma.Common.{List, [], ◌∷◌, length, get_elem?, some, All}
use xm_sigma.Common.Indices.{IsSize}
use xm_sigma.Logging.Level.{LogLevel}
use xm_sigma.Logging.RtLogger.{Record, max_msg_len}
use xm_sigma.Logging.RtLogger.Delivery.{AreSlots}
use xm_sigma.Logging.MpscRtLogger.{Cell, Event, construct, run, seeded}
use xm_sigma.Logging.MpscRtLogger.Invariant.{Delivered, CellOk, IsMpsc}
use xm_sigma.Logging.MpscRtLogger.Locals.{given_le}
use xm_sigma.Logging.MpscRtLogger.Steps.{history, run-IsMpsc}

length-seeded : (i : ℕ) (slots : List Record) → length (seeded i slots) ≡ length slots
unfolding seeded
length-seeded i [] = refl
length-seeded i (rec ∷ slots) = ap suc (length-seeded (i + 1) slots)

seeded-CellOk :
    (i : ℕ) (slots : List Record)
    → i + length slots ≤ 2 ^ 62
    → All (λ rec. length rec.msg ≡ max_msg_len) slots
    → All CellOk (seeded i slots)
unfolding seeded
seeded-CellOk i [] small h = tt
seeded-CellOk i (rec ∷ slots) small h =
    ((h.0, omega arith), seeded-CellOk (i + 1) slots (omega arith) h.1)

get_elem?-seeded :
    (i k : ℕ) (slots : List Record)
    → k < length slots
    → (c : Cell) × (get_elem? (seeded i slots) k ≡ some c) × (c.sequence ≡ i + k)
unfolding seeded
get_elem?-seeded i k [] h = absurd (omega arith)
get_elem?-seeded i zero (rec ∷ slots) h =
    (record { sequence = i; payload = rec }, refl, omega arith)
get_elem?-seeded i (suc k) (rec ∷ slots) h =
    let (c, e, seq) = get_elem?-seeded (i + 1) k slots (omega arith) in (c, e, omega arith)

pub construct-IsMpsc :
    {n : ℕ} (slots : List Record) (level : LogLevel)
    → IsSize n
    → 2 ≤ n
    → n ≤ 2 ^ 62
    → AreSlots n slots
    → IsMpsc n (construct n slots level) []
unfolding construct
construct-IsMpsc {n} slots level size two small h = record {
  ring = record {
    size = size;
    two = two;
    capacity_is = refl;
    mask_is = refl;
    array = length-seeded 0 slots ∙ h.0;
    cells_ok = seeded-CellOk 0 slots (omega (arith, h.0)) h.1;
    count = refl;
    order = omega arith;
    room = omega arith;
    limit_lo = omega arith;
    limit_hi = omega arith;
    held = λ p hp hp'. absurd (omega arith);
    free = λ p hp hp'.
        let (c, e, seq) = get_elem?-seeded 0 p slots (omega (arith, h.0)) in
        record {
          cell = c;
          there = ap (get_elem? (seeded 0 slots)) (mod-eq_of_lt {n = p} (omega arith)) ∙ e;
          fits = omega (arith, seq);
        };
  };
  producers_ok = λ i. tt;
  drain_ok = tt;
  delivered = tt;
  given_is = refl;
}

-- In every interleaving of any number of producers with the drain thread, on a ring of at least
-- two and at most 2 ^ 62 cells and while fewer than 2 ^ 62 calls have claimed a position: the
-- sink has been given the records of the first claims, in the order of claiming and each once,
-- each with its call's level and text and some reading of the clock; and of the claims at most as
-- many are still to come as the ring has cells.
pub delivers_in_claim_order :
    (n : ℕ) (slots : List Record) (level : LogLevel) (es : List Event)
    → IsSize n
    → 2 ≤ n
    → n ≤ 2 ^ 62
    → AreSlots n slots
    → length (history (construct n slots level) es) < 2 ^ 62
    → let sink = (run (construct n slots level) es).sink in
      Delivered (history (construct n slots level) es) sink
      × (length (history (construct n slots level) es) ≤ length sink + n)
delivers_in_claim_order n slots level es size two small h few =
    let v =
      run-IsMpsc es (construct n slots level) [] small few
        (construct-IsMpsc slots level size two small h) in
    (v.delivered, behind v)
  where
    behind :
        IsMpsc n (run (construct n slots level) es) (history (construct n slots level) es)
        → length (history (construct n slots level) es)
          ≤ length (run (construct n slots level) es).sink + n
    behind v =
        let s = run (construct n slots level) es in
        omega (arith, v.ring.count, v.ring.room, v.given_is, given_le s.drain s.dequeue_pos)
