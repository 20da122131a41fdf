-- ===== src/Logging/RtLogger/Delivery.antt =====
-- What reaches the sink: the published records, in order, each once.
use xm_sigma.Common.{ℕ, ◌≤◌, ◌≡◌, refl, arith}
use xm_sigma.Common.{List, [], ◌∷◌, ◌++◌, map, length}
use xm_sigma.Common.{length-map, All}
use xm_sigma.Common.Indices.{IsSize}
use xm_sigma.Logging.Level.{LogLevel}
use xm_sigma.Logging.RtLogger.{Record, Entry, entry_of, Event}
use xm_sigma.Logging.RtLogger.{run, construct, max_msg_len}
use xm_sigma.Logging.RtLogger.{Drain, top, freeing}
use xm_sigma.Logging.RtLogger.Invariant.{unread, IsLogger}
use xm_sigma.Logging.RtLogger.Steps.{history, run-IsLogger}

-- `new Record[cap]`, whose message arrays have their fixed size.
abbrev pub AreSlots : ℕ → List Record → Type 0
AreSlots n slots = (length slots ≡ n) × All (λ rec. length rec.msg ≡ max_msg_len) slots

pub construct-IsLogger :
    {n : ℕ} (slots : List Record) (level : LogLevel)
    → IsSize n
    → AreSlots n slots
    → IsLogger n (construct n slots level) []
unfolding construct
construct-IsLogger slots level size h = record {
  q = [];
  in_use = record {
    size = size;
    capacity_is = refl;
    mask_is = refl;
    array = h.0;
    slots = h.1;
    tail_range = omega arith;
    head_at = omega arith;
    room = omega arith;
    cells = tt;
  };
  delivered = refl;
  producer_ok = tt;
  drain_ok = tt;
}

-- In every interleaving of the three threads, the sink has been given the records that the
-- producer published, in the order of publication and each once, but for the newest, at most
-- as many as the ring has slots.
pub delivers_in_order :
    (n : ℕ) (slots : List Record) (level : LogLevel) (es : List Event)
    → IsSize n
    → AreSlots n slots
    → (rest : List Entry) × (history (construct n slots level) es
        ≡ (run (construct n slots level) es).sink ++ rest)
      × (length rest ≤ n)
delivers_in_order n slots level es size h =
    let v = run-IsLogger es (construct n slots level) [] (construct-IsLogger slots level size h) in
    let s = run (construct n slots level) es in
    (map entry_of (unread s.drain v.q), v.delivered, unread_le s.drain v.q v.in_use.room)
  where
    unread_le :
        (d : Drain) (q : List Record) → length q ≤ n → length (map entry_of (unread d q)) ≤ n
    unread_le top q h = omega (arith, length-map entry_of q)
    unread_le (freeing t) [] h = omega arith
    unread_le (freeing t) (x ∷ q) h = omega (arith, length-map entry_of q)
    unread_le d q h = omega (arith, length-map entry_of q)
