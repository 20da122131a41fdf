-- ===== src/Logging/RtLogger/Outcome.antt =====
-- What one call of `Log` comes to: filtered, dropped or published.
use xm_sigma.Common.{ℕ, ◌+◌, ◌≡◌, refl, ◌∙◌, ap, arith}
use xm_sigma.Common.{List, [], ◌∷◌, length, leb, ◌==◌, u64, sub64, Bool, true, false}
use xm_sigma.Common.{if◌then◌else◌}
use xm_sigma.Common.Indices.{IsSize, size_bound, sub64-u64}
use xm_sigma.Common.{ltb, ◌%◌, ◌≢◌, sym, get_elem?, take, some, bit_and, modify}
use xm_sigma.Common.{get_elem?-modify_self, get_elem?-modify_ne}
use xm_sigma.Logging.Level.{LogLevel, below}
use xm_sigma.Logging.Level.Laws.{rank, below-rank}
use xm_sigma.Logging.Format.{format_into, format_into_lem, visible}
use xm_sigma.Logging.RtLogger.{max_msg_len}
use xm_sigma.Logging.RtLogger.Produce.{head_slot, slot_index}
use xm_sigma.Logging.RtLogger.{
  Record, Call, State, Event, log, produce, step, run, construct, log_step, begin_log, idle,
}
use xm_sigma.Logging.RtLogger.Invariant.{InUse}
use xm_sigma.Logging.RtLogger.Steps.{run-IsLogger}
use xm_sigma.Logging.RtLogger.Delivery.{AreSlots, construct-IsLogger}

-- A call of `Log` that no other thread comes between; the clock reads `now`.
abbrev pub whole_call : Call → ℕ → List Event
whole_call c now =
    log c
    ∷ produce now
    ∷ produce now
    ∷ produce now
    ∷ produce now
    ∷ produce now
    ∷ produce now
    ∷ produce now
    ∷ []

waiting_le :
    {n : ℕ} (s : State) {q : List Record}
    → InUse n s q
    → leb s.capacity (sub64 s.head s.tail) ≡ (sub64 s.head s.tail == n)
waiting_le s {q = q} v = ground (arith, v.capacity_is, v.room, occupied)
  where
    occupied : sub64 s.head s.tail ≡ length q
    occupied =
        ap (λ (h : ℕ). sub64 h s.tail) v.head_at
        ∙ sub64-u64 s.tail (length q) v.tail_range (omega (arith, v.room, size_bound v.size))

-- The ring after the writes of a call that publishes.
filled : State → Call → ℕ → List Record
filled s c now =
    let i = bit_and s.head s.mask in
    let ring = modify s.ring i (λ rec. record rec { level = c.level }) in
    let ring = modify ring i (λ rec. record rec { time = now }) in
    modify ring i (λ rec.
      let (msg, len) = format_into rec.msg max_msg_len c.outcome in
      record rec { len = len; msg = msg })

call_from :
    (s : State) (c : Call) (now : ℕ) (low full : Bool)
    → s.producer ≡ idle
    → s.running ≡ true
    → below c.level s.min_level ≡ low
    → leb s.capacity (sub64 s.head s.tail) ≡ full
    → let s' = run s (whole_call c now) in
      (s'.ring ≡ (if low then s.ring else if full then s.ring else filled s c now))
      × (s'.dropped ≡ (if low then s.dropped else if full then u64 (s.dropped + 1) else s.dropped))
      × (s'.head ≡ (if low then s.head else if full then s.head else u64 (s.head + 1)))
unfolding run step log_step begin_log filled
call_from s c now true full e on level room = rw (e, on, level) (refl, refl, refl)
call_from s c now false true e on level room = rw (e, on, level, room) (refl, refl, refl)
call_from s c now false false e on level room = rw (e, on, level, room) (refl, refl, refl)

-- What a call did to the ring, to the count of dropped records and to `head_`.
pub record Left (s s' : State) (count : ℕ) : Type 0 where
  pub ring : s'.ring ≡ s.ring
  pub head : s'.head ≡ s.head
  pub dropped : s'.dropped ≡ count

pub record Published (n : ℕ) (s s' : State) (c : Call) (now : ℕ) : Type 0 where
  pub slot : Record
  pub held : get_elem? s'.ring (s.head % n) ≡ some slot
  pub level : slot.level ≡ c.level
  pub time : slot.time ≡ now
  pub text : take slot.len slot.msg ≡ visible max_msg_len c.outcome
  pub others : (i : ℕ) → i ≢ s.head % n → get_elem? s'.ring i ≡ get_elem? s.ring i
  pub head : s'.head ≡ u64 (s.head + 1)
  pub dropped : s'.dropped ≡ s.dropped

-- The outcome of a call, by whether its level is too low and whether the ring is full.
abbrev pub LogDid : ℕ → State → State → Call → ℕ → Bool → Bool → Type 0
LogDid n s s' c now true full = Left s s' s.dropped
LogDid n s s' c now false true = Left s s' (u64 (s.dropped + 1))
LogDid n s s' c now false false = Published n s s' c now

filled-Published :
    {n : ℕ} (s s' : State) {q : List Record} (c : Call) (now : ℕ)
    → InUse n s q
    → s'.ring ≡ filled s c now
    → s'.head ≡ u64 (s.head + 1)
    → s'.dropped ≡ s.dropped
    → Published n s s' c now
unfolding filled
filled-Published {n} s s' c now v ring_is head_is dropped_is =
    let (rec, e, size) = head_slot s v in
    let i = bit_and s.head s.mask in
    let at_head = slot_index s v s.head in
    let f = λ (r : Record). record r { level = c.level } in
    let g = λ (r : Record). record r { time = now } in
    let h = λ (r : Record).
      let (msg, len) = format_into r.msg max_msg_len c.outcome in
      record r { len = len; msg = msg } in
    let e0 : get_elem? s.ring i ≡ some rec = ap (get_elem? s.ring) at_head ∙ e in
    let e1 = get_elem?-modify_self s.ring i f rec e0 in
    let e2 = get_elem?-modify_self (modify s.ring i f) i g (f rec) e1 in
    let e3 = get_elem?-modify_self (modify (modify s.ring i f) i g) i h (g (f rec)) e2 in
    let (same, small, seen) = format_into_lem rec.msg max_msg_len c.outcome size (omega arith) in
    record {
      slot = h (g (f rec));
      held = ap (λ xs. get_elem? xs (s.head % n)) ring_is ∙ rw (← at_head) e3;
      level = refl;
      time = refl;
      text = seen;
      others = λ j away.
          let apart : i ≢ j = λ same. away (sym same ∙ at_head) in
          ap (λ xs. get_elem? xs j) ring_is
          ∙ get_elem?-modify_ne (modify (modify s.ring i f) i g) i j h apart
          ∙ get_elem?-modify_ne (modify s.ring i f) i j g apart
          ∙ get_elem?-modify_ne s.ring i j f apart;
      head = head_is;
      dropped = dropped_is;
    }

outcome_of_fields :
    {n : ℕ} (s s' : State) {q : List Record} (c : Call) (now : ℕ) (low full : Bool)
    → InUse n s q
    → s'.ring ≡ (if low then s.ring else if full then s.ring else filled s c now)
    → s'.dropped ≡ (if low then s.dropped else if full then u64 (s.dropped + 1) else s.dropped)
    → s'.head ≡ (if low then s.head else if full then s.head else u64 (s.head + 1))
    → LogDid n s s' c now low full
outcome_of_fields s s' c now true full v r d h = record { ring = r; head = h; dropped = d }
outcome_of_fields s s' c now false true v r d h = record { ring = r; head = h; dropped = d }
outcome_of_fields s s' c now false false v r d h = filled-Published s s' c now v r h d

-- A call of `Log` on a running logger that no other thread comes between, in every reachable
-- state with the producer idle. Below the runtime level neither the ring, nor the count of dropped
-- records, nor `head_` changes; else, with n records waiting in the ring, the call is counted as
-- dropped and nothing else of these changes; else the slot at `head_` holds the call's level, the
-- time and the text, cut to the slot, or the diagnostic, no other slot changes, and `head_` moves
-- on by one.
pub log_outcome :
    (n : ℕ) (slots : List Record) (level : LogLevel) (es : List Event) (c : Call) (now : ℕ)
    → IsSize n
    → AreSlots n slots
    → let s = run (construct n slots level) es in
      s.producer ≡ idle
      → s.running ≡ true
      → LogDid n s
          (run s (whole_call c now))
          c
          now
          (ltb (rank c.level) (rank s.min_level))
          (sub64 s.head s.tail == n)
log_outcome n slots level es c now size slots_ok e on =
    let s = run (construct n slots level) es in
    let v =
      run-IsLogger es (construct n slots level) [] (construct-IsLogger slots level size slots_ok) in
    let (ring, dropped, head) =
      call_from s c now (ltb (rank c.level) (rank s.min_level)) (sub64 s.head s.tail == n) e on
        (below-rank c.level s.min_level) (waiting_le s v.in_use) in
    outcome_of_fields s (run s (whole_call c now)) c now _ _ v.in_use ring dropped head
