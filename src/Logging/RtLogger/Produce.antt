-- ===== src/Logging/RtLogger/Produce.antt =====
-- Each access of the producer keeps the invariant.
use xm_sigma.Common.{ℕ, ◌+◌, ◌%◌, ◌<◌, ◌≡◌, refl, sym, ◌∙◌, ap, subst, arith}
use xm_sigma.Common.{false, Bool-cases, inl, inr, leb, bit_and, modify}
use xm_sigma.Common.{List, [], ◌∷◌, ◌++◌, map, length, get_elem?, some, u64, sub64}
use xm_sigma.Common.{
  append-nil, length-modify, get_elem?_held, All-modify, All-get_elem?, get_elem?-modify_self,
}
use xm_sigma.Common.{length-append}
use xm_sigma.Common.Indices.{size_bound, sub64-u64, u64-mod, mask_lem, index_in_range}
use xm_sigma.Common.Cells.{Holds-modify, Holds-append}
use xm_sigma.Logging.Level.{below}
use xm_sigma.Logging.Format.{format_into, format_into_lem}
use xm_sigma.Logging.RtLogger.{Record, Entry, entry_of, Call, State, max_msg_len, log_step, at_slot}
use xm_sigma.Logging.RtLogger.{
  Producer, idle, called, loading, admitted, dropping, set_level, set_time, set_text, publish,
}
use xm_sigma.Logging.RtLogger.Invariant.{logged, Slot, ProducerOk, InUse}

-- What an access of the producer publishes.
abbrev pub published_by : Producer → List Entry
published_by idle = []
published_by (called c) = []
published_by (loading c) = []
published_by (admitted c h) = []
published_by dropping = []
published_by (set_level c h) = []
published_by (set_time c h) = []
published_by (set_text c h t) = []
published_by (publish c h t) = logged c t ∷ []

-- The state after an access: the slots in use grow by those of `new`.
pub record Produced (n : ℕ) (s : State) (q : List Record) (p : Producer) (s' : State) : Type 0 where
  pub new : List Record
  pub in_use : InUse n s' (q ++ new)
  pub entries : map entry_of new ≡ published_by p
  pub producer_ok : ProducerOk n s'.ring s'.head (length (q ++ new)) s'.producer
  pub same_sink : s'.sink ≡ s.sink
  pub same_drain : s'.drain ≡ s.drain
  pub same_tail : s'.tail ≡ s.tail

move_slot :
    (n : ℕ) (ring : List Record) (P : Record → Type 0) {h head : ℕ}
    → h ≡ head
    → Slot ring (h % n) P
    → Slot ring (head % n) P
move_slot n ring P e slot = subst (λ i. Slot ring (i % n) P) e slot

module _ {n : ℕ} (s : State) {q : List Record} (v : InUse n s q) where
  occupied : sub64 s.head s.tail ≡ length q
  occupied =
      ap (λ (h : ℕ). sub64 h s.tail) v.head_at
      ∙ sub64-u64 s.tail (length q) v.tail_range (omega (arith, v.room, size_bound v.size))

  head_cell : s.head % n ≡ (s.tail + length q) % n
  head_cell = ap (λ (h : ℕ). h % n) v.head_at ∙ u64-mod v.size (s.tail + length q)

  pub slot_index : (h : ℕ) → bit_and h s.mask ≡ h % n
  slot_index h = ap (bit_and h) v.mask_is ∙ mask_lem v.size h

  -- A write to the slot at `head_`, which is in use by no record.
  write_slot :
      (f : Record → Record)
      → length q < n
      → ((rec : Record) → length rec.msg ≡ max_msg_len → length (f rec).msg ≡ max_msg_len)
      → InUse n (at_slot s s.head f) q
  write_slot f free keep = record {
    size = v.size;
    capacity_is = v.capacity_is;
    mask_is = v.mask_is;
    array = length-modify s.ring (bit_and s.head s.mask) f ∙ v.array;
    slots =
        All-modify (λ rec. length rec.msg ≡ max_msg_len) f keep s.ring (bit_and s.head s.mask)
          v.slots;
    tail_range = v.tail_range;
    head_at = v.head_at;
    room = v.room;
    cells =
        Holds-modify v.size s.ring q s.tail (length q) (bit_and s.head s.mask) f (omega arith) free
          (slot_index s.head ∙ head_cell) v.cells;
  }

  -- The slot at `head_` after a write to it.
  written :
      (f : Record → Record) (rec : Record)
      → get_elem? s.ring (s.head % n) ≡ some rec
      → get_elem? (at_slot s s.head f).ring (s.head % n) ≡ some (f rec)
  written f rec e =
      ap (λ (i : ℕ). get_elem? (modify s.ring i f) (s.head % n)) (slot_index s.head)
      ∙ get_elem?-modify_self s.ring (s.head % n) f rec e

  -- An access that publishes nothing.
  quiet :
      (p : Producer) (s' : State)
      → published_by p ≡ []
      → InUse n s' q
      → ProducerOk n s'.ring s'.head (length q) s'.producer
      → s'.sink ≡ s.sink
      → s'.drain ≡ s.drain
      → s'.tail ≡ s.tail
      → Produced n s q p s'
  quiet p s' e u ok es ed et = record {
    new = [];
    in_use = rw (append-nil q) u;
    entries = sym e;
    producer_ok = rw (append-nil q) ok;
    same_sink = es;
    same_drain = ed;
    same_tail = et;
  }

  free_slot : leb s.capacity (sub64 s.head s.tail) ≡ false → length q < n
  free_slot e = ground (arith, v.capacity_is, occupied)

  pub head_slot : Slot s.ring (s.head % n) (λ rec. length rec.msg ≡ max_msg_len)
  head_slot =
      let (rec, e) =
        get_elem?_held s.ring (s.head % n) (rw v.array (index_in_range v.size s.head)) in
      (rec, e, All-get_elem? (λ r. length r.msg ≡ max_msg_len) s.ring (s.head % n) v.slots e)

  produce_called : (now : ℕ) (c : Call) → Produced n s q (called c) (log_step now (called c) s)
  unfolding log_step
  produce_called now c = elim (Bool-cases (below c.level s.min_level)) [
    | inl filtered ↦ rw filtered (quiet _ _ refl v tt refl refl refl)
    | inr passed ↦ rw passed (quiet _ _ refl v tt refl refl refl)
  ]

  produce_admitted :
      (now : ℕ) (c : Call) → Produced n s q (admitted c s.head) (log_step now (admitted c s.head) s)
  unfolding log_step
  produce_admitted now c = elim (Bool-cases (leb s.capacity (sub64 s.head s.tail))) [
    | inl full ↦ rw full (quiet _ _ refl v tt refl refl refl)
    | inr room ↦ rw room (quiet _ _ refl v (refl, free_slot room) refl refl refl)
  ]

  produce_set_level :
      (now : ℕ) (c : Call)
      → length q < n
      → Produced n s q (set_level c s.head) (log_step now (set_level c s.head) s)
  unfolding log_step
  produce_set_level now c free =
      let f = λ (rec : Record). record rec { level = c.level } in
      let (rec, e, size) = head_slot in
      quiet _ _ refl (write_slot f free (λ r h. h)) (refl, free, (f rec, written f rec e, refl))
        refl refl refl

  produce_set_time :
      (now : ℕ) (c : Call)
      → length q < n
      → Slot s.ring (s.head % n) (λ rec. rec.level ≡ c.level)
      → Produced n s q (set_time c s.head) (log_step now (set_time c s.head) s)
  unfolding log_step
  produce_set_time now c free (rec, e, level) =
      let f = λ (rec : Record). record rec { time = now } in
      quiet _ _ refl (write_slot f free (λ r h. h))
        (refl, free, (f rec, written f rec e, (level, refl))) refl refl refl

  formatted : Call → Record → Record
  formatted c rec =
      let (msg, len) = format_into rec.msg max_msg_len c.outcome in
      record rec { len = len; msg = msg }

  entry_of-formatted :
      (c : Call) (time : ℕ) (rec : Record)
      → length rec.msg ≡ max_msg_len
      → rec.level ≡ c.level
      → rec.time ≡ time
      → (entry_of (formatted c rec) ≡ logged c time) × (length (formatted c rec).msg ≡ max_msg_len)
  unfolding formatted entry_of
  entry_of-formatted c time rec size level at =
      let (same, small, seen) = format_into_lem rec.msg max_msg_len c.outcome size (omega arith) in
      (rw (level, at, seen), same)

  produce_set_text :
      (now : ℕ) (c : Call) (time : ℕ)
      → length q < n
      → Slot s.ring (s.head % n) (λ rec. (rec.level ≡ c.level) × (rec.time ≡ time))
      → Produced n s q (set_text c s.head time) (log_step now (set_text c s.head time) s)
  unfolding log_step formatted
  produce_set_text now c time free (rec, e, (level, at)) =
      let keep = λ (r : Record) (size : length r.msg ≡ max_msg_len).
        (entry_of-formatted (record { level = r.level; outcome = c.outcome }) r.time r size refl
          refl).1 in
      let size = All-get_elem? (λ r. length r.msg ≡ max_msg_len) s.ring (s.head % n) v.slots e in
      quiet _ _ refl (write_slot (formatted c) free keep)
        (
          refl,
          free,
          (
            formatted c rec,
            written (formatted c) rec e,
            (entry_of-formatted c time rec size level at).0,
          ),
        )
        refl refl refl

  produce_publish :
      (now : ℕ) (c : Call) (time : ℕ)
      → length q < n
      → Slot s.ring (s.head % n) (λ rec. entry_of rec ≡ logged c time)
      → Produced n s q (publish c s.head time) (log_step now (publish c s.head time) s)
  unfolding log_step
  produce_publish now c time free (rec, e, entry) = record {
    new = rec ∷ [];
    in_use = record {
      size = v.size;
      capacity_is = v.capacity_is;
      mask_is = v.mask_is;
      array = v.array;
      slots = v.slots;
      tail_range = v.tail_range;
      head_at =
          ap (λ (h : ℕ). u64 (h + 1)) v.head_at ∙ rw (length-append q (rec ∷ [])) (omega arith);
      room = omega (arith, length-append q (rec ∷ []));
      cells =
          Holds-append n s.ring q s.tail rec (ap (get_elem? s.ring) (sym head_cell) ∙ e) v.cells;
    };
    entries = ap (λ x. x ∷ []) entry;
    producer_ok = tt;
    same_sink = refl;
    same_drain = refl;
    same_tail = refl;
  }

  -- Any access of the producer, from a state that its locals fit.
  pub produce_any :
      (now : ℕ) (p : Producer)
      → ProducerOk n s.ring s.head (length q) p
      → ProducerOk n s.ring s.head (length q) s.producer
      → s.producer ≡ p
      → Produced n s q p (log_step now p s)
  produce_any now idle ok ok' e = unfold log_step in quiet _ _ refl v ok' refl refl refl
  produce_any now (called c) ok ok' e = produce_called now c
  produce_any now (loading c) ok ok' e = unfold log_step in quiet _ _ refl v refl refl refl refl
  produce_any now (admitted c h) ok ok' e = rw ok (produce_admitted now c)
  produce_any now dropping ok ok' e = unfold log_step in quiet _ _ refl v tt refl refl refl
  produce_any now (set_level c h) ok ok' e = rw ok.0 (produce_set_level now c ok.1)
  produce_any now (set_time c h) ok ok' e =
      rw ok.0 (produce_set_time now c ok.1 (move_slot n s.ring _ ok.0 ok.2))
  produce_any now (set_text c h t) ok ok' e =
      rw ok.0 (produce_set_text now c t ok.1 (move_slot n s.ring _ ok.0 ok.2))
  produce_any now (publish c h t) ok ok' e =
      rw ok.0 (produce_publish now c t ok.1 (move_slot n s.ring _ ok.0 ok.2))
