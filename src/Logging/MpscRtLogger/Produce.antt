-- ===== src/Logging/MpscRtLogger/Produce.antt =====
-- Each access of a producer keeps the invariant; a claim is recorded on the way.
use xm_sigma.Common.{ℕ, ◌+◌, ◌%◌, ◌^◌, ◌≤◌, ◌<◌, ◌≡◌, refl, sym, ◌∙◌, ap, subst, arith}
use xm_sigma.Common.{
  Bool, true, false, Bool-cases, inl, inr, bit_and, if◌then◌else◌, ◌==◌, eq_of_==, u64,
}
use xm_sigma.Common.{
  [], ◌∷◌, ◌++◌, length, get_elem?, modify, some, append-nil, All-get_elem?, get_elem?_held,
}
use xm_sigma.Common.Indices.{index_in_range}
use xm_sigma.Logging.Level.{below}
use xm_sigma.Logging.Format.{format_into, format_into_lem}
use xm_sigma.Logging.RtLogger.{Record, entry_of, Call, max_msg_len}
use xm_sigma.Logging.RtLogger.Invariant.{logged}
use xm_sigma.Logging.MpscRtLogger.{
  Cell, State, goto, at_cell, at_payload, try_cell, claim, log_step,
}
use xm_sigma.Logging.MpscRtLogger.{diff_is_zero, diff_is_negative, signed_place}
use xm_sigma.Logging.MpscRtLogger.{Producer, idle, called, loading, trying, claiming}
use xm_sigma.Logging.MpscRtLogger.{dropping, set_time, set_level, set_text, publish}
use xm_sigma.Logging.MpscRtLogger.Slots.{At, At-modify_self}
use xm_sigma.Logging.MpscRtLogger.Invariant.{
  Claims, Sequence, Writes, ProducerOk, CellOk, IsMpsc, Anything,
}
use xm_sigma.Logging.MpscRtLogger.Locals.{update-cases, IsMpsc-other}
use xm_sigma.Logging.MpscRtLogger.Write.{cell_index, write-IsMpsc}
use xm_sigma.Logging.MpscRtLogger.Claim.{claim-IsMpsc}

-- What an access of producer `i` claims.
abbrev pub claimed_by : ℕ → Bool → Producer → ℕ → Claims
claimed_by i spurious (claiming c pos) next =
    if spurious then [] else if next == pos then (i, c) ∷ [] else []
claimed_by i spurious p next = []

-- A producer that moves on without touching the ring.
move-IsMpsc :
    {n : ℕ} (s : State) {claims : Claims} (i : ℕ) (p : Producer)
    → IsMpsc n s claims
    → ProducerOk n s.cells s.dequeue_pos s.enqueue_pos claims i p
    → IsMpsc n (goto s i p) (claims ++ [])
move-IsMpsc {n} s {claims} i p v ok = rw (append-nil claims) (record {
  ring = v.ring;
  producers_ok =
      update-cases (ProducerOk n s.cells s.dequeue_pos s.enqueue_pos claims) s.producers i p ok
        (λ j ne. v.producers_ok j);
  drain_ok = v.drain_ok;
  delivered = v.delivered;
  given_is = v.given_is;
})

module _ {n : ℕ} (s : State) {claims : Claims} (i : ℕ) (v : IsMpsc n s claims)
    (small : s.enqueue_pos + n < 2 ^ 63) where
  stay : IsMpsc n s (claims ++ [])
  stay = rw (append-nil claims) v

  next_pos : (pos : ℕ) → pos ≤ s.enqueue_pos → u64 (pos + 1) ≡ pos + 1
  next_pos pos le = omega arith

  try_cell-IsMpsc :
      (c : Call) (pos : ℕ) (cell : Cell)
      → pos ≤ s.enqueue_pos
      → get_elem? s.cells (bit_and pos s.mask) ≡ some cell
      → IsMpsc n (try_cell i c pos cell.sequence s) (claims ++ [])
  unfolding try_cell
  try_cell-IsMpsc c pos cell le there = elim (Bool-cases (diff_is_zero cell.sequence pos)) [
    | inl zero_diff ↦ rw zero_diff (
        move-IsMpsc s i (claiming c pos) v (
          le,
          λ e. record {
            cell = cell;
            there = ap (get_elem? s.cells) (sym (cell_index v.ring pos)) ∙ there;
            fits = same zero_diff;
          },
        ))
    | inr other ↦ rw other (elim (Bool-cases (diff_is_negative cell.sequence pos)) [
      | inl full ↦ rw full (move-IsMpsc s i dropping v tt)
      | inr lost ↦ rw lost (move-IsMpsc s i (loading c) v tt)
    ])
  ]
    where
      same : diff_is_zero cell.sequence pos ≡ true → cell.sequence ≡ pos
      same e =
          let ok = All-get_elem? CellOk s.cells (bit_and pos s.mask) v.ring.cells_ok there in
          omega (arith, eq_of_== (signed_place cell.sequence) (signed_place pos) e, ok.1)

  trying-IsMpsc :
      (c : Call) (pos now : ℕ) (spurious : Bool)
      → pos ≤ s.enqueue_pos
      → IsMpsc n (log_step i now spurious (trying c pos) s) (claims ++ [])
  unfolding log_step
  trying-IsMpsc c pos now spurious le =
      let (cell, there) =
        get_elem?_held s.cells (bit_and pos s.mask)
          (rw (cell_index v.ring pos, v.ring.array) (index_in_range v.ring.size pos)) in
      rw (there, log_step) (try_cell-IsMpsc c pos cell le there)

  claim_step-IsMpsc :
      (c : Call) (pos : ℕ) (spurious : Bool)
      → ProducerOk n s.cells s.dequeue_pos s.enqueue_pos claims i (claiming c pos)
      → IsMpsc n
          (claim i spurious c pos s)
          (claims ++ claimed_by i spurious (claiming c pos) s.enqueue_pos)
  unfolding claim
  claim_step-IsMpsc c pos true ok = move-IsMpsc s i (trying c s.enqueue_pos) v (omega arith)
  claim_step-IsMpsc c pos false ok = elim (Bool-cases (s.enqueue_pos == pos)) [
    | inr lost ↦ rw lost (move-IsMpsc s i (trying c s.enqueue_pos) v (omega arith))
    | inl won ↦
        let e = eq_of_== s.enqueue_pos pos won in
        rw (won, next_pos pos ok.0)
          (subst
            (λ (k : ℕ).
              IsMpsc n (goto (record s { enqueue_pos = k + 1 }) i (set_time c k))
                (claims ++ ((i, c) ∷ [])))
            e
            (claim-IsMpsc s i c v
              (subst (λ (k : ℕ). At n s.cells k (Sequence k)) (sym e) (ok.1 (sym e)))))
  ]

  abbrev on_payload : (Record → Record) → Cell → Cell
  on_payload f cell = record cell { payload = f cell.payload }

  write_step-IsMpsc :
      (c : Call) (pos : ℕ) (P Q : Record → Type 0) (f : Record → Record) (p : Producer)
      → Writes n s.cells s.dequeue_pos s.enqueue_pos claims i c pos P
      → ((rec : Record) → length rec.msg ≡ max_msg_len → length (f rec).msg ≡ max_msg_len)
      → ((rec : Record) → length rec.msg ≡ max_msg_len → P rec → Q (f rec))
      → (Writes n
            (modify s.cells (pos % n) (on_payload f))
            s.dequeue_pos
            s.enqueue_pos
            claims
            i
            c
            pos
            Q
          → ProducerOk n
              (modify s.cells (pos % n) (on_payload f))
              s.dequeue_pos
              s.enqueue_pos
              claims
              i
              p)
      → IsMpsc n (goto (at_payload s pos f) i p) (claims ++ [])
  write_step-IsMpsc c pos P Q f p w keep step moved =
      let ok = All-get_elem? CellOk s.cells (pos % n) v.ring.cells_ok w.at.there in
      let sized : At n s.cells pos (λ cell.
        (length cell.payload.msg ≡ max_msg_len) × (cell.sequence ≡ pos) × P cell.payload) =
        record { cell = w.at.cell; there = w.at.there; fits = (ok.0, w.at.fits.0, w.at.fits.1) } in
      rw (append-nil claims) (
        write-IsMpsc s v i c pos (on_payload f) p P w (λ cell h. inl h.0)
          (λ cell h. (keep cell.payload h.0, h.1))
          (moved (record {
            from = w.from;
            before = w.before;
            claimed = w.claimed;
            at = At-modify_self (on_payload f) _ (λ cell h. (h.1, step cell.payload h.0 h.2)) sized;
          })))

  formatted : Call → Record → Record
  formatted c rec =
      let (msg, len) = format_into rec.msg max_msg_len c.outcome in
      record rec { len = len; msg = msg }

  entry_of-formatted :
      (c : Call) (time : ℕ) (rec : Record)
      → length rec.msg ≡ max_msg_len
      → rec.time ≡ time
      → rec.level ≡ c.level
      → entry_of (formatted c rec) ≡ logged c time
  unfolding formatted entry_of
  entry_of-formatted c time rec size at level =
      let (same, small, seen) = format_into_lem rec.msg max_msg_len c.outcome size (omega arith) in
      rw (level, at, seen)

  length-formatted :
      (c : Call) (rec : Record)
      → length rec.msg ≡ max_msg_len
      → length (formatted c rec).msg ≡ max_msg_len
  unfolding formatted
  length-formatted c rec size = (format_into_lem rec.msg max_msg_len c.outcome size (omega arith)).0

  publish_step-IsMpsc :
      (c : Call) (pos t : ℕ)
      → ProducerOk n s.cells s.dequeue_pos s.enqueue_pos claims i (publish c pos t)
      → IsMpsc n
          (goto (at_cell s pos (λ cell. record cell { sequence = u64 (pos + 1) })) i idle)
          (claims ++ [])
  publish_step-IsMpsc c pos t w =
      rw (append-nil claims, next_pos pos (omega (arith, w.before)))
        (write-IsMpsc s v i c pos (λ cell. record cell { sequence = pos + 1 }) idle _ w
          (λ cell h. inr (refl, (t, h.1))) (λ cell h. (h.0, omega (arith, w.before))) tt)

  counted : IsMpsc n (record s { dropped = u64 (s.dropped + 1) }) claims
  counted = IsMpsc-other s s.min_level (u64 (s.dropped + 1)) s.running s.flushed s.flusher v

  -- Any access of the producer, from a state that its locals fit.
  pub produce_any :
      (now : ℕ) (spurious : Bool) (p : Producer)
      → ProducerOk n s.cells s.dequeue_pos s.enqueue_pos claims i p
      → IsMpsc n (log_step i now spurious p s) (claims ++ claimed_by i spurious p s.enqueue_pos)
  produce_any now spurious idle ok = unfold log_step in stay
  produce_any now spurious (called c) ok =
      unfold log_step in
      (elim (Bool-cases (below c.level s.min_level)) [
        | inl filtered ↦ rw filtered (move-IsMpsc s i idle v tt)
        | inr passed ↦ rw passed (move-IsMpsc s i (loading c) v tt)
      ])
  produce_any now spurious (loading c) ok =
      unfold log_step in move-IsMpsc s i (trying c s.enqueue_pos) v (omega arith)
  produce_any now spurious (trying c pos) ok = trying-IsMpsc c pos now spurious ok
  produce_any now spurious (claiming c pos) ok =
      unfold log_step in claim_step-IsMpsc c pos spurious ok
  produce_any now spurious dropping ok =
      unfold log_step in move-IsMpsc (record s { dropped = u64 (s.dropped + 1) }) i idle counted tt
  produce_any now spurious (set_time c pos) ok =
      unfold log_step in
      write_step-IsMpsc c pos Anything (λ rec. rec.time ≡ now) (λ rec. record rec { time = now })
        (set_level c pos now) ok (λ rec h. h) (λ rec h t. refl) (λ w. w)
  produce_any now spurious (set_level c pos t) ok =
      unfold log_step in
      write_step-IsMpsc c pos (λ rec. rec.time ≡ t) (λ rec. (rec.time ≡ t) × (rec.level ≡ c.level))
        (λ rec. record rec { level = c.level }) (set_text c pos t) ok (λ rec h. h)
        (λ rec h e. (e, refl)) (λ w. w)
  produce_any now spurious (set_text c pos t) ok =
      unfold log_step formatted in
      write_step-IsMpsc c pos (λ rec. (rec.time ≡ t) × (rec.level ≡ c.level))
        (λ rec. entry_of rec ≡ logged c t) (formatted c) (publish c pos t) ok (length-formatted c)
        (λ rec h e. entry_of-formatted c t rec h e.0 e.1) (λ w. w)
  produce_any now spurious (publish c pos t) ok = unfold log_step in publish_step-IsMpsc c pos t ok
