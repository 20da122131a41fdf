-- ===== src/Logging/MpscRtLogger/Pending.antt =====
-- A claimed cell that is not yet published is being filled by the producer that claimed it.
pub mod Steps
use xm_sigma.Common.{ℕ, ◌+◌, ◌%◌, ◌^◌, ◌≤◌, ◌<◌, ◌≡◌, ◌≢◌, refl, sym, ◌∙◌, ap, subst, arith}
use xm_sigma.Common.{List, [], ◌∷◌, ◌++◌, length, get_elem?, modify, Option, some, none}
use xm_sigma.Common.{Bool, true, false, Bool-cases, inl, inr, ◌==◌, eq_of_==, if◌then◌else◌, u64}
use xm_sigma.Common.{bit_and, ℕ_discrete, get_elem?_held, append-nil}
use xm_sigma.Common.{get_elem?-modify_self, get_elem?-modify_ne}
use xm_sigma.Common.Indices.{index_in_range}
use xm_sigma.Logging.Level.{below}
use xm_sigma.Logging.RtLogger.{Record, Call}
use xm_sigma.Logging.MpscRtLogger.{Cell, State, update, goto, at_cell, try_cell, claim, log_step}
use xm_sigma.Logging.MpscRtLogger.{diff_is_zero, diff_is_negative}
use xm_sigma.Logging.MpscRtLogger.{Producer, idle, called, loading, trying, claiming}
use xm_sigma.Logging.MpscRtLogger.{dropping, set_time, set_level, set_text, publish}
use xm_sigma.Logging.MpscRtLogger.Slots.{At, At-same, At-weaken, At-modify_self, window_ne}
use xm_sigma.Logging.MpscRtLogger.Invariant.{
  Claims, Sequence, Writes, ProducerOk, IsRing, IsMpsc, writing,
}
use xm_sigma.Logging.MpscRtLogger.Locals.{
  update-cases, get_elem?-append_left, get_elem?-append_last,
}
use xm_sigma.Logging.MpscRtLogger.Write.{cell_index}
use xm_sigma.Logging.MpscRtLogger.Produce.{claimed_by}

-- Whose cell still has the sequence of its claim, that producer is filling it.
abbrev pub Pending : ℕ → List Cell → ℕ → ℕ → Claims → (ℕ → Producer) → Type 0
Pending n cells first next claims producers =
    (p i : ℕ) (c : Call)
    → first ≤ p
    → p < next
    → get_elem? claims p ≡ some (i, c)
    → At n cells p (Sequence p)
    → writing (producers i) ≡ some p

abbrev pub IsPending : ℕ → State → Claims → Type 0
IsPending n s claims = Pending n s.cells s.dequeue_pos s.enqueue_pos claims s.producers

module _ {n : ℕ} {cells : List Cell} {p : ℕ} (k : ℕ) (f : Cell → Cell) where
  -- What a write to another cell left.
  pub At-elsewhere : {P : Cell → Type 0} → k ≢ p % n → At n (modify cells k f) p P → At n cells p P
  At-elsewhere ne a = record {
    cell = a.cell;
    there = sym (get_elem?-modify_ne cells k (p % n) f ne) ∙ a.there;
    fits = a.fits;
  }

  -- What a write that keeps the sequence left.
  At-before :
      (x : ℕ)
      → ((cell : Cell) → (f cell).sequence ≡ cell.sequence)
      → p % n < length cells
      → At n (modify cells k f) p (Sequence x)
      → At n cells p (Sequence x)
  At-before x keeps held a = elim (ℕ_discrete k (p % n)) [
    | no ne ↦ At-elsewhere ne a
    | yes same ↦
        let (cell, there) = get_elem?_held cells (p % n) held in
        let now : get_elem? (modify cells k f) (p % n) ≡ some (f cell) =
          ap (λ (j : ℕ). get_elem? (modify cells j f) (p % n)) same
          ∙ get_elem?-modify_self cells (p % n) f cell there in
        let it : a.cell ≡ f cell = cc in
        record {
          cell = cell;
          there = there;
          fits = sym (keeps cell) ∙ ap (λ (c : Cell). c.sequence) (sym it) ∙ a.fits;
        }
  ]

-- A producer that goes on without leaving a cell that it fills.
writing-update :
    (f : ℕ → Producer) (i : ℕ) (p : Producer) (j q : ℕ)
    → (writing (f i) ≡ some q → writing p ≡ some q)
    → writing (f j) ≡ some q
    → writing (update f i p j) ≡ some q
writing-update f i p j q mover =
    update-cases (λ j pc. writing (f j) ≡ some q → writing pc ≡ some q) f i p mover (λ j ne h. h) j

module _ {n : ℕ} (s : State) {claims : Claims} (v : IsMpsc n s claims) (h : IsPending n s claims)
    (small : s.enqueue_pos + n < 2 ^ 63) (i : ℕ) where
  pub moved :
      (p : Producer) → writing (s.producers i) ≡ none → IsPending n (goto s i p) (claims ++ [])
  moved p none_yet =
      rw (append-nil claims)
        (λ q j c lo hi e at. writing-update s.producers i p j q (λ same. cc) (h q j c lo hi e at))

  pub stays : IsPending n s (claims ++ [])
  stays = rw (append-nil claims) h

  pub wrote :
      (k : ℕ) (f : Cell → Cell) (p : Producer)
      → ((cell : Cell) → (f cell).sequence ≡ cell.sequence)
      → writing (s.producers i) ≡ writing p
      → IsPending n (goto (record s { cells = modify s.cells k f }) i p) (claims ++ [])
  wrote k f p keeps still = rw (append-nil claims) (λ q j c lo hi e at.
      let held : q % n < length s.cells = rw v.ring.array (index_in_range v.ring.size q) in
      writing-update s.producers i p j q (λ same. sym still ∙ same)
        (h q j c lo hi e (At-before k f q keeps held at)))

  pub published :
      {P : Record → Type 0} (c : Call) (pos : ℕ)
      → Writes n s.cells s.dequeue_pos s.enqueue_pos claims i c pos P
      → writing (s.producers i) ≡ some pos
      → IsPending n
          (goto (at_cell s pos (λ cell. record cell { sequence = u64 (pos + 1) })) i idle)
          (claims ++ [])
  published c pos w fills =
      rw (append-nil claims, cell_index v.ring pos)
        (λ q j d lo hi e at. elim (ℕ_discrete pos q) [
          | yes same ↦ absurd (ended q same at)
          | no ne ↦
              writing-update s.producers i idle j q (λ again. other q ne again)
                (h q j d lo hi e (
                  At-elsewhere (pos % n) _
                    (window_ne v.ring.size s.dequeue_pos pos q w.from
                      (omega (arith, w.before, v.ring.room)) lo (omega (arith, v.ring.room)) ne)
                    at))
        ])
    where
      other : (q : ℕ) → pos ≢ q → writing (s.producers i) ≡ some q → writing idle ≡ some q
      other q ne again = let same : pos ≡ q = cc in absurd (ne same)

      ended :
          (q : ℕ)
          → pos ≡ q
          → At n
              (modify s.cells (pos % n) (λ cell. record cell { sequence = u64 (pos + 1) }))
              q
              (Sequence q)
          → ⊥
      ended q same at =
          let now =
            At-modify_self (λ cell. record cell { sequence = u64 (pos + 1) })
              (Sequence (u64 (pos + 1))) (λ cell h. refl) w.at in
          omega (
            arith,
            now.fits,
            at.fits,
            ap (λ (c : Cell). c.sequence) (At-same now at (ap (λ (k : ℕ). k % n) same)),
            w.before,
          )

  pub claimed_next :
      (c : Call)
      → writing (s.producers i) ≡ none
      → IsPending n
          (goto (record s { enqueue_pos = s.enqueue_pos + 1 }) i (set_time c s.enqueue_pos))
          (claims ++ ((i, c) ∷ []))
  claimed_next c none_yet q j d lo hi e at = elim (ℕ_discrete q s.enqueue_pos) [
    | yes same ↦
        let last : get_elem? (claims ++ ((i, c) ∷ [])) q ≡ some (i, c) =
          ap (get_elem? (claims ++ ((i, c) ∷ []))) (same ∙ v.ring.count)
          ∙ get_elem?-append_last claims (i, c) in
        let mine : i ≡ j = cc in
        update-cases (λ j pc. i ≡ j → writing pc ≡ some q) s.producers i (set_time c s.enqueue_pos)
          (λ e. ap some (sym same)) (λ j ne e. absurd (ne e)) j mine
    | no ne ↦
        let held = v.ring.held q lo (omega arith) in
        let before : get_elem? (claims ++ ((i, c) ∷ [])) q ≡ some (held.owner, held.call) =
          get_elem?-append_left claims ((i, c) ∷ []) q (held.owner, held.call) held.claimed in
        writing-update s.producers i (set_time c s.enqueue_pos) j q (λ same. cc)
          (h q j d lo (omega arith) (held.claimed ∙ sym before ∙ e) at)
  ]
