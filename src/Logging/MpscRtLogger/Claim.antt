-- ===== src/Logging/MpscRtLogger/Claim.antt =====
-- A producer's successful compare-exchange, the claim of the next position, keeps the invariant.
use xm_sigma.Common.{ℕ, ◌+◌, ◌%◌, ◌<◌, ◌≡◌, ◌≢◌, sym, ◌∙◌, ap, subst, arith}
use xm_sigma.Common.{
  List, [], ◌∷◌, ◌++◌, get_elem?, some, inl, inr, dec_lt, ℕ_discrete, length-append,
}
use xm_sigma.Common.Indices.{index_again}
use xm_sigma.Logging.RtLogger.{Call}
use xm_sigma.Logging.MpscRtLogger.{Cell, State, goto, set_time, Producer}
use xm_sigma.Logging.MpscRtLogger.{
  Drain, top, got_pos, saw_empty, logging, storing, freeing, closing, ended,
}
use xm_sigma.Logging.MpscRtLogger.Slots.{At, At-same, At-weaken}
use xm_sigma.Logging.MpscRtLogger.Invariant.{
  Claims, Sequence, HeldCell, Held, ProducerOk, DrainOk, IsRing, IsMpsc,
}
use xm_sigma.Logging.MpscRtLogger.Locals.{
  ProducerOk-keep, update-cases, Held-append, Delivered-append, get_elem?-append_left,
  get_elem?-append_last,
}

module _ {n capacity mask : ℕ} {cells : List Cell} {next : ℕ} {claims : Claims} {first limit : ℕ}
    (v : IsRing n capacity mask cells first limit next claims) where
  -- A position that is free to claim is not `n` behind one whose cell is still in use.
  not_again :
      (p : ℕ)
      → At n cells p (λ cell. cell.sequence < p + n)
      → At n cells next (Sequence next)
      → next ≢ p + n
  not_again p old new e =
      let same : p % n ≡ next % n = sym (index_again v.size p) ∙ ap (λ (k : ℕ). k % n) (sym e) in
      omega (arith, old.fits, new.fits, ap (λ (c : Cell). c.sequence) (At-same old new same))

  some_room : At n cells next (Sequence next) → next < first + n
  some_room new = elim (dec_lt next (first + n)) [
    | yes lt ↦ lt
    | no ge ↦
        let h = v.held first (omega arith) (omega (arith, v.two)) in
        absurd (
          not_again first (At-weaken (HeldCell first h.call) _ (used h.call) h.at) new
            (omega (arith, v.room)))
  ]
    where
      used : (c : Call) (cell : Cell) → HeldCell first c cell → cell.sequence < first + n
      used c cell (inl e) = omega (arith, v.two)
      used c cell (inr e) = omega (arith, v.two, e.0)

  module _ (i : ℕ) (c : Call) (new : At n cells next (Sequence next)) where
    abbrev claims' : Claims
    claims' = claims ++ ((i, c) ∷ [])

    claimed' : get_elem? claims' next ≡ some (i, c)
    claimed' = ap (get_elem? claims') v.count ∙ get_elem?-append_last claims (i, c)

    pub claim-IsRing : IsRing n capacity mask cells first limit (next + 1) claims'
    claim-IsRing = record {
      size = v.size;
      two = v.two;
      capacity_is = v.capacity_is;
      mask_is = v.mask_is;
      array = v.array;
      cells_ok = v.cells_ok;
      count = omega (arith, v.count, length-append claims ((i, c) ∷ []));
      order = omega (arith, v.order);
      room = omega (arith, some_room new);
      limit_lo = v.limit_lo;
      limit_hi = v.limit_hi;
      held = λ p hp hp'. elim (ℕ_discrete next p) [
        | yes same ↦ subst (Held n cells claims') same (record {
          owner = i;
          call = c;
          claimed = claimed';
          at = At-weaken (Sequence next) (HeldCell next c) (λ cell e. inl e) new;
        })
        | no ne ↦ Held-append ((i, c) ∷ []) (v.held p hp (omega arith))
      ];
      free = λ p hp hp'. v.free p (omega arith) hp';
    }

    pub claim-others :
        (j : ℕ) (p : Producer)
        → ProducerOk n cells first next claims j p
        → ProducerOk n cells first (next + 1) claims' j p
    claim-others j p ok =
        ProducerOk-keep j p (omega arith) (λ q le at e. absurd (omega arith))
          (λ q c' P w. record {
            from = w.from;
            before = omega (arith, w.before);
            claimed = get_elem?-append_left claims ((i, c) ∷ []) q (j, c') w.claimed;
            at = w.at;
          })
          ok

    pub claim-mover : ProducerOk n cells first (next + 1) claims' i (set_time c next)
    claim-mover = record {
      from = v.order;
      before = omega arith;
      claimed = claimed';
      at = At-weaken (Sequence next) _ (λ cell e. (e, tt)) new;
    }

    pub claim-DrainOk :
        (d : Drain) → DrainOk n cells first next d → DrainOk n cells first (next + 1) d
    claim-DrainOk top ok = tt
    claim-DrainOk (got_pos p) ok = ok
    claim-DrainOk saw_empty ok = tt
    claim-DrainOk (logging p) ok = (ok.0, omega arith, ok.2)
    claim-DrainOk (storing p) ok = (ok.0, omega arith, ok.2)
    claim-DrainOk (freeing p) ok =
        let busy =
          At-weaken (Sequence (p + 1)) (λ cell. cell.sequence < p + n)
            (λ cell e. omega (arith, v.two)) ok.2 in
        (ok.0, omega (arith, not_again p busy new), ok.2)
    claim-DrainOk closing ok = tt
    claim-DrainOk ended ok = tt

pub claim-IsMpsc :
    {n : ℕ} (s : State) {claims : Claims} (i : ℕ) (c : Call)
    → IsMpsc n s claims
    → At n s.cells s.enqueue_pos (Sequence s.enqueue_pos)
    → IsMpsc n
        (goto (record s { enqueue_pos = s.enqueue_pos + 1 }) i (set_time c s.enqueue_pos))
        (claims ++ ((i, c) ∷ []))
claim-IsMpsc {n} s {claims} i c v new = record {
  ring = claim-IsRing v.ring i c new;
  producers_ok =
      update-cases
        (ProducerOk n s.cells s.dequeue_pos (s.enqueue_pos + 1) (claims ++ ((i, c) ∷ [])))
        s.producers i (set_time c s.enqueue_pos) (claim-mover v.ring i c new)
        (λ j ne. claim-others v.ring i c new j (s.producers j) (v.producers_ok j));
  drain_ok = claim-DrainOk v.ring i c new s.drain v.drain_ok;
  delivered = Delivered-append claims ((i, c) ∷ []) s.sink v.delivered;
  given_is = v.given_is;
}
