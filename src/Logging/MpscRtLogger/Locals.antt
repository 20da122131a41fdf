-- ===== src/Logging/MpscRtLogger/Locals.antt =====
-- How the invariant's parts survive: locals of threads that do not move, claims that grow, and
-- a sink that grows.
use xm_sigma.Common.{ℕ, zero, suc, ◌≤◌, ◌≡◌, ◌≢◌, refl, sym, subst, arith}
use xm_sigma.Common.{
  Bool, List, [], ◌∷◌, ◌++◌, length, get_elem?, some, Bool-cases, inl, inr, ◌==◌, eq_of_==,
}
use xm_sigma.Logging.Level.{LogLevel}
use xm_sigma.Logging.RtLogger.{Record, Entry, Call, Flusher}
use xm_sigma.Logging.MpscRtLogger.{Cell, State, update, Drain, storing}
use xm_sigma.Logging.MpscRtLogger.{Producer, idle, called, loading, trying, claiming}
use xm_sigma.Logging.MpscRtLogger.{dropping, set_time, set_level, set_text, publish}
use xm_sigma.Logging.MpscRtLogger.Slots.{At}
use xm_sigma.Logging.MpscRtLogger.Invariant.{
  Claims, IsRecord, Delivered, Sequence, Writes, ProducerOk, Held, IsMpsc, given,
}

module _ {ℓ} {A : Type ℓ} where
  pub get_elem?-append_left :
      (xs ys : List A) (k : ℕ) (x : A) → get_elem? xs k ≡ some x → get_elem? (xs ++ ys) k ≡ some x
  get_elem?-append_left [] ys k x e = cc
  get_elem?-append_left (y ∷ xs) ys zero x e = e
  get_elem?-append_left (y ∷ xs) ys (suc k) x e = get_elem?-append_left xs ys k x e

  pub get_elem?-append_last :
      (xs : List A) (x : A) → get_elem? (xs ++ (x ∷ [])) (length xs) ≡ some x
  get_elem?-append_last [] x = refl
  get_elem?-append_last (y ∷ xs) x = get_elem?-append_last xs x

pub Delivered-append :
    (claims more : Claims) (es : List Entry) → Delivered claims es → Delivered (claims ++ more) es
Delivered-append claims more [] d = tt
Delivered-append [] more (e ∷ es) d = absurd d
Delivered-append ((i, c) ∷ claims) more (e ∷ es) d = (d.0, Delivered-append claims more es d.1)

pub Delivered-next :
    (claims : Claims) (es : List Entry) (e : Entry) (i : ℕ) (c : Call)
    → get_elem? claims (length es) ≡ some (i, c)
    → IsRecord c e
    → Delivered claims es
    → Delivered claims (es ++ (e ∷ []))
Delivered-next [] [] e i c at rec d = cc
Delivered-next ((j, c') ∷ claims) [] e i c at rec d =
    let same : c' ≡ c = cc in (subst (λ k. IsRecord k e) (sym same) rec, tt)
Delivered-next [] (x ∷ es) e i c at rec d = absurd d
Delivered-next ((j, c') ∷ claims) (x ∷ es) e i c at rec d =
    (d.0, Delivered-next claims es e i c at rec d.1)

pub Held-append :
    {n : ℕ} {cells : List Cell} {claims : Claims} {p : ℕ} (more : Claims)
    → Held n cells claims p
    → Held n cells (claims ++ more) p
Held-append {claims = claims} {p} more h = record {
  owner = h.owner;
  call = h.call;
  claimed = get_elem?-append_left claims more p (h.owner, h.call) h.claimed;
  at = h.at;
}

-- A producer that does not move keeps what its locals say, where claims and cells keep it.
pub ProducerOk-keep :
    {n : ℕ} {cells cells' : List Cell} {first first' next next' : ℕ} {claims claims' : Claims}
    (i : ℕ) (p : Producer)
    → next ≤ next'
    → ((q : ℕ)
        → q ≤ next
        → (q ≡ next → At n cells q (Sequence q))
        → q ≡ next'
        → At n cells' q (Sequence q))
    → ((q : ℕ) (c : Call) (P : Record → Type 0)
        → Writes n cells first next claims i c q P
        → Writes n cells' first' next' claims' i c q P)
    → ProducerOk n cells first next claims i p
    → ProducerOk n cells' first' next' claims' i p
ProducerOk-keep i idle le keep_claim keep ok = tt
ProducerOk-keep i (called c) le keep_claim keep ok = tt
ProducerOk-keep i (loading c) le keep_claim keep ok = tt
ProducerOk-keep i (trying c q) le keep_claim keep ok = omega arith
ProducerOk-keep i (claiming c q) le keep_claim keep ok = (omega arith, keep_claim q ok.0 ok.1)
ProducerOk-keep i dropping le keep_claim keep ok = tt
ProducerOk-keep i (set_time c q) le keep_claim keep ok = keep q c _ ok
ProducerOk-keep i (set_level c q t) le keep_claim keep ok = keep q c _ ok
ProducerOk-keep i (set_text c q t) le keep_claim keep ok = keep q c _ ok
ProducerOk-keep i (publish c q t) le keep_claim keep ok = keep q c _ ok

-- One producer moves to `p`, the others stay.
pub update-cases :
    (Q : ℕ → Producer → Type 0) (f : ℕ → Producer) (i : ℕ) (p : Producer)
    → Q i p
    → ((j : ℕ) → i ≢ j → Q j (f j))
    → (j : ℕ) → Q j (update f i p j)
update-cases Q f i p mover others j = elim (Bool-cases (i == j)) [
  | inl same ↦ rw same (subst (λ k. Q k p) (eq_of_== i j same) mover)
  | inr apart ↦ rw apart (others j (ground arith))
]

-- The fields that the invariant does not read may change.
pub IsMpsc-other :
    {n : ℕ} (s : State) {claims : Claims} (level : LogLevel) (count : ℕ) (on : Bool) (out : ℕ)
    → (f : Flusher) → IsMpsc n s claims
    → IsMpsc n
        (record s { min_level = level; dropped = count; running = on; flushed = out; flusher = f })
        claims
IsMpsc-other s level count on out f v = record {
  ring = v.ring;
  producers_ok = v.producers_ok;
  drain_ok = v.drain_ok;
  delivered = v.delivered;
  given_is = v.given_is;
}

-- The sink is never behind `dequeue_pos_`.
pub given_le : (d : Drain) (first : ℕ) → first ≤ given d first
given_le (storing p) first = omega arith
given_le d first = omega arith
