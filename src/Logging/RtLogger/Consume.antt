-- ===== src/Logging/RtLogger/Consume.antt =====
-- Each access of the drain thread keeps the invariant, and gives the sink the next record.
use xm_sigma.Common.{ℕ, ◌≤◌, ◌<◌, ◌≡◌, refl, sym, ◌∙◌, ap, subst, arith}
use xm_sigma.Common.{false, Bool-cases, inl, inr, bit_and, ◌==◌}
use xm_sigma.Common.{List, [], ◌∷◌, ◌++◌, map, length, get_elem?, some, append_assoc}
use xm_sigma.Common.Indices.{mask_lem}
use xm_sigma.Common.Cells.{Holds-step}
use xm_sigma.Logging.RtLogger.{Record, entry_of, State, drain_step}
use xm_sigma.Logging.RtLogger.{
  Producer, idle, called, loading, admitted, dropping, set_level, set_time, set_text, publish,
}
use xm_sigma.Logging.RtLogger.{Drain, top, got_tail, saw_empty, logging, freeing, closing, ended}
use xm_sigma.Logging.RtLogger.Invariant.{ProducerOk, DrainOk, unread, InUse}

-- Freeing slots takes no room from the producer.
ProducerOk-mono :
    (n : ℕ) (ring : List Record) (head len len' : ℕ) (p : Producer)
    → len' ≤ len
    → ProducerOk n ring head len p
    → ProducerOk n ring head len' p
ProducerOk-mono n ring head len len' idle h ok = tt
ProducerOk-mono n ring head len len' (called c) h ok = tt
ProducerOk-mono n ring head len len' (loading c) h ok = tt
ProducerOk-mono n ring head len len' (admitted c i) h ok = ok
ProducerOk-mono n ring head len len' dropping h ok = tt
ProducerOk-mono n ring head len len' (set_level c i) h ok = (ok.0, omega arith)
ProducerOk-mono n ring head len len' (set_time c i) h ok = (ok.0, omega arith, ok.2)
ProducerOk-mono n ring head len len' (set_text c i t) h ok = (ok.0, omega arith, ok.2)
ProducerOk-mono n ring head len len' (publish c i t) h ok = (ok.0, omega arith, ok.2)

-- The state after an access: `rest` is in use, and the sink and the unread records together hold
-- what they held.
pub record Consumed (n : ℕ) (s : State) (q : List Record) (d : Drain) (s' : State) : Type 0 where
  pub rest : List Record
  pub in_use : InUse n s' rest
  pub entries : s'.sink ++ map entry_of (unread s'.drain rest) ≡ s.sink ++ map entry_of (unread d q)
  pub producer_ok : ProducerOk n s'.ring s'.head (length rest) s'.producer
  pub drain_ok : DrainOk s'.tail (length rest) s'.drain

module _ {n : ℕ} (s : State) where
  some_left : (q : List Record) → InUse n s q → (s.tail == s.head) ≡ false → 0 < length q
  some_left [] v e = absurd (ground (arith, v.head_at, v.tail_range))
  some_left (x ∷ q) v e = omega arith

  consume_got_tail :
      (q : List Record)
      → InUse n s q
      → ProducerOk n s.ring s.head (length q) s.producer
      → Consumed n s q (got_tail s.tail) (drain_step (got_tail s.tail) s)
  unfolding drain_step
  consume_got_tail q v ok = elim (Bool-cases (s.tail == s.head)) [
    | inl same ↦
        rw same (record { rest = q; in_use = v; entries = refl; producer_ok = ok; drain_ok = tt })
    | inr other ↦ rw other (record {
      rest = q;
      in_use = v;
      entries = refl;
      producer_ok = ok;
      drain_ok = (refl, some_left q v other);
    })
  ]

  consume_saw_empty :
      (q : List Record)
      → InUse n s q
      → ProducerOk n s.ring s.head (length q) s.producer
      → Consumed n s q saw_empty (drain_step saw_empty s)
  unfolding drain_step
  consume_saw_empty q v ok = elim (Bool-cases s.running) [
    | inl on ↦
        rw on (record { rest = q; in_use = v; entries = refl; producer_ok = ok; drain_ok = tt })
    | inr off ↦
        rw off (record { rest = q; in_use = v; entries = refl; producer_ok = ok; drain_ok = tt })
  ]

  consume_logging :
      (q : List Record)
      → 0 < length q
      → InUse n s q
      → ProducerOk n s.ring s.head (length q) s.producer
      → Consumed n s q (logging s.tail) (drain_step (logging s.tail) s)
  unfolding drain_step
  consume_logging [] h v ok = absurd (omega arith)
  consume_logging (x ∷ q) h v ok =
      rw (cell, drain_step)
        (record {
          rest = x ∷ q;
          in_use = v;
          entries = append_assoc s.sink (entry_of x ∷ []) (map entry_of q);
          producer_ok = ok;
          drain_ok = (refl, omega arith);
        })
    where
      cell : get_elem? s.ring (bit_and s.tail s.mask) ≡ some x
      cell =
          ap (get_elem? s.ring) (ap (bit_and s.tail) v.mask_is ∙ mask_lem v.size s.tail) ∙ v.cells.0

  consume_freeing :
      (q : List Record)
      → 0 < length q
      → InUse n s q
      → ProducerOk n s.ring s.head (length q) s.producer
      → Consumed n s q (freeing s.tail) (drain_step (freeing s.tail) s)
  unfolding drain_step
  consume_freeing [] h v ok = absurd (omega arith)
  consume_freeing (x ∷ q) h v ok = record {
    rest = q;
    in_use = record {
      size = v.size;
      capacity_is = v.capacity_is;
      mask_is = v.mask_is;
      array = v.array;
      slots = v.slots;
      tail_range = omega arith;
      head_at = v.head_at ∙ omega arith;
      room = omega (arith, v.room);
      cells = Holds-step v.size s.ring q s.tail x v.cells;
    };
    entries = refl;
    producer_ok =
        ProducerOk-mono n s.ring s.head (length (x ∷ q)) (length q) s.producer (omega arith) ok;
    drain_ok = tt;
  }

  -- Any access of the drain thread, from a state that its locals fit.
  pub consume_any :
      (d : Drain) (q : List Record)
      → InUse n s q
      → ProducerOk n s.ring s.head (length q) s.producer
      → DrainOk s.tail (length q) d
      → s.drain ≡ d
      → Consumed n s q d (drain_step d s)
  consume_any top q v ok fits e =
      unfold drain_step in
      record { rest = q; in_use = v; entries = refl; producer_ok = ok; drain_ok = refl }
  consume_any (got_tail t) q v ok fits e = rw fits (consume_got_tail q v ok)
  consume_any saw_empty q v ok fits e = consume_saw_empty q v ok
  consume_any (logging t) q v ok fits e = rw fits.0 (consume_logging q fits.1 v ok)
  consume_any (freeing t) q v ok fits e = rw fits.0 (consume_freeing q fits.1 v ok)
  consume_any closing q v ok fits e =
      unfold drain_step in
      record { rest = q; in_use = v; entries = refl; producer_ok = ok; drain_ok = tt }
  consume_any ended q v ok fits e =
      unfold drain_step in
      record {
        rest = q;
        in_use = v;
        entries = ap (λ d. s.sink ++ map entry_of (unread d q)) e;
        producer_ok = ok;
        drain_ok = subst (λ d. DrainOk s.tail (length q) d) (sym e) tt;
      }
