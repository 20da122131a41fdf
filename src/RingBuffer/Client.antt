-- ===== src/RingBuffer/Client.antt =====
-- A client's calls in the order in which the mutex lets them through, whichever threads make
-- them, and what each returns.
use xm_sigma.Common.{ℕ, ◌-◌, ◌≡◌, refl, ap, arith, min}
use xm_sigma.Common.{
  Bool, true, false, Bool-cases, inl, inr, get_elem?_past, get_elem?_held, Option, some, none, ◌==◌,
  leb, if◌then◌else◌,
}
use xm_sigma.Common.{List, [], ◌∷◌, ◌++◌, length, get_elem?, take, drop, length-take}
use xm_sigma.Common.Indices.{IsSize, size_pos}
use xm_sigma.RingBuffer.{RingBuffer, construct, reset, is_empty, is_full, get_occupied_size}
use xm_sigma.RingBuffer.{get_free_size, read_one, write_one, peek_at}
use xm_sigma.RingBuffer.{write_burst, read_burst, peek}
use xm_sigma.RingBuffer.Inv.{IsRing}
use xm_sigma.RingBuffer.Sizes.{
  get_occupied_size-IsRing, get_free_size-IsRing, is_empty-IsRing, is_full-IsRing,
}
use xm_sigma.RingBuffer.Single.{write_one_refines, read_one_refines, peek_at_refines}
use xm_sigma.RingBuffer.Fill.{filled_lem}
use xm_sigma.RingBuffer.Burst.{read_burst_refines, peek_refines}
use xm_sigma.RingBuffer.BurstWrite.{write_burst_refines}
use xm_sigma.RingBuffer.Queue
use xm_sigma.RingBuffer.Queue.{newest}
use mathlib.Core.Option

module _ {ℓ} (T : Type ℓ) where
  pub data Call : Type ℓ where
    write : T → Call
    write_many : List T → ℕ → Call
    read : T → Call
    read_many : List T → ℕ → Call
    peek_many : List T → ℕ → Call
    peek_at_place : T → ℕ → Call
    clear : Call
    occupied free : Call
    empty full : Call

  pub data Reply : Type ℓ where
    count : ℕ → Reply
    element : ℕ → T → Reply
    elements : ℕ → List T → Reply  -- the count, and the caller's vector afterwards
    flag : Bool → Reply
    nothing : Reply

module _ {ℓ} {T : Type ℓ} where
  -- One call on the ring; `none` is undefined behaviour.
  unfoldable pub call : ℕ → RingBuffer T → Call T → Option (Reply T × RingBuffer T)
  call n r (write x) = Option.map (λ (c, r'). (count c, r')) (write_one r x)
  call n r (write_many xs btw) = Option.map (λ (c, r'). (count c, r')) (write_burst r xs btw)
  call n r (read old) = Option.map (λ (c, x, r'). (element c x, r')) (read_one r old)
  call n r (read_many out btr) =
      Option.map (λ (c, out', r'). (elements c out', r')) (read_burst r out btr)
  call n r (peek_many out btp) = Option.map (λ (c, out'). (elements c out', r)) (peek r out btp)
  call n r (peek_at_place old i) = Option.map (λ (c, x). (element c x, r)) (peek_at r old i)
  call n r clear = some (nothing, reset r)
  call n r occupied = some (count (get_occupied_size r), r)
  call n r free = some (count (get_free_size n r), r)
  call n r empty = some (flag (is_empty r), r)
  call n r full = some (flag (is_full r), r)

  -- The same call on a bounded queue of at most `limit` elements.
  unfoldable pub answer : ℕ → Bool → List T → Call T → Reply T × List T
  unfolding Queue.push Queue.pop
  answer limit overwrite q (write x) = let (c, q') = Queue.push limit overwrite q x in (count c, q')
  answer limit true q (write_many xs btw) =
      (count (min btw (length xs)), newest limit (q ++ take btw xs))
  answer limit false q (write_many xs btw) = (
    count (min (min btw (length xs)) (limit - length q)),
    q ++ take (limit - length q) (take btw xs),
  )
  answer limit overwrite q (read old) = let (c, x, q') = Queue.pop q old in (element c x, q')
  answer limit overwrite q (read_many out btr) =
      let m = min (min btr (length out)) (length q) in
      (elements m (take m q ++ drop m out), drop m q)
  answer limit overwrite q (peek_many out btp) =
      let m = min (min btp (length out)) (length q) in (elements m (take m q ++ drop m out), q)
  answer limit overwrite q (peek_at_place old i) =
      (elim (get_elem? q i) [ none ↦ element 0 old | some x ↦ element 1 x ], q)
  answer limit overwrite q clear = (nothing, [])
  answer limit overwrite q occupied = (count (length q), q)
  answer limit overwrite q free = (count (limit - length q), q)
  answer limit overwrite q empty = (flag (length q == 0), q)
  answer limit overwrite q full = (flag (length q == limit), q)

  unfoldable pub run : ℕ → RingBuffer T → List (Call T) → Option (List (Reply T))
  unfolding Option.bind
  run n r [] = some []
  run n r (c ∷ cs) =
      Option.bind (call n r c) λ (reply, r'). Option.map (λ rest. reply ∷ rest) (run n r' cs)

  unfoldable pub answers : ℕ → Bool → List T → List (Call T) → List (Reply T)
  answers limit overwrite q [] = []
  answers limit overwrite q (c ∷ cs) =
      let (reply, q') = answer limit overwrite q c in reply ∷ answers limit overwrite q' cs

  -- A call that returns the queue's reply and leaves the ring holding the queue's new state.
  record Agrees (n : ℕ) (overwrite : Bool) (result : Option (Reply T × RingBuffer T))
      (expected : Reply T × List T) : Type ℓ where
    ring : RingBuffer T
    returns : result ≡ some (expected.0, ring)
    holds : IsRing n overwrite ring expected.1

  peek_reply :
      (q : List T) (i : ℕ) (old : T) (r : RingBuffer T)
      → Option.map {B = Reply T × RingBuffer T}
          (λ (c, x). (element c x, r))
          (if leb (length q) i then some (0, old) else Option.map (λ x. (1, x)) (get_elem? q i))
        ≡ some (elim (get_elem? q i) [ none ↦ element 0 old | some x ↦ element 1 x ], r)
  peek_reply q i old r = elim (Bool-cases (leb (length q) i)) [
    | inl past ↦ rw (past, get_elem?_past q i (ground arith))
    | inr held ↦ let (x, e) = get_elem?_held q i (ground arith) in rw (held, e)
  ]

  reset-IsRing :
      {n : ℕ} {overwrite : Bool} {r : RingBuffer T} {q : List T}
      → IsRing n overwrite r q
      → IsRing n overwrite (reset r) []
  unfolding reset
  reset-IsRing v = record {
    size = v.size;
    policy = v.policy;
    mask = v.mask;
    array = v.array;
    read_range = omega arith;
    write_at = omega arith;
    room = size_pos v.size;
    cells = tt;
  }

  call-Agrees :
      {n : ℕ} {overwrite : Bool} {r : RingBuffer T} (q : List T) (c : Call T)
      → IsRing n overwrite r q
      → Agrees n overwrite (call n r c) (answer (n - 1) overwrite q c)
  unfolding call answer
  call-Agrees q (write x) v =
      let (r', e, v') = write_one_refines q x v in record { ring = r'; returns = rw e; holds = v' }
  call-Agrees {overwrite = true} q (write_many xs btw) v =
      let did = write_burst_refines true q xs btw v in
      record {
        ring = did.ring;
        returns = rw (did.returns, length-take btw xs) refl;
        holds = did.holds;
      }
  call-Agrees {n} {overwrite = false} q (write_many xs btw) v =
      let did = write_burst_refines false q xs btw v in
      record {
        ring = did.ring;
        returns = rw (did.returns, length-take btw xs) refl;
        holds = did.holds;
      }
  call-Agrees {n} {overwrite} q (read_many out btr) v =
      let m = min (min btr (length out)) (length q) in
      let did = read_burst_refines q out btr v in
      record {
        ring = did.ring;
        returns =
            rw (did.returns, filled_lem m q out did.out' (omega arith) (omega arith) did.filled)
              (ap (λ (k : ℕ). some (elements k (take m q ++ drop m out), did.ring)) (omega arith));
        holds = did.rest;
      }
  call-Agrees {r} q (peek_many out btp) v =
      let m = min (min btp (length out)) (length q) in
      let (out', e, filled) = peek_refines q out btp v in
      record {
        ring = r;
        returns = rw (e, filled_lem m q out out' (omega arith) (omega arith) filled) refl;
        holds = v;
      }
  call-Agrees {r} q (read old) v =
      let (r', e, v') = read_one_refines q old v in record { ring = r'; returns = rw e; holds = v' }
  call-Agrees {r} q (peek_at_place old i) v = record {
    ring = r;
    returns = rw (peek_at_refines old i v) (peek_reply q i old r);
    holds = v;
  }
  call-Agrees {r} q clear v = record { ring = reset r; returns = refl; holds = reset-IsRing v }
  call-Agrees {r} q occupied v = record {
    ring = r;
    returns = rw (get_occupied_size-IsRing v);
    holds = v;
  }
  call-Agrees {r} q free v = record {
    ring = r;
    returns = ap (λ k. some (count k, r)) (omega (arith, get_free_size-IsRing v));
    holds = v;
  }
  call-Agrees {r} q empty v = record { ring = r; returns = rw (is_empty-IsRing v); holds = v }
  call-Agrees {r} q full v = record { ring = r; returns = rw (is_full-IsRing v); holds = v }

  -- A fresh ring of `n` cells, `n` a power of two, holds the empty queue.
  pub construct-IsRing :
      {n : ℕ} (storage : List T) (overwrite : Bool)
      → IsSize n
      → length storage ≡ n
      → IsRing n overwrite (construct n storage overwrite) []
  unfolding construct
  construct-IsRing storage overwrite size e = record {
    size = size;
    policy = refl;
    mask = refl;
    array = e;
    read_range = omega arith;
    write_at = omega arith;
    room = size_pos size;
    cells = tt;
  }

  run_agrees :
      {n : ℕ} {overwrite : Bool} (cs : List (Call T)) (r : RingBuffer T) (q : List T)
      → IsRing n overwrite r q
      → run n r cs ≡ some (answers (n - 1) overwrite q cs)
  unfolding run answers
  run_agrees [] r q v = refl
  run_agrees {n} {overwrite} (c ∷ cs) r q v =
      let agreed = call-Agrees q c v in
      rw (agreed.returns, run_agrees cs agreed.ring (answer (n - 1) overwrite q c).1 agreed.holds)

  -- No sequence of calls of the methods but `GetBuffer`, from whatever threads, tells a ring of `n` cells from the bounded queue
  -- of `n - 1` elements with the same policy on overwriting; no call accesses the array out of
  -- range.
  pub run_refines :
      (n : ℕ) (storage : List T) (overwrite : Bool) (cs : List (Call T))
      → IsSize n
      → length storage ≡ n
      → run n (construct n storage overwrite) cs ≡ some (answers (n - 1) overwrite [] cs)
  run_refines n storage overwrite cs size e =
      run_agrees cs (construct n storage overwrite) [] (construct-IsRing storage overwrite size e)
