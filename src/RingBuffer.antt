-- ===== src/RingBuffer.antt =====
-- container/ring_buffer.hpp: `RingBuffer<T, N>`, one function for each method.
-- Every method holds `buffer_mutex_` from its first statement to its return, so a call is one
-- step on the state, and threads interleave as whole calls. `none` is an access out of range,
-- which C++ leaves undefined. A method that writes through `data` returns the new `data`.
pub mod Inv
pub mod Sizes
pub mod Queue
pub mod Single
pub mod Fill
pub mod Burst
pub mod BurstWrite
pub mod Client
mod Tests
use xm_sigma.Common.{ℕ, zero, suc, ◌+◌, ◌-◌, min, Bool, true, false, Option, none, some}
use xm_sigma.Common.{List, [], ◌∷◌, length, get_elem?, set, leb, ltb, ◌==◌, if◌then◌else◌}
use xm_sigma.Common.{u64, sub64, bit_and}
use mathlib.Core.Option

pub record RingBuffer {ℓ} (T : Type ℓ) : Type ℓ where
  pub buffer : List T
  pub size_mask : ℕ
  pub write_index : ℕ
  pub read_index : ℕ
  pub enable_overwrite : Bool

module _ {ℓ} {T : Type ℓ} where
  -- The constructor of `RingBuffer<T, n>`; `storage` is what the array holds before any write.
  unfoldable pub construct : ℕ → List T → Bool → RingBuffer T
  construct n storage overwrite = record {
    buffer = storage;
    size_mask = n - 1;
    write_index = 0;
    read_index = 0;
    enable_overwrite = overwrite;
  }

  unfoldable pub reset : RingBuffer T → RingBuffer T
  reset r = record r { write_index = 0; read_index = 0 }

  unfoldable pub is_empty : RingBuffer T → Bool
  is_empty r = r.read_index == r.write_index

  unfoldable pub is_full : RingBuffer T → Bool
  is_full r = bit_and (u64 (r.write_index + 1)) r.size_mask == bit_and r.read_index r.size_mask

  unfoldable pub get_occupied_size : RingBuffer T → ℕ
  get_occupied_size r = bit_and (sub64 r.write_index r.read_index) r.size_mask

  -- `n` is the template argument `N`.
  unfoldable pub get_free_size : ℕ → RingBuffer T → ℕ
  get_free_size n r = sub64 (n - 1) (bit_and (sub64 r.write_index r.read_index) r.size_mask)

  unfoldable pub get_buffer : RingBuffer T → List T
  get_buffer r = r.buffer

  -- `++read_index_` of the overwrite path
  abbrev pub skip_oldest : RingBuffer T → RingBuffer T
  skip_oldest r = record r { read_index = u64 (r.read_index + 1) }

  abbrev pub stored : RingBuffer T → T → RingBuffer T
  stored r x = record r {
    buffer = set r.buffer (bit_and r.write_index r.size_mask) x;
    write_index = u64 (r.write_index + 1);
  }

  -- `buffer_[(write_index_++) & size_mask_] = x`
  unfoldable pub store : RingBuffer T → T → Option (RingBuffer T)
  store r x =
      if ltb (bit_and r.write_index r.size_mask) (length r.buffer) then some (stored r x) else none

  -- `Read(T& data)`
  unfoldable pub read_one : RingBuffer T → T → Option (ℕ × T × RingBuffer T)
  read_one r old =
      if r.read_index == r.write_index
      then some (0, old, r)
      else Option.map (λ x. (1, x, record r { read_index = u64 (r.read_index + 1) }))
          (get_elem? r.buffer (bit_and r.read_index r.size_mask))

  -- `Write(const T& new_data)`
  unfoldable pub write_one : RingBuffer T → T → Option (ℕ × RingBuffer T)
  unfolding store
  write_one r x =
      if is_full r
      then (if r.enable_overwrite
          then Option.map (λ r'. (1, r')) (store (skip_oldest r) x)
          else some (0, r))
      else Option.map (λ r'. (1, r')) (store r x)

  -- `PeekAt(T& data, n)`
  unfoldable pub peek_at : RingBuffer T → T → ℕ → Option (ℕ × T)
  peek_at r old n =
      if leb (get_occupied_size r) n
      then some (0, old)
      else Option.map (λ x. (1, x))
          (get_elem? r.buffer (bit_and (u64 (r.read_index + n)) r.size_mask))

  -- The loop of `Read(std::vector<T>& data, btr)` at `i`, with `left` rounds to go.
  unfoldable pub read_loop : ℕ → ℕ → List T → RingBuffer T → Option (ℕ × List T × RingBuffer T)
  read_loop zero i out r = some (i, out, r)
  read_loop (suc left) i out r = elim (r.read_index == r.write_index) [
    | true ↦ some (i, out, r)
    | false ↦ elim (get_elem? r.buffer (bit_and r.read_index r.size_mask)) [
      | none ↦ none
      | some x ↦
          read_loop left (i + 1) (set out i x) (record r { read_index = u64 (r.read_index + 1) })
    ]
  ]

  unfoldable pub read_burst : RingBuffer T → List T → ℕ → Option (ℕ × List T × RingBuffer T)
  unfolding read_loop
  read_burst r out btr = read_loop (if ltb (length out) btr then length out else btr) 0 out r

  -- The loop of `Peek` at `i`, with `left` rounds to go.
  unfoldable pub peek_loop : ℕ → ℕ → List T → RingBuffer T → Option (List T)
  peek_loop zero i out r = some out
  peek_loop (suc left) i out r =
      elim (get_elem? r.buffer (bit_and (u64 (r.read_index + i)) r.size_mask)) [
        | none ↦ none
        | some x ↦ peek_loop left (i + 1) (set out i x) r
      ]

  unfoldable pub peek : RingBuffer T → List T → ℕ → Option (ℕ × List T)
  unfolding peek_loop
  peek r out btp =
      let n = min (min btp (length out)) (get_occupied_size r) in
      Option.map (λ out'. (n, out')) (peek_loop n 0 out r)

  -- The loop of `Write(const std::vector<T>& new_data, btw)` at `i`, with `left` rounds to go.
  unfoldable pub write_loop : ℕ → ℕ → List T → RingBuffer T → Option (ℕ × RingBuffer T)
  unfolding store
  write_loop zero i new_data r = some (i, r)
  write_loop (suc left) i new_data r = elim (is_full r) [
    | true ↦ elim r.enable_overwrite [
      | true ↦ elim (get_elem? new_data i) [
        | none ↦ none
        | some x ↦ elim (store (skip_oldest r) x) [
          | none ↦ none
          | some r' ↦ write_loop left (suc i) new_data r'
        ]
      ]
      | false ↦ some (i, r)
    ]
    | false ↦ elim (get_elem? new_data i) [
      | none ↦ none
      | some x ↦ elim (store r x) [ none ↦ none | some r' ↦ write_loop left (suc i) new_data r' ]
    ]
  ]

  unfoldable pub write_burst : RingBuffer T → List T → ℕ → Option (ℕ × RingBuffer T)
  unfolding write_loop
  write_burst r new_data btw =
      write_loop (if ltb (length new_data) btw then length new_data else btw) 0 new_data r
