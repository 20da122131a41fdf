-- ===== src/RingBuffer/Tests.antt =====
-- Runs of the ring at concrete inputs, and an instance of each theorem.
use xm_sigma.Common.{ℕ, ◌≡◌, refl, arith, Bool, true, false, some}
use xm_sigma.Common.{List, [], ◌∷◌}
use xm_sigma.Common.Indices.{IsSize}
use xm_sigma.RingBuffer.{RingBuffer, construct, write_one, read_one, write_burst, read_burst, peek}
use xm_sigma.RingBuffer.{is_full, get_free_size, get_occupied_size}
use xm_sigma.RingBuffer.Inv.{IsRing}
use xm_sigma.RingBuffer.Fill.{Filled}
use xm_sigma.RingBuffer.Burst.{DidRead, read_burst_refines, peek_refines}
use xm_sigma.RingBuffer.BurstWrite.{DidWrite, write_burst_refines}
use xm_sigma.RingBuffer.Client.{
  Call, write, read, write_many, read_many, peek_many, occupied, free, full, count, element,
  elements, flag, run, call, answers, run_refines,
}

four : IsSize 4
four = record { k = 2; small = omega arith; pow = refl }

abbrev storage : List ℕ
storage = 0 ∷ 0 ∷ 0 ∷ 0 ∷ []

-- 7, then 8, in cells 3 and 0; the write index has just wrapped around at 2^64.
abbrev wrapped : Bool → RingBuffer ℕ
wrapped overwrite = record {
  buffer = 8 ∷ 0 ∷ 0 ∷ 7 ∷ [];
  size_mask = 3;
  write_index = 1;
  read_index = 0xffff_ffff_ffff_ffff;
  enable_overwrite = overwrite;
}

wrapped-IsRing : (overwrite : Bool) → IsRing 4 overwrite (wrapped overwrite) (7 ∷ 8 ∷ [])
wrapped-IsRing overwrite = record {
  size = four;
  policy = refl;
  mask = refl;
  array = refl;
  read_range = omega arith;
  write_at = refl;
  room = omega arith;
  cells = (refl, (refl, tt));
}

abbrev script : List (Call ℕ)
script =
    write 5
    ∷ write_many (6 ∷ 7 ∷ 8 ∷ 9 ∷ []) 4
    ∷ full
    ∷ read 0
    ∷ free
    ∷ peek_many (1 ∷ 2 ∷ 3 ∷ []) 3
    ∷ read_many (1 ∷ 2 ∷ 3 ∷ []) 1
    ∷ occupied
    ∷ []

script_overwrites :
    run 4 (construct 4 storage true) script
    ≡ some (
        count 1
        ∷ count 4
        ∷ flag true
        ∷ element 1 7
        ∷ count 1
        ∷ elements 2 (8 ∷ 9 ∷ 3 ∷ [])
        ∷ elements 1 (8 ∷ 2 ∷ 3 ∷ [])
        ∷ count 1
        ∷ [])
unfolding run call construct write_one write_burst is_full read_one get_free_size read_burst peek
    get_occupied_size
script_overwrites = refl

run_refines_example : run 4 (construct 4 storage true) script ≡ some (answers 3 true [] script)
run_refines_example = run_refines 4 storage true script four refl

read_burst_refines_example :
    DidRead 4 true (7 ∷ 8 ∷ []) 0 1 (1 ∷ []) (read_burst (wrapped true) (1 ∷ []) 9)
read_burst_refines_example = read_burst_refines (7 ∷ 8 ∷ []) (1 ∷ []) 9 (wrapped-IsRing true)

peek_refines_example :
    (out' : List ℕ) × (peek (wrapped true) (1 ∷ 2 ∷ 3 ∷ []) 3 ≡ some (2, out'))
    × Filled (7 ∷ 8 ∷ []) 0 2 (1 ∷ 2 ∷ 3 ∷ []) out'
peek_refines_example = peek_refines (7 ∷ 8 ∷ []) (1 ∷ 2 ∷ 3 ∷ []) 3 (wrapped-IsRing true)

write_burst_refines_example :
    DidWrite 4 false 1 (7 ∷ 8 ∷ 4 ∷ []) (write_burst (wrapped false) (4 ∷ 5 ∷ 6 ∷ []) 9)
write_burst_refines_example =
    write_burst_refines false (7 ∷ 8 ∷ []) (4 ∷ 5 ∷ 6 ∷ []) 9 (wrapped-IsRing false)
