-- ===== src/SpscBuffer/Tests.antt =====
-- Runs of the byte ring, and the theorems at them.
use lock_free_queues.Prelude.{ℕ, ◌≡◌, refl, List, [], ◌∷◌, Option, none, some, true, arith}
use lock_free_queues.Memory.Copy.{copy_in, copy_out, copy_to}
use lock_free_queues.SpscBuffer.{SpscBuffer, available, read, try_write}
use lock_free_queues.SpscBuffer.Contents.{IsValid, contents}
use lock_free_queues.SpscBuffer.Write.{Writes, try_write_refines}
use lock_free_queues.SpscBuffer.Read.{Reads, read_refines}
use lock_free_queues.SpscBuffer.RoundTrip.{write_then_read}
use lock_free_queues.SpscBuffer.Stream.{writes, reads, run, Balanced, run_bytes-Balanced}

-- Empty, two bytes before the end of the array.
abbrev near_end : SpscBuffer
near_end = record { buffer = λ i. 0; reader = 8388606; writer = 8388606 }

near_end-IsValid : IsValid near_end
near_end-IsValid = omega arith

abbrev log : Option (List ℕ × List ℕ × SpscBuffer) → List ℕ × List ℕ
log none = ([], [])
log (some (a, d, s)) = (a, d)

-- Three bytes go round the end, and come out in two reads.
run_round :
    log (run (writes (1 ∷ 2 ∷ 3 ∷ []) ∷ reads (0 ∷ []) ∷ reads (0 ∷ 0 ∷ 0 ∷ []) ∷ []) near_end)
    ≡ (1 ∷ 2 ∷ 3 ∷ [], 1 ∷ 2 ∷ 3 ∷ [])
unfolding run read try_write available copy_in copy_out copy_to
run_round = refl

try_write_refines_example : Writes near_end (1 ∷ 2 ∷ 3 ∷ []) (try_write near_end (1 ∷ 2 ∷ 3 ∷ []))
try_write_refines_example = try_write_refines (1 ∷ 2 ∷ 3 ∷ []) near_end-IsValid

-- Three bytes held, one of them behind the end.
abbrev round_end : SpscBuffer
round_end = record { buffer = λ i. 5; reader = 8388606; writer = 1 }

round_end-IsValid : IsValid round_end
round_end-IsValid = omega arith

read_refines_example : Reads round_end (0 ∷ 0 ∷ 0 ∷ 9 ∷ []) (read round_end (0 ∷ 0 ∷ 0 ∷ 9 ∷ []))
read_refines_example = read_refines (0 ∷ 0 ∷ 0 ∷ 9 ∷ []) round_end-IsValid

run_bytes-Balanced_example :
    Balanced near_end (run (writes (1 ∷ 2 ∷ 3 ∷ []) ∷ reads (0 ∷ []) ∷ []) near_end)
run_bytes-Balanced_example =
    run_bytes-Balanced (writes (1 ∷ 2 ∷ 3 ∷ []) ∷ reads (0 ∷ []) ∷ []) near_end-IsValid

-- Three bytes are written round the end, and read into a span of four.
write_then_read_example :
    (s' s'' : SpscBuffer) × (try_write near_end (1 ∷ 2 ∷ 3 ∷ []) ≡ some (true, s'))
    × (read s' (9 ∷ 9 ∷ 9 ∷ 9 ∷ []) ≡ some (3, 1 ∷ 2 ∷ 3 ∷ 9 ∷ [], s''))
    × IsValid s''
    × (contents s'' ≡ [])
unfolding available
write_then_read_example =
    write_then_read (1 ∷ 2 ∷ 3 ∷ []) (9 ∷ 9 ∷ 9 ∷ 9 ∷ []) near_end-IsValid (omega arith)
      (omega arith)
