-- ===== src/SpscBuffer/Threads/Tests.antt =====
-- Two threads over a byte buffer at small schedules, and the theorems there.
use lock_free_queues.Prelude.{ℕ, ◌+◌, ◌-◌, ◌<◌, ◌≡◌, ◌≢◌, refl, List, [], ◌∷◌, ◌++◌, arith}
use lock_free_queues.Trace.{carried, Trace}
use lock_free_queues.Memory.Copy.{read_cells}
use lock_free_queues.SpscBuffer
use lock_free_queues.SpscBuffer.{SpscBuffer, buffer_size, init, available, try_write}
use lock_free_queues.SpscBuffer.Contents.{IsValid}
use lock_free_queues.SpscBuffer.Write.{Writes}
use lock_free_queues.SpscBuffer.Read.{Reads}
use lock_free_queues.SpscBuffer.Threads.AloneWrite
use lock_free_queues.SpscBuffer.Threads.AloneWrite.{write_alone, try_write_alone}
use lock_free_queues.SpscBuffer.Threads.AloneRead
use lock_free_queues.SpscBuffer.Threads.AloneRead.{read_alone, read_alone_lem}
use lock_free_queues.SpscBuffer.Threads.{
  ready, waiting, silent, wrote, read, missed, Turn, producer, consumer, write_at, read_at,
  new_writer, write_step, read_step, run, start,
}
use lock_free_queues.SpscBuffer.Threads.Spec.{Does, bytes_in, bytes_out}
use lock_free_queues.SpscBuffer.Threads.Linear.{contents, run_bytes-Trace, bytes_apart}

-- Writes of two bytes and reads into spans of three; byte `n` is n + 7.
abbrev two : ℕ → ℕ
two n = 2

abbrev three : ℕ → ℕ
three n = 3

abbrev stream : ℕ → ℕ
stream n = n + 7

-- The consumer finds the buffer empty, a write goes in, and both threads go on at once.
abbrev schedule : List Turn
schedule =
    consumer ∷ consumer ∷ producer ∷ producer ∷ producer ∷ producer ∷ producer ∷ producer ∷ consumer
    ∷ producer ∷ consumer ∷ consumer ∷ producer ∷ []

abbrev both_done : List Turn
both_done = schedule ++ (consumer ∷ consumer ∷ [])

both_done_runs :
    (run two three stream both_done (start init)).1
    ≡ silent
      ∷ missed
      ∷ silent
      ∷ silent
      ∷ silent
      ∷ silent
      ∷ wrote (7 ∷ 8 ∷ [])
      ∷ silent
      ∷ silent
      ∷ silent
      ∷ silent
      ∷ silent
      ∷ silent
      ∷ silent
      ∷ read 3 (7 ∷ 8 ∷ [])
      ∷ []
unfolding run start init write_step read_step read_cells available write_at read_at new_writer
both_done_runs = refl

run_bytes-Trace_example :
    let (s, es) = run two three stream both_done (start init) in
    Trace Does [] es (contents two three stream s)
    × (carried bytes_in es ≡ carried bytes_out es ++ contents two three stream s)
run_bytes-Trace_example = run_bytes-Trace two three stream both_done

bytes_apart_example :
    (write_at 2 2 1 < buffer_size)
    × (read_at 0 2 1 < buffer_size)
    × (write_at 2 2 1 ≢ read_at 0 2 1)
unfolding run start init write_step read_step available write_at read_at new_writer
bytes_apart_example =
    bytes_apart two three stream schedule 2 2 1 0 3 2 (7 ∷ []) refl refl (omega arith) (omega arith)

-- Empty, and at the last cell of the array.
abbrev at_the_end : SpscBuffer
at_the_end = record { buffer = λ i. i + 40; reader = buffer_size - 1; writer = buffer_size - 1 }

at_the_end-IsValid : IsValid at_the_end
at_the_end-IsValid = record { reader_in = omega arith; writer_in = omega arith }

-- Two bytes held, one at each end of the array.
abbrev two_held : SpscBuffer
two_held = record { buffer = λ i. i + 40; reader = buffer_size - 1; writer = 1 }

two_held-IsValid : IsValid two_held
two_held-IsValid = record { reader_in = omega arith; writer_in = omega arith }

try_write_alone_example :
    (AloneWrite.outcome 3 stream (write_alone 3 stream (3 + 3) at_the_end ready)
      ≡ try_write at_the_end (read_cells stream 0 3))
    × Writes at_the_end
        (read_cells stream 0 3)
        (AloneWrite.outcome 3 stream (write_alone 3 stream (3 + 3) at_the_end ready))
try_write_alone_example = try_write_alone 3 stream at_the_end-IsValid

read_alone_lem_example :
    (AloneRead.outcome (1 ∷ 2 ∷ 3 ∷ []) (read_alone 3 (3 + 3) two_held waiting)
      ≡ SpscBuffer.read two_held (1 ∷ 2 ∷ 3 ∷ []))
    × Reads two_held
        (1 ∷ 2 ∷ 3 ∷ [])
        (AloneRead.outcome (1 ∷ 2 ∷ 3 ∷ []) (read_alone 3 (3 + 3) two_held waiting))
read_alone_lem_example = read_alone_lem (1 ∷ 2 ∷ 3 ∷ []) two_held-IsValid
