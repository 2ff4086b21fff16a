-- ===== src/IpcBuffer/Tests.antt =====
-- The theorems on the IPC buffer at small inputs.
use lock_free_queues.Prelude.{◌+◌, List, ◌++◌, ◌≡◌, [], ◌∷◌, arith}
use lock_free_queues.SpscBuffer.Contents.{IsValid}
use lock_free_queues.SpscBuffer.Write.{Writes}
use lock_free_queues.SpscBuffer.Read.{Reads}
use lock_free_queues.IpcBuffer.{IpcSpscBuffer, init, read, try_write}
use lock_free_queues.Trace.{carried, Trace}
use lock_free_queues.SpscBuffer.Threads.{Turn, producer, consumer}
use lock_free_queues.SpscBuffer.Threads.Spec.{Does, bytes_in, bytes_out}
use lock_free_queues.SpscBuffer.Threads.Linear
use lock_free_queues.IpcBuffer.Threads.{run, start}
use lock_free_queues.IpcBuffer.Threads.Linear.{view_system, run_ipc-Trace}
use lock_free_queues.IpcBuffer.Same.{view, view_read, view_write, ipc_refines}

-- Three bytes held, one of them behind the end.
abbrev shared : IpcSpscBuffer
shared = record { buffer = λ i. 5; reader = 8388606; writer = 1 }

shared-IsValid : IsValid (view shared)
shared-IsValid = omega arith

ipc_refines_example :
    Writes (view shared) (1 ∷ []) (view_write (try_write shared (1 ∷ [])))
    × Reads (view shared) (0 ∷ 0 ∷ []) (view_read (read shared (0 ∷ 0 ∷ [])))
ipc_refines_example = ipc_refines shared (1 ∷ []) (0 ∷ 0 ∷ []) shared-IsValid

-- Writes of two bytes and reads into spans of three, over memory that holds fives.
abbrev turns : List Turn
turns =
    producer ∷ producer ∷ consumer ∷ producer ∷ producer ∷ producer ∷ consumer ∷ consumer ∷ producer
    ∷ consumer ∷ consumer ∷ consumer ∷ []

run_ipc-Trace_example :
    let (s, es) = run (λ _. 2) (λ _. 3) (λ i. i + 7) turns (start (init (λ _. 5))) in
    Trace Does [] es (Linear.contents (λ _. 2) (λ _. 3) (λ i. i + 7) (view_system s))
    × (carried bytes_in es
        ≡ carried bytes_out es ++ Linear.contents (λ _. 2) (λ _. 3) (λ i. i + 7) (view_system s))
run_ipc-Trace_example = run_ipc-Trace (λ _. 2) (λ _. 3) (λ i. i + 7) (λ _. 5) turns
