-- ===== src/IpcBuffer/Same.antt =====
-- The logic of the IPC buffer is that of `SPSCBuffer`.
use lock_free_queues.Prelude.{ℕ, ◌≡◌, refl, sym, subst, Option, none, some, List, Bool, arith}
use lock_free_queues.SpscBuffer
use lock_free_queues.SpscBuffer.{SpscBuffer}
use lock_free_queues.SpscBuffer.Contents.{IsValid}
use lock_free_queues.SpscBuffer.Write.{Writes, try_write_refines}
use lock_free_queues.SpscBuffer.Read.{Reads, read_refines}
use lock_free_queues.IpcBuffer.{IpcSpscBuffer, available, read, try_write}

-- The same buffer, seen as an `SPSCBuffer`.
abbrev pub view : IpcSpscBuffer → SpscBuffer
view s = record { buffer = s.buffer; reader = s.reader; writer = s.writer }

available-eq : (w r : ℕ) → available w r ≡ SpscBuffer.available w r
unfolding available SpscBuffer.available
available-eq w r = refl

abbrev pub view_write : Option (Bool × IpcSpscBuffer) → Option (Bool × SpscBuffer)
view_write r = elim r [ none ↦ none | some (b, s) ↦ some (b, view s) ]

abbrev pub view_read : Option (ℕ × List ℕ × IpcSpscBuffer) → Option (ℕ × List ℕ × SpscBuffer)
view_read r = elim r [ none ↦ none | some (n, dst, s) ↦ some (n, dst, view s) ]

try_write-eq :
    (s : IpcSpscBuffer) (bytes : List ℕ)
    → view_write (try_write s bytes) ≡ SpscBuffer.try_write (view s) bytes
unfolding try_write SpscBuffer.try_write
try_write-eq s bytes = ground (arith, available-eq s.writer s.reader)

read-eq : (s : IpcSpscBuffer) (dst : List ℕ) → view_read (read s dst) ≡ SpscBuffer.read (view s) dst
unfolding read SpscBuffer.read
read-eq s dst = ground (arith, available-eq s.writer s.reader)

-- On a well-formed IPC buffer both calls do what the byte queue does, as those of `SPSCBuffer` do,
-- with the same results and the same state.
pub ipc_refines :
    (s : IpcSpscBuffer) (bytes dst : List ℕ)
    → IsValid (view s)
    → Writes (view s) bytes (view_write (try_write s bytes))
      × Reads (view s) dst (view_read (read s dst))
ipc_refines s bytes dst v = (
  subst (Writes (view s) bytes) (sym (try_write-eq s bytes)) (try_write_refines bytes v),
  subst (Reads (view s) dst) (sym (read-eq s dst)) (read_refines dst v),
)
