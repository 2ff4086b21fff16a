-- ===== src/IpcBuffer.antt =====
-- `IPCSPSCBuffer` of include/spsc_buffer_ipc.hpp and src/spsc_buffer_ipc.cpp: the byte ring with its
-- storage inside the object, for shared memory. Each call is run as a whole here.
pub mod Same
pub mod Threads
mod Tests
use lock_free_queues.Prelude.{
  ℕ, ◌-◌, ◌*◌, Option, some, List, Bool, true, false, ltb, leb, ◌==◌, if◌then◌else◌, ◌>>=◌, min,
  length, take, drop,
}
use lock_free_queues.Prelude.Words.{add64, sub64}
use lock_free_queues.Memory.Copy.{copy_in, copy_out, copy_to}

abbrev pub buffer_size : ℕ
buffer_size = 8 * 1024 * 1024

pub record IpcSpscBuffer : Type 0 where
  pub buffer : ℕ → ℕ
  pub reader : ℕ
  pub writer : ℕ

-- The constructor run on memory that holds `bytes`: the storage is left as it is.
unfoldable pub init : (ℕ → ℕ) → IpcSpscBuffer
init bytes = record { buffer = bytes; reader = 0; writer = 0 }

unfoldable pub available : ℕ → ℕ → ℕ
available writer reader =
    if ltb writer reader then add64 (sub64 buffer_size reader) writer else sub64 writer reader

-- The count returned, the destination span afterwards, and the buffer. `none` is an access out of
-- an array.
unfoldable pub read : IpcSpscBuffer → List ℕ → Option (ℕ × List ℕ × IpcSpscBuffer)
read s dst =
    let avail = available s.writer s.reader in
    let n = min avail (length dst) in
    let space_to_end = sub64 buffer_size s.reader in
    let new_reader = add64 s.reader n in
    let second_len = sub64 n space_to_end in
    if avail == 0
    then some (0, dst, s)
    else if leb n space_to_end
    then (do
      bytes ← copy_out buffer_size s.buffer s.reader n
      dst' ← copy_to dst 0 bytes
      some (n, dst', record s { reader = if new_reader == buffer_size then 0 else new_reader }))
    else do
      first ← copy_out buffer_size s.buffer s.reader space_to_end
      dst₁ ← copy_to dst 0 first
      second ← copy_out buffer_size s.buffer 0 second_len
      dst₂ ← copy_to dst₁ space_to_end second
      some (n, dst₂, record s { reader = second_len })

unfoldable pub try_write : IpcSpscBuffer → List ℕ → Option (Bool × IpcSpscBuffer)
try_write s bytes =
    let free_space = sub64 (buffer_size - 1) (available s.writer s.reader) in
    let size = length bytes in
    let first_part = sub64 buffer_size s.writer in
    let new_writer = sub64 size first_part in
    if ltb free_space size
    then some (false, s)
    else if ltb (add64 s.writer size) buffer_size
    then (do
      mem ← copy_in buffer_size s.buffer s.writer bytes
      some (true, record s { buffer = mem; writer = add64 s.writer size }))
    else do
      mem₁ ← copy_in buffer_size s.buffer s.writer (take first_part bytes)
      mem₂ ← copy_in buffer_size mem₁ 0 (drop first_part bytes)
      some (true, record s { buffer = mem₂; writer = new_writer })
