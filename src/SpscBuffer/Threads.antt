-- ===== src/SpscBuffer/Threads.antt =====
-- `try_write` and `read` of src/spsc_buffer.cpp in two threads, one shared access at a time: each
-- std::memcpy goes byte by byte.
pub mod Spec
pub mod Address
pub mod Invariant
pub mod Write
pub mod Read
pub mod Linear
pub mod Fill
pub mod AloneWrite
pub mod AloneRead
mod Tests
use lock_free_queues.Prelude.{
  ℕ, zero, suc, ◌+◌, ◌-◌, List, [], ◌∷◌, ◌++◌, true, false, ltb, leb, ◌==◌, if◌then◌else◌, update,
  length, min,
}
use lock_free_queues.Prelude.Words.{add64, sub64}
use lock_free_queues.Memory.Copy.{read_cells}
use lock_free_queues.SpscBuffer.{SpscBuffer, buffer_size, available}

-- Where the producer stands in `try_write` of `size` bytes, `k` of them stored.
pub data WritePc : Type 0 where
  ready : WritePc
  loaded : (w size : ℕ) → WritePc
  storing : (w size k : ℕ) → WritePc

-- Where the consumer stands in `read` into a span of `room` bytes; it copies `n`, and `bytes` are
-- those copied so far.
pub data ReadPc : Type 0 where
  waiting : ReadPc
  seen : (r room : ℕ) → ReadPc
  copying : (r room n : ℕ) (bytes : List ℕ) → ReadPc

-- What a step shows to the callers: nothing, or how a call returned.
pub data Event : Type 0 where
  silent : Event
  wrote : (bytes : List ℕ) → Event
  refused : (size : ℕ) → Event
  read : (room : ℕ) (bytes : List ℕ) → Event
  missed : Event

-- The address of byte `k` of a write of `size` bytes, and the value of `newWriter`.
unfoldable pub write_at : ℕ → ℕ → ℕ → ℕ
write_at w size k =
    let first_part = sub64 buffer_size w in
    if ltb (add64 w size) buffer_size
    then w + k
    else if ltb k first_part
    then w + k
    else k - first_part

unfoldable pub new_writer : ℕ → ℕ → ℕ
new_writer w size =
    if ltb (add64 w size) buffer_size then add64 w size else sub64 size (sub64 buffer_size w)

-- The address of byte `k` of a read of `n` bytes, and the value that goes to `reader_`.
unfoldable pub read_at : ℕ → ℕ → ℕ → ℕ
read_at r n k =
    let space_to_end = sub64 buffer_size r in
    if leb n space_to_end then r + k else if ltb k space_to_end then r + k else k - space_to_end

unfoldable pub new_reader : ℕ → ℕ → ℕ
new_reader r n =
    let space_to_end = sub64 buffer_size r in
    if leb n space_to_end
    then (if add64 r n == buffer_size then 0 else add64 r n)
    else sub64 n space_to_end

-- `try_write` of `size` bytes, where byte `k` is `val k`.
unfoldable pub write_step : ℕ → (ℕ → ℕ) → SpscBuffer → WritePc → SpscBuffer × WritePc × Event
write_step size val m ready = (m, loaded m.writer size, silent)
write_step size val m (loaded w size') =
    let free_space = sub64 (buffer_size - 1) (available w m.reader) in
    if ltb free_space size' then (m, ready, refused size') else (m, storing w size' 0, silent)
write_step size val m (storing w size' k) =
    if ltb k size'
    then (
      record m { buffer = update m.buffer (write_at w size' k) (val k) },
      storing w size' (k + 1),
      silent,
    )
    else (record m { writer = new_writer w size' }, ready, wrote (read_cells val 0 size'))

-- `read` into a span of `room` bytes.
unfoldable pub read_step : ℕ → SpscBuffer → ReadPc → SpscBuffer × ReadPc × Event
read_step room m waiting = (m, seen m.reader room, silent)
read_step room m (seen r room') =
    let avail = available m.writer r in
    if avail == 0 then (m, waiting, missed) else (m, copying r room' (min avail room') [], silent)
read_step room m (copying r room' n bytes) =
    if ltb (length bytes) n
    then (m, copying r room' n (bytes ++ (m.buffer (read_at r n (length bytes)) ∷ [])), silent)
    else (record m { reader = new_reader r n }, waiting, read room' bytes)

-- The two threads; how many calls of each have returned, and how many bytes went in and out.
pub record System : Type 0 where
  pub mem : SpscBuffer
  pub writing : WritePc
  pub reading : ReadPc
  pub writes : ℕ
  pub reads : ℕ
  pub written : ℕ
  pub consumed : ℕ

pub data Turn : Type 0 where
  producer consumer : Turn

abbrev pub returns : Event → ℕ → ℕ
returns silent n = n
returns _ n = n + 1

abbrev pub grows : Event → ℕ → ℕ
grows (wrote bytes) n = n + length bytes
grows (read room bytes) n = n + length bytes
grows _ n = n

-- The n-th call of `try_write` has `sizes n` bytes, and the n-th call of `read` a span of `rooms n`.
-- The bytes that go in are `stream 0`, `stream 1`, ...: a refused call does not look at its own.
module _ (sizes rooms stream : ℕ → ℕ) where
  unfoldable pub turn : Turn → System → System × Event
  turn producer s =
      let (m, pc, e) = write_step (sizes s.writes) (λ k. stream (s.written + k)) s.mem s.writing in
      (
        record s {
          mem = m;
          writing = pc;
          writes = returns e s.writes;
          written = grows e s.written;
        },
        e,
      )
  turn consumer s =
      let (m, pc, e) = read_step (rooms s.reads) s.mem s.reading in
      (
        record s {
          mem = m;
          reading = pc;
          reads = returns e s.reads;
          consumed = grows e s.consumed;
        },
        e,
      )

  -- The system after a schedule, and what the callers saw.
  unfoldable pub run : List Turn → System → System × List Event
  unfolding turn
  run [] s = (s, [])
  run (t ∷ ts) s = let (s₁, e) = turn t s in let (s₂, es) = run ts s₁ in (s₂, e ∷ es)

-- Both threads before their first call.
unfoldable pub start : SpscBuffer → System
start m = record {
  mem = m;
  writing = ready;
  reading = waiting;
  writes = 0;
  reads = 0;
  written = 0;
  consumed = 0;
}
