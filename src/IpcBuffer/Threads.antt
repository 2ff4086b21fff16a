-- ===== src/IpcBuffer/Threads.antt =====
-- `try_write` and `read` of src/spsc_buffer_ipc.cpp in two processes, one access to the shared memory
-- at a time. The places in a call, what the callers see and the addresses of the copies are those of
-- src/spsc_buffer.cpp, whose expressions the calls repeat.
pub mod Linear
use lock_free_queues.Prelude.{
  ℕ, ◌+◌, ◌-◌, List, [], ◌∷◌, ◌++◌, ltb, ◌==◌, if◌then◌else◌, update, length, min,
}
use lock_free_queues.Prelude.Words.{sub64}
use lock_free_queues.Memory.Copy.{read_cells}
use lock_free_queues.IpcBuffer.{IpcSpscBuffer, buffer_size, available}
use lock_free_queues.SpscBuffer.Threads.{
  WritePc, ready, loaded, storing, ReadPc, waiting, seen, copying, Event, silent, wrote, refused,
  read, missed, write_at, new_writer, read_at, new_reader, Turn, producer, consumer, returns, grows,
}

-- `try_write` of `size` bytes, where byte `k` is `val k`.
unfoldable pub write_step : ℕ → (ℕ → ℕ) → IpcSpscBuffer → WritePc → IpcSpscBuffer × WritePc × Event
write_step size val m ready = (m, loaded m.writer size, silent)
write_step size val m (loaded w size') =
    let free_space = sub64 (buffer_size - 1) (available w m.reader) in
    if ltb free_space size' then (m, ready, refused size') else (m, storing w size' 0, silent)
write_step size val m (storing w size' k) =
    if ltb k size'
    then (
      record m { buffer = update m.buffer (write_at w size' k) (val k) },
      storing w size' (k + 1),
      silent,
    )
    else (record m { writer = new_writer w size' }, ready, wrote (read_cells val 0 size'))

-- `read` into a span of `room` bytes.
unfoldable pub read_step : ℕ → IpcSpscBuffer → ReadPc → IpcSpscBuffer × ReadPc × Event
read_step room m waiting = (m, seen m.reader room, silent)
read_step room m (seen r room') =
    let avail = available m.writer r in
    if avail == 0 then (m, waiting, missed) else (m, copying r room' (min avail room') [], silent)
read_step room m (copying r room' n bytes) =
    if ltb (length bytes) n
    then (m, copying r room' n (bytes ++ (m.buffer (read_at r n (length bytes)) ∷ [])), silent)
    else (record m { reader = new_reader r n }, waiting, read room' bytes)

-- The shared memory and the two processes, with what they have done.
pub record System : Type 0 where
  pub mem : IpcSpscBuffer
  pub writing : WritePc
  pub reading : ReadPc
  pub writes : ℕ
  pub reads : ℕ
  pub written : ℕ
  pub consumed : ℕ

-- The calls and the bytes are as for the threads of src/spsc_buffer.cpp.
module _ (sizes rooms stream : ℕ → ℕ) where
  unfoldable pub turn : Turn → System → System × Event
  turn producer s =
      let (m, pc, e) = write_step (sizes s.writes) (λ k. stream (s.written + k)) s.mem s.writing in
      (
        record s {
          mem = m;
          writing = pc;
          writes = returns e s.writes;
          written = grows e s.written;
        },
        e,
      )
  turn consumer s =
      let (m, pc, e) = read_step (rooms s.reads) s.mem s.reading in
      (
        record s {
          mem = m;
          reading = pc;
          reads = returns e s.reads;
          consumed = grows e s.consumed;
        },
        e,
      )

  unfoldable pub run : List Turn → System → System × List Event
  unfolding turn
  run [] s = (s, [])
  run (t ∷ ts) s = let (s₁, e) = turn t s in let (s₂, es) = run ts s₁ in (s₂, e ∷ es)

-- Both processes before their first call.
unfoldable pub start : IpcSpscBuffer → System
start m = record {
  mem = m;
  writing = ready;
  reading = waiting;
  writes = 0;
  reads = 0;
  written = 0;
  consumed = 0;
}
