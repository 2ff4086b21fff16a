-- ===== src/IpcBuffer/Threads/Linear.antt =====
-- What any schedule of the two processes of src/spsc_buffer_ipc.cpp does.
use lock_free_queues.Prelude.{
  ℕ, ◌+◌, ◌≡◌, refl, sym, ap, ◌∙◌, subst, List, [], ◌∷◌, ◌++◌, Bool-cases, inl, inr, ltb, ◌==◌,
  length, ◌-◌,
}
use lock_free_queues.Prelude.Words.{sub64}
use lock_free_queues.Trace.{carried, Trace}
use lock_free_queues.IpcBuffer.{IpcSpscBuffer, init, available, buffer_size}
use lock_free_queues.IpcBuffer.Same.{view}
use lock_free_queues.IpcBuffer.Threads.{System, turn, run, start, write_step, read_step}
use lock_free_queues.SpscBuffer
use lock_free_queues.SpscBuffer.{SpscBuffer}
use lock_free_queues.SpscBuffer.Threads
use lock_free_queues.SpscBuffer.Threads.{
  WritePc, ready, loaded, storing, ReadPc, waiting, seen, copying, Event, Turn, producer, consumer,
}
use lock_free_queues.SpscBuffer.Threads.Spec.{Does, bytes_in, bytes_out}
use lock_free_queues.SpscBuffer.Threads.Linear
use lock_free_queues.SpscBuffer.Threads.Linear.{Streams, fresh, fresh-Streams}

-- The same system over an `SPSCBuffer`.
abbrev pub view_system : System → Threads.System
view_system s = record {
  mem = view s.mem;
  writing = s.writing;
  reading = s.reading;
  writes = s.writes;
  reads = s.reads;
  written = s.written;
  consumed = s.consumed;
}

abbrev view_step : {P : Type 0} → IpcSpscBuffer × P × Event → SpscBuffer × P × Event
view_step (m, pc, e) = (view m, pc, e)

write_step-eq :
    (size : ℕ) (val : ℕ → ℕ) (m : IpcSpscBuffer) (pc : WritePc)
    → view_step (write_step size val m pc) ≡ Threads.write_step size val (view m) pc
unfolding write_step Threads.write_step available SpscBuffer.available
write_step-eq size val m ready = refl
write_step-eq size val m (loaded w size') =
    elim (Bool-cases (ltb (sub64 (buffer_size - 1) (available w m.reader)) size')) [
      | inl full ↦ rw full refl
      | inr fits ↦ rw fits refl
    ]
write_step-eq size val m (storing w size' k) = elim (Bool-cases (ltb k size')) [
  | inl more ↦ rw more refl
  | inr over ↦ rw over refl
]

read_step-eq :
    (room : ℕ) (m : IpcSpscBuffer) (pc : ReadPc)
    → view_step (read_step room m pc) ≡ Threads.read_step room (view m) pc
unfolding read_step Threads.read_step available SpscBuffer.available
read_step-eq room m waiting = refl
read_step-eq room m (seen r room') = elim (Bool-cases (available m.writer r == 0)) [
  | inl none_held ↦ rw none_held refl
  | inr held ↦ rw held refl
]
read_step-eq room m (copying r room' n bytes) = elim (Bool-cases (ltb (length bytes) n)) [
  | inl more ↦ rw more refl
  | inr over ↦ rw over refl
]

module _ (sizes rooms stream : ℕ → ℕ) where
  turn-eq :
      (t : Turn) (s : System)
      → (view_system (turn sizes rooms stream t s).0, (turn sizes rooms stream t s).1)
        ≡ Threads.turn sizes rooms stream t (view_system s)
  unfolding turn Threads.turn
  turn-eq producer s =
      ap
        (λ r. (
          record (view_system s) {
            mem = r.0;
            writing = r.1;
            writes = Threads.returns (r.2) s.writes;
            written = Threads.grows (r.2) s.written;
          },
          r.2,
        ))
        (write_step-eq (sizes s.writes) (λ k. stream (s.written + k)) s.mem s.writing)
  turn-eq consumer s =
      ap
        (λ r. (
          record (view_system s) {
            mem = r.0;
            reading = r.1;
            reads = Threads.returns (r.2) s.reads;
            consumed = Threads.grows (r.2) s.consumed;
          },
          r.2,
        ))
        (read_step-eq (rooms s.reads) s.mem s.reading)

  -- The steps of a run after its first.
  abbrev after : List Turn → Threads.System × Event → Threads.System × List Event
  after ts (s, e) = let (s', es) = Threads.run sizes rooms stream ts s in (s', e ∷ es)

  run-eq :
      (ts : List Turn) (s : System)
      → (view_system (run sizes rooms stream ts s).0, (run sizes rooms stream ts s).1)
        ≡ Threads.run sizes rooms stream ts (view_system s)
  unfolding run Threads.run
  run-eq [] s = refl
  run-eq (t ∷ ts) s =
      ap (λ r. (r.0, (turn sizes rooms stream t s).1 ∷ r.1))
        (run-eq ts (turn sizes rooms stream t s).0)
      ∙ ap (after ts) (turn-eq t s)

  -- After any schedule from an IPC buffer constructed over memory that holds anything, what the two
  -- processes have seen is a run of one bounded byte queue: the bytes that went in are those that
  -- came out and are held still, in order.
  pub run_ipc-Trace :
      (blank : ℕ → ℕ) (ts : List Turn)
      → let (s, es) = run sizes rooms stream ts (start (init blank)) in
        Trace Does [] es (Linear.contents sizes rooms stream (view_system s))
        × (carried bytes_in es
            ≡ carried bytes_out es ++ Linear.contents sizes rooms stream (view_system s))
  unfolding start init Threads.start
  run_ipc-Trace blank ts =
      subst (Streams sizes rooms stream) (sym (run-eq ts (start (init blank))))
        (fresh-Streams sizes rooms stream blank ts)
