-- ===== src/SpscBuffer/Threads/Linear.antt =====
-- What any schedule of the two threads of src/spsc_buffer.cpp does.
use lock_free_queues.Prelude.{
  ℕ, ◌+◌, ◌<◌, ◌≡◌, ◌≢◌, refl, sym, subst, ◌∙◌, List, [], ◌∷◌, ◌++◌, arith, length,
}
use lock_free_queues.Memory.Copy.{read_cells}
use lock_free_queues.Trace.{carried, Trace, done, step, Trace-Balanced}
use lock_free_queues.SpscBuffer.{buffer_size, init}
use lock_free_queues.SpscBuffer.Threads.{
  storing, copying, Event, System, Turn, producer, consumer, turn, run, start, write_at, read_at,
}
use lock_free_queues.SpscBuffer.Threads.Spec.{Does, bytes_in, bytes_out, Does-Balanced}
use lock_free_queues.SpscBuffer.Threads.Address.{write_at_lem, read_at_lem, apart}
use lock_free_queues.SpscBuffer.Threads.Invariant.{WriteFacts, ReadFacts, held, HoldsAll}
use lock_free_queues.SpscBuffer.Threads.Write.{write_step-Goes}
use lock_free_queues.SpscBuffer.Threads.Read.{read_step-Goes}

module _ (sizes rooms stream : ℕ → ℕ) where
  abbrev pub contents : System → List ℕ
  contents s = held stream s.written s.consumed

  abbrev pub Goes : System → System × Event → Type 0
  Goes s (s', e) = HoldsAll stream s' × Does (contents s) e (contents s')

  pub turn-Goes : (t : Turn) (s : System) → HoldsAll stream s → Goes s (turn sizes rooms stream t s)
  unfolding turn
  turn-Goes producer s inv = write_step-Goes stream (sizes s.writes) s.writing inv
  turn-Goes consumer s inv = read_step-Goes stream (rooms s.reads) s.reading inv

  -- Both threads before their first call, over an array that holds `blank`.
  abbrev pub fresh : (ℕ → ℕ) → System
  fresh blank = start (record { buffer = blank; reader = 0; writer = 0 })

  empty : (blank : ℕ → ℕ) → contents (fresh blank) ≡ []
  unfolding start read_cells
  empty blank = refl

  fresh-HoldsAll : (blank : ℕ → ℕ) → HoldsAll stream (fresh blank)
  unfolding start
  fresh-HoldsAll blank = record {
    writer_at = omega arith;
    reader_at = omega arith;
    behind = omega arith;
    room = omega arith;
    cells = λ i lo hi. absurd (omega arith);
    writing = tt;
    reading = tt;
  }

  start-HoldsAll : HoldsAll stream (start init)
  unfolding init
  start-HoldsAll = fresh-HoldsAll (λ _. 0)

  pub run-HoldsAll :
      (ts : List Turn) (s : System)
      → HoldsAll stream s
      → HoldsAll stream (run sizes rooms stream ts s).0
        × Trace Does
            (contents s)
            (run sizes rooms stream ts s).1
            (contents (run sizes rooms stream ts s).0)
  unfolding run
  run-HoldsAll [] s inv = (inv, done)
  run-HoldsAll (t ∷ ts) s inv =
      let (inv', here) = turn-Goes t s inv in
      let (end, rest) = run-HoldsAll ts (turn sizes rooms stream t s).0 inv' in
      (end, step here rest)

  -- What the callers see, and the bytes that went in and came out.
  abbrev pub Streams : System × List Event → Type 0
  Streams (s, es) =
      Trace Does [] es (contents s) × (carried bytes_in es ≡ carried bytes_out es ++ contents s)

  pub fresh-Streams :
      (blank : ℕ → ℕ) (ts : List Turn) → Streams (run sizes rooms stream ts (fresh blank))
  fresh-Streams blank ts =
      let trace =
        subst
          (λ xs.
            Trace Does xs (run sizes rooms stream ts (fresh blank)).1
              (contents (run sizes rooms stream ts (fresh blank)).0))
          (empty blank) (run-HoldsAll ts (fresh blank) (fresh-HoldsAll blank)).1 in
      (trace, Trace-Balanced Does bytes_in bytes_out Does-Balanced trace)

  -- After any schedule from an empty buffer, what the callers have seen is a run of one bounded byte
  -- queue: a write took effect at its last step, and was refused only if it did not fit when it
  -- loaded `reader_`; a read took bytes off the front, and none only for an empty span or when the
  -- queue was empty as it loaded `writer_`. So the bytes that went in are those that came out and
  -- are held still, in order.
  pub run_bytes-Trace :
      (ts : List Turn)
      → let (s, es) = run sizes rooms stream ts (start init) in
        Trace Does [] es (contents s) × (carried bytes_in es ≡ carried bytes_out es ++ contents s)
  unfolding init
  run_bytes-Trace ts = fresh-Streams (λ _. 0) ts

  -- After any schedule from an empty buffer, if the producer is about to store a byte while the
  -- consumer is about to load one, then both are in the array, and they are two bytes: the copies
  -- do not race.
  pub bytes_apart :
      (ts : List Turn) (w size k r room n : ℕ) (bytes : List ℕ)
      → let s = (run sizes rooms stream ts (start init)).0 in
        s.writing ≡ storing w size k
        → s.reading ≡ copying r room n bytes
        → k < size
        → length bytes < n
        → (write_at w size k < buffer_size)
          × (read_at r n (length bytes) < buffer_size)
          × (write_at w size k ≢ read_at r n (length bytes))
  bytes_apart ts w size k r room n bytes storing_now copying_now more_in more_out =
      let s = (run sizes rooms stream ts (start init)).0 in
      let inv = (run-HoldsAll ts (start init) start-HoldsAll).0 in
      let to = subst (WriteFacts stream s.mem s.written s.consumed) storing_now inv.writing in
      let from = subst (ReadFacts stream s.written s.consumed) copying_now inv.reading in
      let stored = write_at_lem s.written w size k to.0 (omega (arith, to.1, inv.behind)) more_in in
      let taken =
        read_at_lem s.consumed r n (length bytes) from.0 (omega (arith, from.1, inv.room))
          more_out in
      (
        omega (arith, stored),
        omega (arith, taken),
        λ same.
            apart s.written s.consumed size k (s.consumed + length bytes) to.1 more_in (omega arith)
              (omega (arith, from.1)) (sym stored ∙ same ∙ taken),
      )
