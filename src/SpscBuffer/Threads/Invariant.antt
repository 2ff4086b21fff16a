-- ===== src/SpscBuffer/Threads/Invariant.antt =====
-- What holds of an `SPSCBuffer` and its two threads between two shared accesses.
use lock_free_queues.Prelude.{ℕ, ◌+◌, ◌-◌, ◌%◌, ◌≤◌, ◌<◌, ◌≡◌, List, length, arith}
use lock_free_queues.Memory.Copy.{read_cells}
use lock_free_queues.SpscBuffer.{SpscBuffer, buffer_size}
use lock_free_queues.SpscBuffer.Contents.{capacity}
use lock_free_queues.SpscBuffer.Threads.{
  WritePc, ready, loaded, storing, ReadPc, waiting, seen, copying, System,
}

module _ (stream : ℕ → ℕ) where
  -- What the producer's locals say with `n` bytes written and `p` read. Its room can only grow.
  abbrev pub WriteFacts : SpscBuffer → ℕ → ℕ → WritePc → Type 0
  WriteFacts m n p ready = Unit {0}
  WriteFacts m n p (loaded w size) = w ≡ n % buffer_size
  WriteFacts m n p (storing w size k) =
      (w ≡ n % buffer_size)
      × (n + size ≤ p + capacity)
      × (k ≤ size)
      × ((i : ℕ) → i < k → m.buffer ((n + i) % buffer_size) ≡ stream (n + i))

  -- What the consumer's locals say.
  abbrev pub ReadFacts : ℕ → ℕ → ReadPc → Type 0
  ReadFacts n p waiting = Unit {0}
  ReadFacts n p (seen r room) = r ≡ p % buffer_size
  ReadFacts n p (copying r room c bytes) =
      (r ≡ p % buffer_size)
      × (p + c ≤ n)
      × (length bytes ≤ c)
      × (bytes ≡ read_cells stream p (length bytes))
      × (c ≤ room)
      × (0 < room → 0 < c)

  pub record Inv (m : SpscBuffer) (n p : ℕ) (pc : WritePc) (qc : ReadPc) : Type 0 where
    pub writer_at : m.writer ≡ n % buffer_size
    pub reader_at : m.reader ≡ p % buffer_size
    pub behind : p ≤ n
    pub room : n ≤ p + capacity
    pub cells : (i : ℕ) → p ≤ i → i < n → m.buffer (i % buffer_size) ≡ stream i
    pub writing : WriteFacts m n p pc
    pub reading : ReadFacts n p qc

  -- A step that only moves one of the threads on.
  pub move_writing :
      {m : SpscBuffer} {n p : ℕ} {pc : WritePc} (pc' : WritePc) {qc : ReadPc}
      → WriteFacts m n p pc'
      → Inv m n p pc qc
      → Inv m n p pc' qc
  move_writing pc' facts inv = record {
    writer_at = inv.writer_at;
    reader_at = inv.reader_at;
    behind = inv.behind;
    room = inv.room;
    cells = inv.cells;
    writing = facts;
    reading = inv.reading;
  }

  pub move_reading :
      {m : SpscBuffer} {n p : ℕ} {pc : WritePc} {qc : ReadPc} (qc' : ReadPc)
      → ReadFacts n p qc'
      → Inv m n p pc qc
      → Inv m n p pc qc'
  move_reading qc' facts inv = record {
    writer_at = inv.writer_at;
    reader_at = inv.reader_at;
    behind = inv.behind;
    room = inv.room;
    cells = inv.cells;
    writing = inv.writing;
    reading = facts;
  }

  -- What one thread knows outlives a step of the other.
  pub ReadFacts-add : (n p k : ℕ) (qc : ReadPc) → ReadFacts n p qc → ReadFacts (n + k) p qc
  ReadFacts-add n p k waiting f = tt
  ReadFacts-add n p k (seen r room) f = f
  ReadFacts-add n p k (copying r room c bytes) f = (f.0, omega (arith, f.1), f.2, f.3, f.4, f.5)

  pub WriteFacts-add :
      (m : SpscBuffer) (r n p k : ℕ) (pc : WritePc)
      → WriteFacts m n p pc
      → WriteFacts (record m { reader = r }) n (p + k) pc
  WriteFacts-add m r n p k ready f = tt
  WriteFacts-add m r n p k (loaded w size) f = f
  WriteFacts-add m r n p k (storing w size i) f = (f.0, omega (arith, f.1), f.2, f.3)

  -- The bytes held: of `n` written, all but the `p` read.
  abbrev pub held : ℕ → ℕ → List ℕ
  held n p = read_cells stream p (n - p)

  abbrev pub HoldsAll : System → Type 0
  HoldsAll s = Inv s.mem s.written s.consumed s.writing s.reading
