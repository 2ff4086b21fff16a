-- ===== src/SpscQueue/Threads/Invariant.antt =====
-- What holds of an `SPSCQueue` and its two threads between two shared accesses.
use lock_free_queues.Prelude.{ℕ, ◌+◌, ◌-◌, ◌%◌, ◌≤◌, ◌<◌, ◌≡◌, List, length, arith}
use lock_free_queues.Prelude.Words.{word_mod}
use lock_free_queues.Memory.Copy.{read_cells}
use lock_free_queues.Memory.Messages.{objects}
use lock_free_queues.SpscQueue.{buffer_size_slots}
use lock_free_queues.SpscQueue.Contents.{capacity}
use lock_free_queues.SpscQueue.Threads.{
  Shared, PushPc, ready, loaded, storing, PopPc, waiting, seen, copying, System,
}

module _ (width : ℕ) {A : Type 0} (msg : ℕ → ℕ → A) where
  -- What the producer's locals say after `n` pushes and `p` pops. Its room can only grow.
  abbrev pub PushFacts : Shared A → ℕ → ℕ → PushPc → Type 0
  PushFacts m n p ready = Unit {0}
  PushFacts m n p (loaded w) = w ≡ n % word_mod
  PushFacts m n p (storing w k) =
      (w ≡ n % word_mod)
      × (n < p + capacity)
      × (k ≤ width)
      × ((i : ℕ) → i < k → m.buffer (n % buffer_size_slots) i ≡ msg n i)

  -- What the consumer's locals say.
  abbrev pub PopFacts : ℕ → ℕ → PopPc A → Type 0
  PopFacts n p waiting = Unit {0}
  PopFacts n p (seen r) = r ≡ p % word_mod
  PopFacts n p (copying r dst) =
      (r ≡ p % word_mod)
      × (p < n)
      × (length dst ≤ width)
      × (dst ≡ read_cells (msg p) 0 (length dst))

  pub record Inv (m : Shared A) (n p : ℕ) (pc : PushPc) (qc : PopPc A) : Type 0 where
    pub writer_at : m.writer ≡ n % word_mod
    pub reader_at : m.reader ≡ p % word_mod
    pub behind : p ≤ n
    pub room : n ≤ p + capacity
    pub cells : (i k : ℕ) → p ≤ i → i < n → k < width → m.buffer (i % buffer_size_slots) k ≡ msg i k
    pub pushing : PushFacts m n p pc
    pub popping : PopFacts n p qc

  -- A step that only moves one of the threads on.
  pub move_pusher :
      {m : Shared A} {n p : ℕ} {pc : PushPc} (pc' : PushPc) {qc : PopPc A}
      → PushFacts m n p pc'
      → Inv m n p pc qc
      → Inv m n p pc' qc
  move_pusher pc' facts inv = record {
    writer_at = inv.writer_at;
    reader_at = inv.reader_at;
    behind = inv.behind;
    room = inv.room;
    cells = inv.cells;
    pushing = facts;
    popping = inv.popping;
  }

  pub move_popper :
      {m : Shared A} {n p : ℕ} {pc : PushPc} {qc : PopPc A} (qc' : PopPc A)
      → PopFacts n p qc'
      → Inv m n p pc qc
      → Inv m n p pc qc'
  move_popper qc' facts inv = record {
    writer_at = inv.writer_at;
    reader_at = inv.reader_at;
    behind = inv.behind;
    room = inv.room;
    cells = inv.cells;
    pushing = inv.pushing;
    popping = facts;
  }

  -- What one thread knows outlives a step of the other.
  pub PopFacts-suc : (n p : ℕ) (qc : PopPc A) → PopFacts n p qc → PopFacts (n + 1) p qc
  PopFacts-suc n p waiting f = tt
  PopFacts-suc n p (seen r) f = f
  PopFacts-suc n p (copying r dst) f = (f.0, omega (arith, f.1), f.2, f.3)

  pub PushFacts-suc :
      (m : Shared A) (r n p : ℕ) (pc : PushPc)
      → PushFacts m n p pc
      → PushFacts (record m { reader = r }) n (p + 1) pc
  PushFacts-suc m r n p ready f = tt
  PushFacts-suc m r n p (loaded w) f = f
  PushFacts-suc m r n p (storing w k) f = (f.0, omega (arith, f.1), f.2, f.3)

  -- The objects held: of `n` pushed, all but the `p` popped.
  abbrev pub held : ℕ → ℕ → List (List A)
  held n p = objects width msg p (n - p)

  abbrev pub HoldsAll : System A → Type 0
  HoldsAll s = Inv s.mem s.pushes s.pops s.pusher s.popper
