-- ===== src/SpmcQueue/Invariant.antt =====
-- What holds of an `SPMCQueue` between two shared accesses: the seqlock of each slot, and what each
-- consumer has read.
use lock_free_queues.Prelude.{ℕ, suc, ◌+◌, ◌-◌, ◌*◌, ◌/◌, ◌%◌, ◌^◌, ◌≤◌, ◌<◌, ◌≡◌, ◌≢◌, length}
use lock_free_queues.Prelude.Words.{bit_and-mask}
use lock_free_queues.Memory.Copy.{read_cells}
use lock_free_queues.Memory.Messages.{objects}
use lock_free_queues.SpmcQueue.{
  Shared, PushPc, ready, loaded, versioned, writing, stored, PopPc, copying, aborted, Consumer,
  wrap,
}

-- No counter has wrapped: so many steps have not been taken in any run that a machine can make.
abbrev pub bound : ℕ
bound = 2 ^ 62

-- The calls of `push` whose object a consumer can read: with those that only lack the last store.
abbrev pub published : PushPc → ℕ → ℕ
published (stored w) n = n + 1
published _ n = n

pub wrap_lem : (bits i : ℕ) → wrap bits i ≡ i % 2 ^ bits
unfolding wrap
wrap_lem bits i = bit_and-mask bits i

module _ (bits width : ℕ) {A : Type 0} (msg : ℕ → ℕ → A) where
  abbrev pub size : ℕ
  size = 2 ^ bits

  -- Slot `j` after `m` pushes: its version is even and counts the laps in which it was written, and
  -- it holds the object of the last of them.
  pub record SlotHolds (m : ℕ) (mem : Shared A) (j : ℕ) : Type 0 where
    pub lap : ℕ
    pub even : mem.version j ≡ 2 * lap
    pub reached : m ≤ lap * size + j
    pub current : lap * size + j < m + size
    pub words : (k prev : ℕ) → k < width → lap ≡ suc prev → mem.cells j k ≡ msg (prev * size + j) k

  -- The slot being written is left out.
  abbrev pub Untouched : PushPc → ℕ → Type 0
  Untouched (writing w v k) j = j ≢ w % size
  Untouched _ j = Unit

  -- What the producer's locals say. `n` pushes are finished.
  abbrev pub PushFacts : ℕ → Shared A → PushPc → Type 0
  PushFacts n mem ready = Unit
  PushFacts n mem (loaded w) = w ≡ n
  PushFacts n mem (versioned w v) = (w ≡ n) × (v ≡ mem.version (n % size))
  PushFacts n mem (writing w v k) =
      (w ≡ n)
      × (v ≡ 2 * (n / size))
      × (mem.version (n % size) ≡ v + 1)
      × (k ≤ width)
      × ((i : ℕ) → i < k → mem.cells (n % size) i ≡ msg n i)
  PushFacts n mem (stored w) = w ≡ n

  pub record PushInv (n : ℕ) (mem : Shared A) (pc : PushPc) : Type 0 where
    pub small : n < bound
    pub counted : mem.writer ≡ n
    pub facts : PushFacts n mem pc
    pub slots : (j : ℕ) → j < size → Untouched pc j → SlotHolds (published pc n) mem j

  -- What `temp` is worth: while the version is the expected one, it is the object's first words.
  -- A consumer that has given up was a whole lap behind. `m` pushes are published.
  abbrev pub PopFacts : ℕ → ℕ → Shared A → PopPc A → Type 0
  PopFacts m r mem (copying temp) =
      (length temp ≤ width)
      × (2 * (r / size + 1) ≤ mem.version (r % size))
      × (mem.version (r % size) ≡ 2 * (r / size + 1) → temp ≡ read_cells (msg r) 0 (length temp))
  PopFacts m r mem aborted = r + size ≤ m
  PopFacts m r mem _ = Unit

  -- `m` pushes are published.
  pub record PopInv (m : ℕ) (mem : Shared A) (c : Consumer A) : Type 0 where
    pub after : c.start ≤ c.reader
    pub behind : c.reader ≤ m
    pub in_order : c.got ≡ objects width msg c.start (c.reader - c.start)
    pub facts : PopFacts m c.reader mem c.pc
