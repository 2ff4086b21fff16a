-- ===== src/Bench/SpscThreads/Invariant.antt =====
-- What holds between two steps of the threads of `spsc_bench`.
use lock_free_queues.Prelude.{ℕ, ◌+◌, ◌≤◌, ◌<◌, ◌≡◌, ◌⊎◌, inl, inr, arith, Bool, true, false}
use lock_free_queues.Memory.Messages.{objects}
use lock_free_queues.SpscQueue.Threads.Invariant.{HoldsAll}
use lock_free_queues.Bench.SpscThreads.{
  ProducerPc, sending, joining, through, ConsumerPc, looping, popping, tried, leaving, threw,
  exported, Bench,
}

module _ (n : ℕ) where
  -- What the consumer's place says, of `received` messages and `sent` ones.
  abbrev pub Known : ConsumerPc → ℕ → ℕ → Type 0
  Known popping received sent = received < n
  Known leaving received sent = (received ≡ n) ⊎ (sent ≡ n)
  Known threw received sent = (received < n) × (sent ≡ n)
  Known exported received sent = received ≡ n
  Known _ received sent = Unit

  -- And what the main thread's says.
  abbrev pub Joined : ProducerPc → ℕ → ℕ → Type 0
  Joined sending received sent = Unit
  Joined joining received sent = sent ≡ n
  Joined through received sent = received ≡ n

  -- `running` is cleared when all is sent.
  abbrev pub Stopped : Bool → ℕ → Type 0
  Stopped false sent = sent ≡ n
  Stopped true sent = Unit

  pub Known-sent : (p : ConsumerPc) (r k k' : ℕ) → k < n → Known p r k → Known p r k'
  Known-sent looping r k k' lt known = tt
  Known-sent popping r k k' lt known = known
  Known-sent (tried b) r k k' lt known = tt
  Known-sent leaving r k k' lt (inl all) = inl all
  Known-sent leaving r k k' lt (inr all) = absurd (omega arith)
  Known-sent threw r k k' lt known = absurd (omega (arith, known.1))
  Known-sent exported r k k' lt known = known

  pub Stopped-sent : (b : Bool) (k k' : ℕ) → k < n → Stopped b k → Stopped b k'
  Stopped-sent true k k' lt stopped = tt
  Stopped-sent false k k' lt stopped = absurd (omega arith)

  pub Joined-sent : (m : ProducerPc) (r k k' : ℕ) → k < n → Joined m r k → Joined m r k'
  Joined-sent sending r k k' lt joined = tt
  Joined-sent joining r k k' lt joined = absurd (omega arith)
  Joined-sent through r k k' lt joined = joined

  pub Joined-received : (m : ProducerPc) (r k : ℕ) → r < n → Joined m r k → Joined m (r + 1) k
  Joined-received sending r k lt joined = joined
  Joined-received joining r k lt joined = joined
  Joined-received through r k lt joined = absurd (omega arith)

module _ (width : ℕ) {A : Type 0} (changes : ℕ → ℕ → A) (n : ℕ) where
  pub record Kept (s : Bench A) : Type 0 where
    pub queue : HoldsAll width changes s.queue
    pub counts : s.received ≡ s.queue.pops
    pub in_order : s.got ≡ objects width changes 0 s.received
    pub within : s.queue.pushes ≤ n
    pub stopped : Stopped n s.running s.queue.pushes
    pub joined : Joined n s.main_pc s.received s.queue.pushes
    pub known : Known n s.pc s.received s.queue.pushes

  -- The consumer goes on to `p`.
  pub Kept-at :
      {s : Bench A} (p : ConsumerPc)
      → Kept s
      → Known n p s.received s.queue.pushes
      → Kept (record s { pc = p })
  Kept-at p k known = record {
    queue = k.queue;
    counts = k.counts;
    in_order = k.in_order;
    within = k.within;
    stopped = k.stopped;
    joined = k.joined;
    known = known;
  }

  pub main_at :
      {s : Bench A} (m : ProducerPc)
      → Kept s
      → Joined n m s.received s.queue.pushes
      → Kept (record s { main_pc = m })
  main_at m k joined = record {
    queue = k.queue;
    counts = k.counts;
    in_order = k.in_order;
    within = k.within;
    stopped = k.stopped;
    joined = joined;
    known = k.known;
  }
