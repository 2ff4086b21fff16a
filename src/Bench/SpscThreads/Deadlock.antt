-- ===== src/Bench/SpscThreads/Deadlock.antt =====
-- Whether a thread of `spsc_bench` can go on.
use lock_free_queues.Prelude.{ℕ, ◌<◌, ◌≡◌, ◌⊎◌, inl, inr, refl, sym, subst, arith, dec_lt}
use lock_free_queues.SpscQueue.Threads.{Turn, producer, consumer}
use lock_free_queues.Bench.SpscThreads.{
  ProducerPc, sending, joining, through, ConsumerPc, looping, popping, tried, leaving, threw,
  exported, Bench,
}
use lock_free_queues.Bench.SpscThreads.Invariant.{Kept, Known, Joined}
use lock_free_queues.Bench.SpscThreads.Meter.{some_left}
use lock_free_queues.Bench.SpscThreads.Growth.{MainCan, ConsumerCan}
use lock_free_queues.Bench.SpscThreads.Rounds.{Can}

-- The main thread is behind `join`, or the consumer has thrown.
abbrev pub Ended : {A : Type 0} → Bench A → Type 0
Ended s = (s.pc ≡ threw) ⊎ (s.main_pc ≡ through)

module _ (width : ℕ) {A : Type 0} (changes : ℕ → ℕ → A) (n : ℕ) where
  -- The main thread can go on, or is through, when the queue has room and the rest is to come.
  main_goes_on :
      {s : Bench A}
      → Kept width changes n s
      → s.queue.pushes ≡ s.queue.pops
      → s.queue.pushes < n
      → (m : ProducerPc) → Joined n m s.received s.queue.pushes
      → MainCan width changes n m s
  main_goes_on k empty more sending joined = inr (omega arith)
  main_goes_on k empty more joining joined = absurd (omega arith)
  main_goes_on k empty more through joined = absurd (omega (arith, k.counts))

  -- And after the consumer has exported its samples.
  main_after_export :
      {s : Bench A}
      → Kept width changes n s
      → s.pc ≡ exported
      → s.received ≡ n
      → (m : ProducerPc) → s.main_pc ≡ m
      → Ended s ⊎ ((t : Turn) × Can width changes n t s)
  main_after_export {s} k here all sending at = inr (
    producer,
    subst (λ m. MainCan width changes n m s) (sym at)
        (inl (omega (arith, k.counts, k.queue.behind, k.within))),
  )
  main_after_export {s} k here all joining at =
      inr (producer, subst (λ m. MainCan width changes n m s) (sym at) here)
  main_after_export k here all through at = inl (inr at)

  -- One of the two threads can, until the end.
  pub no_deadlock :
      {s : Bench A} → Kept width changes n s → Ended s ⊎ ((t : Turn) × Can width changes n t s)
  no_deadlock {s} k = go s.pc refl
    where
      alive :
          (p : ConsumerPc)
          → s.pc ≡ p
          → (0 < some_left n s.queue → ConsumerCan width changes n p s)
          → Ended s ⊎ ((t : Turn) × Can width changes n t s)
      alive p at can = elim (dec_lt 0 (some_left n s.queue)) [
        | yes more ↦
            inr (consumer, subst (λ p. ConsumerCan width changes n p s) (sym at) (can more))
        | no idle ↦ inr (
          producer,
          main_goes_on k (omega (arith, k.queue.behind)) (omega (arith, k.queue.behind, k.within))
              s.main_pc k.joined,
        )
      ]

      go : (p : ConsumerPc) → s.pc ≡ p → Ended s ⊎ ((t : Turn) × Can width changes n t s)
      go looping at = alive looping at (λ more. more)
      go popping at = alive popping at (λ more. more)
      go (tried b) at = alive (tried b) at (λ more. more)
      go leaving at = alive leaving at (λ more. more)
      go threw at = inl (inl at)
      go exported at =
          main_after_export k at (subst (λ p. Known n p s.received s.queue.pushes) at k.known)
            s.main_pc refl
