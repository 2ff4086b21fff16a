-- ===== src/Bench/SpscThreads/Delivery.antt =====
-- What any schedule of the threads of `spsc_bench` of src/main.cpp does.
use lock_free_queues.Prelude.{ℕ, ◌≤◌, ◌<◌, ◌≡◌, ap, ◌∙◌, List, arith}
use lock_free_queues.Memory.Messages.{objects}
use lock_free_queues.SpscQueue.Threads.{Turn}
use lock_free_queues.Bench.SpscThreads.{
  ProducerPc, sending, joining, through, ConsumerPc, looping, popping, tried, leaving, threw,
  exported, Bench, run, start,
}
use lock_free_queues.Bench.SpscThreads.Invariant.{Kept, Known, Joined}
use lock_free_queues.Bench.SpscThreads.Steps.{run-Kept, start-Kept}

module _ (width : ℕ) {A : Type 0} (changes : ℕ → ℕ → A) (n : ℕ) where
  -- What the end of the consumer's thread says: it exports after the last message, and throws, short
  -- of messages, only after the producer has sent all.
  abbrev pub ConsumerEnd : ConsumerPc → Bench A → Type 0
  ConsumerEnd exported s = s.got ≡ objects width changes 0 n
  ConsumerEnd threw s = (s.received < n) × (s.queue.pushes ≡ n)
  ConsumerEnd _ s = Unit

  abbrev pub MainEnd : ProducerPc → Bench A → Type 0
  MainEnd through s = s.got ≡ objects width changes 0 n
  MainEnd _ s = Unit

  all_got :
      {s : Bench A} → Kept width changes n s → s.received ≡ n → s.got ≡ objects width changes 0 n
  all_got k all = k.in_order ∙ ap (objects width changes 0) all

  consumer_end :
      {s : Bench A}
      → Kept width changes n s
      → (p : ConsumerPc) → Known n p s.received s.queue.pushes
      → ConsumerEnd p s
  consumer_end k looping known = tt
  consumer_end k popping known = tt
  consumer_end k (tried b) known = tt
  consumer_end k leaving known = tt
  consumer_end k threw known = known
  consumer_end k exported known = all_got k known

  main_end :
      {s : Bench A}
      → Kept width changes n s
      → (m : ProducerPc) → Joined n m s.received s.queue.pushes
      → MainEnd m s
  main_end k sending joined = tt
  main_end k joining joined = tt
  main_end k through joined = all_got k joined

  -- After any schedule of the shared accesses of the two threads of the SPSC benchmark, the consumer
  -- has received, whole and in order, the first changes that the producer sent, as many as its loop
  -- has counted; the producer has sent at most all; if the consumer exports its samples, or the main
  -- thread is behind `join`, then the consumer has received every change; and if the consumer throws,
  -- then some are missing though the producer has sent all.
  pub spsc_consumer_receives :
      (blank : ℕ → ℕ → A) (ts : List Turn)
      → let s = run width changes n ts (start blank) in
        (s.got ≡ objects width changes 0 s.received)
        × (s.received ≤ s.queue.pushes)
        × (s.queue.pushes ≤ n)
        × ConsumerEnd s.pc s
        × MainEnd s.main_pc s
  spsc_consumer_receives blank ts =
      let k = run-Kept width changes n ts (start-Kept width changes n blank) in
      (
        k.in_order,
        omega (arith, k.counts, k.queue.behind),
        k.within,
        consumer_end k _ k.known,
        main_end k _ k.joined,
      )
