-- ===== src/Bench/SpscThreads/Limit.antt =====
-- How much the threads of `spsc_bench` can do at most.
use lock_free_queues.Prelude.{ℕ, ◌+◌, ◌-◌, ◌*◌, ◌≤◌, ◌<◌, arith}
use lock_free_queues.Prelude.Words.{mul_split}
use lock_free_queues.SpscQueue.Threads.Progress.{push_done, pop_done, push_done-lt, pop_done-lt}
use lock_free_queues.Bench.SpscThreads.{
  ProducerPc, sending, joining, through, ConsumerPc, looping, popping, tried, leaving, threw,
  exported, Bench,
}
use lock_free_queues.Bench.SpscThreads.Invariant.{Kept}
use lock_free_queues.Bench.SpscThreads.Meter.{gate-le, main_local, consumer_local, room, some_left}
use lock_free_queues.Bench.SpscThreads.Rounds.{total}

-- Rounds that are enough: a thread counts at most `width + 3` steps for a message that it pushes or
-- `width + 7` for one that it pops, and those of its end.
unfoldable pub enough_rounds : ℕ → ℕ → ℕ
enough_rounds width n = (width + 3) * n + (width + 5) + ((width + 7) * n + (width + 6))

module _ (width : ℕ) {A : Type 0} (changes : ℕ → ℕ → A) (n : ℕ) where
  main_local-le : (m : ProducerPc) (k d : ℕ) → d < width + 3 → main_local width m k d ≤ width + 5
  main_local-le sending k d lt = omega (arith, gate-le k d)
  main_local-le joining k d lt = omega arith
  main_local-le through k d lt = omega arith

  consumer_local-le :
      (p : ConsumerPc) (d : ℕ) → d < width + 3 → consumer_local width p d ≤ width + 6
  consumer_local-le looping d lt = omega arith
  consumer_local-le popping d lt = omega arith
  consumer_local-le (tried b) d lt = omega arith
  consumer_local-le leaving d lt = omega arith
  consumer_local-le threw d lt = omega arith
  consumer_local-le exported d lt = omega arith

  pub total-le :
      {s : Bench A} → Kept width changes n s → total width changes n s ≤ enough_rounds width n
  unfolding enough_rounds
  total-le {s} k =
      let q = s.queue in
      let d = pop_done q.popper in
      omega (
        arith,
        k.within,
        k.queue.behind,
        mul_split (width + 3) q.pushes (n - q.pushes) n (omega (arith, k.within)),
        mul_split (width + 7) q.pops (n - q.pops) n (omega (arith, k.within, k.queue.behind)),
        main_local-le s.main_pc (room q) (push_done q.pusher)
            (push_done-lt width changes q.mem q.pushes q.pops q.pusher k.queue.pushing),
        gate-le (some_left n q) (consumer_local width s.pc d),
        consumer_local-le s.pc d
            (pop_done-lt width changes q.pushes q.pops q.popper k.queue.popping),
      )
