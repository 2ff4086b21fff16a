-- ===== src/Bench/BurstThreads/Limit.antt =====
-- How much the threads of the burst benchmark can do at most.
use lock_free_queues.Prelude.{ℕ, ◌+◌, ◌-◌, ◌*◌, ◌≤◌, ◌<◌, arith}
use lock_free_queues.Prelude.Words.{word_mod, mul_split}
use lock_free_queues.SpmcQueue.{
  Shared, PushPc, ready, loaded, versioned, writing, stored, PopPc, making, waiting, copying,
  aborted,
}
use lock_free_queues.SpmcQueue.Invariant.{PushFacts, PopFacts}
use lock_free_queues.Bench.Burst.{epoch_count}
use lock_free_queues.Bench.BurstThreads.{Place, at_start, working, at_end, finished, Burst}
use lock_free_queues.Bench.BurstThreads.Invariant.{passed, Valid, messages_lem, begins}
use lock_free_queues.Bench.BurstThreads.Producing.{BurstInv}
use lock_free_queues.Bench.BurstThreads.Meter.{spot, push_done, pop_done, sum_to-bound}
use lock_free_queues.Bench.BurstThreads.Growth.{consumer_meter}
use lock_free_queues.Bench.BurstThreads.Rounds.{total}

spot-le :
    (n burst : ℕ) (p : Place)
    → Valid n burst p
    → spot (epoch_count n burst) p ≤ 3 * epoch_count n burst
spot-le n burst (at_start e) valid = omega arith
spot-le n burst (working e i) valid = omega (arith, valid.0)
spot-le n burst (at_end e) valid = omega arith
spot-le n burst finished valid = omega arith

module _ (n burst : ℕ) (pos : 0 < burst) (fit : n + burst < word_mod) where
  passed-le : (p : Place) → Valid n burst p → passed n burst p ≤ n
  passed-le (at_start e) valid = omega (arith, begins n burst pos fit e valid)
  passed-le (working e i) valid = omega (arith, messages_lem n burst pos fit e valid.0, valid.1)
  passed-le (at_end e) valid = omega (arith, messages_lem n burst pos fit e valid)
  passed-le finished valid = omega arith

mul_le : (c a n : ℕ) → a ≤ n → c * a ≤ c * n
mul_le c a n le = omega (arith, mul_split c a (n - a) n (omega arith))

module _ (bits width : ℕ) {A : Type 0} (msg : ℕ → ℕ → A) where
  push_done-le :
      (n : ℕ) (mem : Shared A) (pc : PushPc)
      → PushFacts bits width msg n mem pc
      → push_done width pc ≤ width + 4
  push_done-le n mem ready f = omega arith
  push_done-le n mem (loaded w) f = omega arith
  push_done-le n mem (versioned w v) f = omega arith
  push_done-le n mem (writing w v k) f = omega (arith, f.3)
  push_done-le n mem (stored w) f = omega arith

  pop_done-le :
      (m r : ℕ) (mem : Shared A) (pc : PopPc A)
      → PopFacts bits width msg m r mem pc
      → pop_done width pc ≤ width + 1
  pop_done-le m r mem making f = omega arith
  pop_done-le m r mem waiting f = omega arith
  pop_done-le m r mem (copying temp) f = omega (arith, f.0)
  pop_done-le m r mem aborted f = omega arith

-- Rounds that are enough: a bound on what the producer counts, and one on what each consumer counts,
-- where a thread counts its three moves in each epoch, and `width + 5` steps for a message that it
-- pushes or `width + 2` for one that it pops.
unfoldable pub enough_rounds : ℕ → ℕ → ℕ → ℕ → ℕ
enough_rounds width n burst consumer_count =
    3 * epoch_count n burst
    + ((width + 5) * n + (width + 4))
    + (3 * epoch_count n burst + ((width + 2) * n + (width + 1))) * consumer_count

module _ (bits width : ℕ) {A : Type 0} (changes : ℕ → ℕ → A) (n burst consumer_count : ℕ)
    (pos : 0 < burst) (fit : n + burst < word_mod) where
  pub total-le :
      {left : ℕ} {s : Burst A}
      → BurstInv bits width changes n burst consumer_count left s
      → total bits width changes n burst consumer_count s
        ≤ enough_rounds width n burst consumer_count
  unfolding enough_rounds
  total-le {s = s} inv = omega (
    arith,
    spot-le n burst s.producer inv.leading.valid,
    mul_le (width + 5) s.queue.pushed n
        (omega (arith, inv.leading.pushed, passed-le n burst pos fit s.producer inv.leading.valid)),
    push_done-le bits width changes s.queue.pushed s.queue.mem s.queue.pc inv.queue.pushing.facts,
    sum_to-bound
        (λ c. consumer_meter width n burst consumer_count (s.places c) (s.queue.consumers c))
        (3 * epoch_count n burst + ((width + 2) * n + (width + 1))) consumer_count each,
  )
    where
      each :
          (c : ℕ)
          → c < consumer_count
          → consumer_meter width n burst consumer_count (s.places c) (s.queue.consumers c)
            ≤ 3 * epoch_count n burst + ((width + 2) * n + (width + 1))
      each c lt =
          let k = inv.following c lt in
          omega (
            arith,
            spot-le n burst (s.places c) k.valid,
            mul_le (width + 2) (s.queue.consumers c).reader n
                (omega (arith, k.popped, passed-le n burst pos fit (s.places c) k.valid)),
            pop_done-le bits width changes _ _ s.queue.mem (s.queue.consumers c).pc
                (inv.queue.popping c).facts,
          )
