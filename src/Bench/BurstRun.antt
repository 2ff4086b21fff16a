-- ===== src/Bench/BurstRun.antt =====
-- `run_spmc_burst_bench` of src/spmc_burst_bench.cpp as a whole: the check of the count, the pinning
-- of the threads, their run, and the metrics at its end.
pub mod Slowest
pub mod Facts
use lock_free_queues.Prelude.{
  ℕ, zero, suc, ◌+◌, ◌-◌, Bool, true, false, ◌&&◌, ◌||◌, not, if◌then◌else◌, ◌==◌, List, [], ◌∷◌,
}
use lock_free_queues.Prelude.Int.{ℤ, pos, negsuc}
use lock_free_queues.SpmcQueue.{PopPc, aborted}
use lock_free_queues.Bench.Burst.{EpochMetrics, epoch_count, epoch_metrics, total_cycles}
use lock_free_queues.Bench.BurstThreads.{Place, finished, Burst, Actor, run, start}

-- The benchmark goes on, has thrown, has ended the process by std::abort or std::terminate, or has
-- returned, with its metrics and the sum of their cycles.
pub data Outcome : Type 0 where
  running threw ended : Outcome
  returned : (metrics : List EpochMetrics) (total_processing_cycles : ℕ) → Outcome

abbrev pub is_aborted : {A : Type 0} → PopPc A → Bool
is_aborted aborted = true
is_aborted _ = false

-- A `pop` of one of the first `count` consumers has called std::abort.
unfoldable pub any_aborted : {A : Type 0} → ℕ → Burst A → Bool
any_aborted zero s = false
any_aborted (suc c) s = is_aborted (s.queue.consumers c).pc || any_aborted c s

abbrev pub is_finished : Place → Bool
is_finished finished = true
is_finished _ = false

-- The main thread has joined the threads of the first `count` consumers.
unfoldable pub joined : {A : Type 0} → ℕ → Burst A → Bool
joined zero s = is_finished s.producer
joined (suc c) s = is_finished (s.places c) && joined c s

-- Whether pthread_setaffinity_np serves the first `count` consumers and the main thread; `pinned`
-- is what it says of a CPU. An exception of pin_thread_to_cpu leaves a thread, or the function with
-- its threads not joined.
unfoldable pub all_pinned : (ℕ → Bool) → ℕ → Bool
all_pinned pinned zero = pinned 1
all_pinned pinned (suc c) = pinned (c + 2) && all_pinned pinned c

-- `consumer_done_cycles` from consumer `c` on, for `count` consumers.
unfoldable pub readings : (ℕ → ℕ) → ℕ → ℕ → List ℕ
readings done_cycles c zero = []
readings done_cycles c (suc count) = done_cycles c ∷ readings done_cycles (c + 1) count

-- The clock readings are arguments: the producer's at the start of each epoch, and that of each
-- consumer at the end of each epoch. So is whether the file of the metrics can be opened, without
-- which export_epoch_metrics_csv calls std::abort.
module _ (bits width : ℕ) {A : Type 0} (changes : ℕ → ℕ → A) (n burst : ℕ) (blank : ℕ → ℕ → A)
    (pinned : ℕ → Bool) (opened : Bool) (producer_start : ℕ → ℕ) (consumer_done : ℕ → ℕ → ℕ) where
  unfoldable pub metrics_of : ℕ → List EpochMetrics
  metrics_of consumer_count =
      epoch_metrics n burst producer_start (λ epoch. consumer_done epoch 0)
        (λ epoch. readings (consumer_done epoch) 1 (consumer_count - 1)) (epoch_count n burst) 0

  -- What has come of it when the threads have had these turns.
  unfoldable pub after_turns : ℕ → Burst A → Outcome
  after_turns consumer_count s =
      let metrics = metrics_of consumer_count in
      if any_aborted consumer_count s
      then ended
      else if joined consumer_count s
      then (if opened then returned metrics (total_cycles metrics 0) else ended)
      else running

  unfoldable pub run_burst_bench : List Actor → ℤ → Outcome
  run_burst_bench turns (negsuc k) = threw
  run_burst_bench turns (pos consumer_count) =
      let s =
        run bits width changes n burst consumer_count turns
          (start bits width changes n burst consumer_count blank) in
      if consumer_count == 0
      then threw
      else if not (all_pinned pinned consumer_count)
      then ended
      else after_turns consumer_count s
