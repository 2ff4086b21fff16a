-- ===== src/Bench/BurstRun/Facts.antt =====
-- How `run_spmc_burst_bench` of src/spmc_burst_bench.cpp ends.
use lock_free_queues.Prelude.{ℕ, ◌<◌, ◌≡◌, Bool, List, length, get_elem?, some}
use lock_free_queues.Prelude.Words.{sub64}
use lock_free_queues.Bench.Burst.{EpochMetrics, epoch_count, epoch_messages}
use lock_free_queues.Bench.Burst.Facts.{sum_messages}
use lock_free_queues.Bench.BurstThreads.{Burst}
use lock_free_queues.Bench.BurstRun.Slowest.{Slowest}

module _ (bits width : ℕ) {A : Type 0} (changes : ℕ → ℕ → A) (n burst : ℕ) (blank : ℕ → ℕ → A)
    (pinned : ℕ → Bool) (opened : Bool) (producer_start : ℕ → ℕ) (consumer_done : ℕ → ℕ → ℕ) where
  -- The metrics of a run that returns.
  abbrev pub Measured : ℕ → List EpochMetrics → Type 0
  Measured count ms =
      (length ms ≡ epoch_count n burst)
      × (sum_messages ms ≡ n)
      × ((epoch : ℕ)
          → epoch < epoch_count n burst
          → (slowest : ℕ) × Slowest (consumer_done epoch) count slowest
            × (get_elem? ms epoch
                ≡ some (record {
                  messages = epoch_messages n burst epoch;
                  processing_cycles = sub64 slowest (producer_start epoch);
                })))
