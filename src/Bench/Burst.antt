-- ===== src/Bench/Burst.antt =====
-- `run_spmc_burst_bench` of src/spmc_burst_bench.cpp: the messages in epochs, and the metrics of each.
pub mod Facts
use lock_free_queues.Prelude.{
  ℕ, zero, suc, ◌+◌, ◌-◌, ◌*◌, ◌/◌, ◌≤◌, ◌<◌, ◌≡◌, refl, sym, ap, ap₂, ◌∙◌, List, [], ◌∷◌, ◌++◌,
  arith, length, if◌then◌else◌, ◌==◌, min, ltb, take, drop, take-append-drop, drop-drop,
  length-take, length-drop, Option, none, some, dec_lt, dec_le, append-nil,
}
use lock_free_queues.Prelude.Words.{add64, sub64, mul64, word_mod}

abbrev pub total_messages : ℕ
total_messages = 2_000_000

abbrev pub burst_size : ℕ
burst_size = 655_360

-- `epoch_count` of `n` messages in bursts of `burst`.
unfoldable pub epoch_count : ℕ → ℕ → ℕ
epoch_count n burst = sub64 (add64 n burst) 1 / burst

unfoldable pub epoch_start : ℕ → ℕ → ℕ
epoch_start burst epoch = mul64 epoch burst

unfoldable pub epoch_messages : ℕ → ℕ → ℕ → ℕ
epoch_messages n burst epoch = min burst (sub64 n (epoch_start burst epoch))

-- `EpochMetrics`
pub record EpochMetrics : Type 0 where
  pub messages : ℕ
  pub processing_cycles : ℕ

-- *std::max_element; `consumer_done_cycles` has an item for each consumer.
unfoldable pub max_element : ℕ → List ℕ → ℕ
max_element best [] = best
max_element best (x ∷ xs) = max_element (if ltb best x then x else best) xs

-- std::accumulate with a start value of type uint64_t.
unfoldable pub total_cycles : List EpochMetrics → ℕ → ℕ
total_cycles [] sum = sum
total_cycles (m ∷ ms) sum = total_cycles ms (add64 sum m.processing_cycles)

module _ {ℓ} {T : Type ℓ} (burst : ℕ) (changes : List T) where
  -- The producer's inner loop: it pushes changes[start], ..., changes[start + count - 1].
  unfoldable pub epoch_pushes : ℕ → List T
  epoch_pushes epoch =
      take (epoch_messages (length changes) burst epoch) (drop (epoch_start burst epoch) changes)

  -- The outer loop: `epochs` rounds to go from `epoch` on.
  unfoldable pub all_pushes : ℕ → ℕ → List T
  all_pushes zero epoch = []
  all_pushes (suc epochs) epoch = epoch_pushes epoch ++ all_pushes epochs (epoch + 1)

-- The clock readings are arguments: the producer's at the start of each epoch, and each consumer's
-- at its end, that of the first consumer apart.
module _ (n burst : ℕ) (producer_start : ℕ → ℕ) (first_done : ℕ → ℕ)
    (others_done : ℕ → List ℕ) where
  unfoldable pub epoch_metrics : ℕ → ℕ → List EpochMetrics
  epoch_metrics zero epoch = []
  epoch_metrics (suc epochs) epoch =
      record {
        messages = epoch_messages n burst epoch;
        processing_cycles =
            sub64 (max_element (first_done epoch) (others_done epoch)) (producer_start epoch);
      }
      ∷ epoch_metrics epochs (epoch + 1)
