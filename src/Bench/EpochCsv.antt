-- ===== src/Bench/EpochCsv.antt =====
-- `export_epoch_metrics_csv` of src/spmc_burst_bench.cpp: the rows of the file. The quotient in
-- doubles at the end of each row is left out.
use lock_free_queues.Prelude.{ℕ, ◌+◌, ◌<◌, ◌≡◌, refl, List, [], ◌∷◌, Option, some, ◌>>=◌}
use lock_free_queues.Bench.Clock.{cycles_to_ns}
use lock_free_queues.Bench.Burst.{EpochMetrics}
use lock_free_queues.Bench.Report.Facts.{converts}

pub record Row : Type 0 where
  pub epoch : ℕ
  pub metric : EpochMetrics
  pub processing_ns : ℕ

-- The loop, at `epoch`, over the metrics that are left.
unfoldable pub rows_from : ℕ → ℕ → List EpochMetrics → Option (List Row)
rows_from tsc_freq epoch [] = some []
rows_from tsc_freq epoch (metric ∷ metrics) = do
  ns ← cycles_to_ns metric.processing_cycles tsc_freq
  rest ← rows_from tsc_freq (epoch + 1) metrics
  some (record { epoch = epoch; metric = metric; processing_ns = ns } ∷ rest)

unfoldable pub export_epoch_metrics : ℕ → List EpochMetrics → Option (List Row)
unfolding rows_from
export_epoch_metrics tsc_freq metrics = rows_from tsc_freq 0 metrics

-- Row `i` is that of epoch `epoch + i`.
abbrev pub Lists : ℕ → ℕ → List EpochMetrics → List Row → Type 0
Lists freq epoch [] rows = rows ≡ []
Lists freq epoch (m ∷ ms) [] = [] ≡ m ∷ ms
Lists freq epoch (m ∷ ms) (row ∷ rows) =
    (row.epoch ≡ epoch)
    × (row.metric ≡ m)
    × (cycles_to_ns m.processing_cycles freq ≡ some row.processing_ns)
    × Lists freq (epoch + 1) ms rows

rows_from-Lists :
    (freq epoch : ℕ) (ms : List EpochMetrics)
    → 0 < freq
    → (rows : List Row) × (rows_from freq epoch ms ≡ some rows) × Lists freq epoch ms rows
unfolding rows_from
rows_from-Lists freq epoch [] pos = ([], refl, refl)
rows_from-Lists freq epoch (m ∷ ms) pos =
    let (ns, e) = converts m.processing_cycles freq pos in
    let (rows, ok, rest) = rows_from-Lists freq (epoch + 1) ms pos in
    (
      record { epoch = epoch; metric = m; processing_ns = ns } ∷ rows,
      rw (e, ok) refl,
      (refl, refl, e, rest),
    )

-- At a positive frequency the file has one row for each epoch, in order, with the number of the
-- epoch, its metrics and its time in nanoseconds.
pub export_epoch_metrics-Lists :
    (freq : ℕ) (ms : List EpochMetrics)
    → 0 < freq
    → (rows : List Row) × (export_epoch_metrics freq ms ≡ some rows) × Lists freq 0 ms rows
unfolding export_epoch_metrics
export_epoch_metrics-Lists freq ms pos = rows_from-Lists freq 0 ms pos
