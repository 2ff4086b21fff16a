-- ===== src/Bench/Tests.antt =====
-- The theorems on the benchmark programs at small inputs.
use lock_free_queues.Prelude.{
  ℕ, ◌+◌, ◌*◌, ◌%◌, ◌≡◌, ◌≢◌, refl, List, [], ◌∷◌, some, true, arith, length,
}
use lock_free_queues.Prelude.Words.{add64}
use lock_free_queues.Bench.Clock.{giga, Timespec, calibrate_tsc, Nearest, calibrate_tsc-Nearest}
use lock_free_queues.Bench.Report.Sums.{samples_at}
use lock_free_queues.Bench.Report.{
  p50, p95, p99, p999, as_int, Report, accumulate_int, export_latency_samples,
}
use lock_free_queues.Bench.Report.Facts.{
  Placed, count_at, sum, total, accumulate_int_wraps, export_latency_samples_lem,
}
use lock_free_queues.Bench.Samples.{
  isort, isort-IsSorting, rank, rank-IsRank, counting, counting-IsUniform,
}
use lock_free_queues.Bench.Workload.{make_random_changes, InBounds, make_random_changes_lem}
use lock_free_queues.Bench.SpscRun.{Turn, threw, run, start}
use lock_free_queues.Bench.SpscRun.Facts.{consumer_may_throw}
use lock_free_queues.Bench.DpdkRun.{Event, returned, enqueue_loop, main}
use lock_free_queues.Bench.DpdkRun.Facts.{main_never_returns}

abbrev at_second : ℕ → ℕ → Timespec
at_second n rest = record { tv_sec = n; tv_nsec = rest }

calibrate_tsc-Nearest_example :
    (freq : ℕ) × (calibrate_tsc
        (at_second 1 999_999_999)
        0xffff_ffff_ffff_ffff
        (at_second 3 7)
        (add64 0xffff_ffff_ffff_ffff 5)
      ≡ some freq)
    × Nearest (5 * giga) 1_000_000_008 freq
calibrate_tsc-Nearest_example =
    calibrate_tsc-Nearest (at_second 1 999_999_999) (at_second 3 7) 0xffff_ffff_ffff_ffff 5
      1_000_000_008 (omega arith) (omega arith) (omega arith) (omega arith) refl (omega arith)

accumulate_int_wraps_example :
    accumulate_int (0x8000_0000 ∷ 0x8000_0001 ∷ []) 0
    ≡ (0 + sum (0x8000_0000 ∷ 0x8000_0001 ∷ [])) % 4294967296
accumulate_int_wraps_example = accumulate_int_wraps (0x8000_0000 ∷ 0x8000_0001 ∷ []) 0 (omega arith)

make_random_changes_lem_example :
    (length (make_random_changes counting 1000 100_000 10 100_000 3 123456789) ≡ 3)
    × InBounds counting 1000 100_000 10 100_000
        (make_random_changes counting 1000 100_000 10 100_000 3 123456789)
make_random_changes_lem_example =
    make_random_changes_lem counting 1000 100_000 10 100_000 counting-IsUniform (omega arith)
      (omega arith) 3 123456789

consumer_may_throw_example :
    (ts : List Turn) × ((run 131071 2_000_000 ts start).pc ≡ threw)
    × ((run 131071 2_000_000 ts start).sent ≡ 2_000_000)
    × ((run 131071 2_000_000 ts start).held ≡ 1)
consumer_may_throw_example = consumer_may_throw 131071 2_000_000 (omega arith) (omega arith)

abbrev got_one : Event
got_one = record { rc = 0; running = true }

main_never_returns_example : main true true (got_one ∷ []) (got_one ∷ []) ≢ returned 0
unfolding enqueue_loop
main_never_returns_example =
    main_never_returns (0 ∷ 0 ∷ []) (got_one ∷ []) (got_one ∷ []) 0 (omega arith)

export_latency_samples_lem_example :
    (r : Report) × (export_latency_samples isort rank 3 (5 ∷ 3 ∷ 9 ∷ []) ≡ some (some r))
    × Placed isort rank isort-IsSorting rank-IsRank 3 (5 ∷ 3 ∷ 9 ∷ []) p50 r.p50_ns
    × Placed isort rank isort-IsSorting rank-IsRank 3 (5 ∷ 3 ∷ 9 ∷ []) p95 r.p95_ns
    × Placed isort rank isort-IsSorting rank-IsRank 3 (5 ∷ 3 ∷ 9 ∷ []) p99 r.p99_ns
    × Placed isort rank isort-IsSorting rank-IsRank 3 (5 ∷ 3 ∷ 9 ∷ []) p999 r.p999_ns
    × ((ns : ℕ) → count_at ns r.rows ≡ samples_at 3 ns (5 ∷ 3 ∷ 9 ∷ []))
    × (total r.rows ≡ length {A = ℕ} (5 ∷ 3 ∷ 9 ∷ []))
    × (r.elapsed ≡ as_int (sum (5 ∷ 3 ∷ 9 ∷ []) % 4294967296))
export_latency_samples_lem_example =
    export_latency_samples_lem isort rank isort-IsSorting rank-IsRank 3 5 (3 ∷ 9 ∷ []) (omega arith)
      (omega arith)
