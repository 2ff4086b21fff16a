-- ===== src/Bench/MainRun.antt =====
-- `main` of src/main.cpp: the burst benchmark for a range of consumer counts.
use lock_free_queues.Prelude.{ℕ, zero, suc, ◌+◌, List, [], ◌∷◌, Bool, leb, if◌then◌else◌, ltb, not}
use lock_free_queues.Prelude.Int.{ℤ, pos}
use lock_free_queues.Bench.Burst.{total_messages, burst_size}
use lock_free_queues.Bench.BurstThreads.{Actor}
use lock_free_queues.Bench.BurstRun.{Outcome, threw, returned, run_burst_bench}

-- The turns, the clock readings, the slots' first contents and whether the file opens in the run with
-- `i` consumers.
module _ (bits width : ℕ) {A : Type 0} (changes : ℕ → ℕ → A) (blank : ℕ → ℕ → ℕ → A)
    (pinned : ℕ → Bool) (opened : ℕ → Bool) (producer_start : ℕ → ℕ → ℕ)
    (consumer_done : ℕ → ℕ → ℕ → ℕ) (turns : ℕ → List Actor) where
  abbrev pub run : ℕ → Outcome
  run i =
      run_burst_bench bits width changes total_messages burst_size (blank i) pinned (opened i)
        (producer_start i) (consumer_done i) (turns i) (pos i)

  -- A run that has not returned is the last one.
  abbrev pub and_then : Outcome → List Outcome → List Outcome
  and_then (returned metrics total_processing_cycles) rest =
      returned metrics total_processing_cycles ∷ rest
  and_then outcome rest = outcome ∷ []

  -- The loop from `i` on, of `rounds` rounds at most.
  unfoldable pub runs_from : ℕ → ℕ → List Outcome
  runs_from zero i = []
  runs_from (suc rounds) i =
      let rest = runs_from rounds (i + 1) in if leb i 10 then and_then (run i) rest else []

  -- `argument` is std::atoi(argv[1]); the loop takes ten rounds at most. If the main thread is not
  -- pinned, an exception leaves `main` before it.
  unfoldable pub main : ℕ → ℤ → List Outcome
  unfolding runs_from
  main argc argument =
      let spmc_consumer_count = if ltb 1 argc then argument else pos 2 in
      if not (pinned 1) then threw ∷ [] else runs_from 10 2
