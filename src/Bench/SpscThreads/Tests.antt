-- ===== src/Bench/SpscThreads/Tests.antt =====
-- The threads of a small SPSC benchmark, and the theorems there.
use mathlib.Core.List.{flatten}
use lock_free_queues.Prelude.{
  ℕ, zero, suc, ◌+◌, ◌*◌, ◌≡◌, ◌≤◌, ◌<◌, ◌⊎◌, inl, inr, refl, List, [], ◌∷◌, arith,
}
use lock_free_queues.Memory.Copy.{read_cells}
use lock_free_queues.Memory.Messages.{objects}
use lock_free_queues.SpscQueue.{wrap, is_full, used}
use lock_free_queues.SpscQueue.Contents.{capacity}
use lock_free_queues.SpscQueue.Threads.{Turn, producer, consumer, push_step, pop_step, turn, init}
use lock_free_queues.Bench.SpscRun
use lock_free_queues.Bench.SpscThreads.{
  through, exported, threw, produce, consume, step, run, start,
}
use lock_free_queues.Bench.SpscThreads.Delivery.{ConsumerEnd, MainEnd, spsc_consumer_receives}
use lock_free_queues.Bench.SpscThreads.Seen.{abstract_of}
use lock_free_queues.Bench.SpscThreads.Refines.{refines_bench_run}
use lock_free_queues.Bench.SpscThreads.Limit.{enough_rounds}
use lock_free_queues.Bench.SpscThreads.Finish.{AllFair, spsc_bench_ends}

-- Two changes of one word each.
abbrev changes : ℕ → ℕ → ℕ
changes i k = 10 * i + 7

abbrev blank : ℕ → ℕ → ℕ
blank j k = 99

abbrev rounds : ℕ → List (List Turn)
rounds zero = []
rounds (suc k) = (producer ∷ consumer ∷ []) ∷ (consumer ∷ producer ∷ producer ∷ []) ∷ rounds k

small_run_exports :
    let s = run 1 changes 2 (flatten (rounds 20)) (start blank) in
    (s.got ≡ (7 ∷ []) ∷ (17 ∷ []) ∷ []) × (s.pc ≡ exported) × (s.main_pc ≡ through)
unfolding run start init step produce consume turn push_step pop_step wrap is_full used read_cells
    flatten
small_run_exports = (refl, refl, refl)

-- In the middle of the run.
spsc_consumer_receives_example :
    let s = run 1 changes 2 (flatten (rounds 6)) (start blank) in
    (s.got ≡ objects 1 changes 0 s.received)
    × (s.received ≤ s.queue.pushes)
    × (s.queue.pushes ≤ 2)
    × ConsumerEnd 1 changes 2 s.pc s
    × MainEnd 1 changes 2 s.main_pc s
spsc_consumer_receives_example = spsc_consumer_receives 1 changes 2 blank (flatten (rounds 6))

refines_bench_run_example :
    (us : List SpscRun.Turn) × (SpscRun.run capacity 2 us SpscRun.start
      ≡ abstract_of (run 1 changes 2 (flatten (rounds 6)) (start blank)))
refines_bench_run_example = refines_bench_run 1 changes 2 blank (flatten (rounds 6))

rounds-AllFair : (k : ℕ) → AllFair (rounds k)
rounds-AllFair zero = tt
rounds-AllFair (suc k) = (inl refl, inr (inl refl), (inr (inl refl), inl refl, rounds-AllFair k))

spsc_bench_ends_example :
    let s = run 1 changes 2 (flatten (rounds 20)) (start blank) in
    ((s.main_pc ≡ through) × (s.got ≡ objects 1 changes 0 2))
    ⊎ ((s.pc ≡ threw) × (s.received < 2) × (s.queue.pushes ≡ 2))
unfolding enough_rounds
spsc_bench_ends_example =
    spsc_bench_ends 1 changes 2 blank (rounds 20) (rounds-AllFair 20) (omega arith)
