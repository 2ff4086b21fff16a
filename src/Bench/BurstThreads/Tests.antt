-- ===== src/Bench/BurstThreads/Tests.antt =====
-- The threads of a small burst benchmark, and the theorems there.
use lock_free_queues.Prelude.{
  Has, ℕ, zero, suc, ◌+◌, ◌*◌, ◌^◌, ◌≤◌, ◌≡◌, ◌⊎◌, inl, inr, ◌<◌, refl, List, [], ◌∷◌, ◌++◌, arith,
}
use lock_free_queues.Memory.Messages.{objects}
use lock_free_queues.SpmcQueue.{
  push_step, pop_step, check, recheck, expected_version, wrap, aborted,
}
use lock_free_queues.SpmcQueue.Invariant.{published}
use lock_free_queues.Bench.Burst.{epoch_count, epoch_start, epoch_messages}
use lock_free_queues.Bench.BurstThreads.{
  Actor, producer, consumer, finished, consumers_arrived, produce, consume, step, run, start,
}
use lock_free_queues.Bench.BurstThreads.Invariant.{passed}
use lock_free_queues.Bench.BurstThreads.Delivery.{
  reached, receives_every_change, aborts_within_epoch,
}
use lock_free_queues.Bench.BurstThreads.Barriers.{AllFinished}
use lock_free_queues.Bench.BurstThreads.Finish.{AllFair, finishes_or_aborts}
use lock_free_queues.Bench.BurstThreads.Limit.{enough_rounds}
use mathlib.Core.List.{flatten}

-- Three changes of one word each in bursts of two, through four slots to two consumers.
abbrev changes : ℕ → ℕ → ℕ
changes i k = 10 * i + 7

abbrev blank : ℕ → ℕ → ℕ
blank j k = 99

abbrev pushes : ℕ → List Actor
pushes zero = []
pushes (suc k) = producer ∷ pushes k

abbrev rounds : ℕ → List Actor
rounds zero = []
rounds (suc k) = (producer ∷ consumer 0 ∷ consumer 1 ∷ []) ++ rounds k

small_run_finishes :
    let s = reached 2 1 changes 3 2 2 blank (rounds 40) in
    ((s.queue.consumers 1).got ≡ (7 ∷ []) ∷ (17 ∷ []) ∷ (27 ∷ []) ∷ [])
    × (s.producer ≡ finished)
    × (s.places 0 ≡ finished)
    × (s.places 1 ≡ finished)
unfolding run start step produce consume consumers_arrived epoch_count epoch_start epoch_messages
    push_step pop_step check recheck expected_version wrap
small_run_finishes = (refl, refl, refl, refl)

-- In the middle of the second epoch.
receives_every_change_example :
    let s = reached 2 1 changes 3 2 2 blank (rounds 22) in
    (s.queue.consumers 1).got ≡ objects 1 changes 0 (passed 3 2 (s.places 1))
receives_every_change_example =
    receives_every_change 2 1 changes 3 2 2 (omega arith) (omega arith) blank (rounds 22) 1
      (omega arith) (omega arith)

-- Bursts of three through two slots: the consumer has its first turns after the third push.
abbrev late_consumer : List Actor
late_consumer = pushes 19 ++ (consumer 0 ∷ consumer 0 ∷ [])

aborts_within_epoch_example :
    let s = reached 1 1 changes 3 3 1 blank late_consumer in
    (e : ℕ) × (i : ℕ) × (e < epoch_count 3 3)
    × ((s.queue.consumers 0).got ≡ objects 1 changes 0 (e * 3 + i))
    × (i + 2 ^ 1 ≤ epoch_messages 3 3 e)
    × (e * 3 + i + 2 ^ 1 ≤ published s.queue.pc s.queue.pushed)
unfolding run start step produce consume consumers_arrived epoch_count epoch_start epoch_messages
    push_step pop_step check recheck expected_version wrap
aborts_within_epoch_example =
    aborts_within_epoch 1 1 changes 3 3 1 (omega arith) (omega arith) blank late_consumer 0
      (omega arith) (omega arith) refl

-- Rounds in which the threads take turns in one order and then in the other.
abbrev forth : List Actor
forth = producer ∷ consumer 0 ∷ consumer 1 ∷ []

abbrev back : List Actor
back = consumer 1 ∷ consumer 0 ∷ producer ∷ []

abbrev fair_rounds : ℕ → List (List Actor)
fair_rounds zero = []
fair_rounds (suc k) = forth ∷ back ∷ fair_rounds k

both_consumers :
    (turns : List Actor)
    → Has (consumer 0) turns
    → Has (consumer 1) turns
    → (c : ℕ) → c < 2
    → Has (consumer c) turns
both_consumers turns first second zero lt = first
both_consumers turns first second (suc zero) lt = second
both_consumers turns first second (suc (suc c)) lt = absurd (omega arith)

fair_rounds-AllFair : (k : ℕ) → AllFair 2 (fair_rounds k)
fair_rounds-AllFair zero = tt
fair_rounds-AllFair (suc k) = (
  (inl refl, both_consumers forth (inr (inl refl)) (inr (inr (inl refl)))),
  ((inr (inr (inl refl)), both_consumers back (inr (inl refl)) (inl refl)), fair_rounds-AllFair k),
)

finishes_or_aborts_example :
    let s = reached 2 1 changes 3 2 2 blank (flatten (fair_rounds 32)) in
    (AllFinished 3 2 2 s × ((c : ℕ) → c < 2 → (s.queue.consumers c).got ≡ objects 1 changes 0 3))
    ⊎ ((c : ℕ) × (c < 2) × ((s.queue.consumers c).pc ≡ aborted))
unfolding enough_rounds epoch_count flatten
finishes_or_aborts_example =
    finishes_or_aborts 2 1 changes 3 2 2 (omega arith) (omega arith) blank (fair_rounds 32)
      (fair_rounds-AllFair 32) (omega arith) (omega arith)

abbrev first_half : ℕ → ℕ
first_half epoch = 100 * epoch

abbrev ends : ℕ → ℕ → ℕ
ends epoch c = 100 * epoch + 50 + c
