-- ===== src/Bench/BurstThreads/Finish.antt =====
-- Fair schedules of the threads of src/spmc_burst_bench.cpp.
use mathlib.Core.List.{flatten}
use lock_free_queues.Prelude.{
  Has, ℕ, suc, ◌+◌, ◌≤◌, ◌<◌, ◌≡◌, ◌≢◌, ◌⊎◌, refl, sym, ap, ◌∙◌, subst, arith, inl, inr, List, [],
  ◌∷◌, ◌++◌, length, length-append,
}
use lock_free_queues.Prelude.Words.{word_mod}
use lock_free_queues.Memory.Messages.{objects}
use lock_free_queues.SpmcQueue.{PopPc, making, waiting, copying, aborted}
use lock_free_queues.SpmcQueue.Invariant.{bound}
use lock_free_queues.Bench.BurstThreads.{Burst, Actor, producer, consumer, run, start}
use lock_free_queues.Bench.BurstThreads.Invariant.{passed}
use lock_free_queues.Bench.BurstThreads.Producing.{BurstInv}
use lock_free_queues.Bench.BurstThreads.Barriers.{Can, AllFinished}
use lock_free_queues.Bench.BurstThreads.Deadlock.{search_below, no_deadlock}
use lock_free_queues.Bench.BurstThreads.Others.{AllWell, AllWell-run, run-AllFinished}
use lock_free_queues.Bench.BurstThreads.Rounds.{total, total-round}
use lock_free_queues.Bench.BurstThreads.Delivery.{
  run-BurstInv, start-BurstInv, reached, receives_every_change,
}
use lock_free_queues.Bench.BurstThreads.Limit.{enough_rounds, total-le}

-- In a fair round every thread has a turn.
abbrev pub IsFair : ℕ → List Actor → Type 0
IsFair consumer_count turns =
    Has producer turns × ((c : ℕ) → c < consumer_count → Has (consumer c) turns)

abbrev pub AllFair : ℕ → List (List Actor) → Type 0
AllFair consumer_count [] = Unit
AllFair consumer_count (turns ∷ rounds) =
    IsFair consumer_count turns × AllFair consumer_count rounds

Has-fair :
    (consumer_count : ℕ) (turns : List Actor)
    → IsFair consumer_count turns
    → (a : Actor) → ((c : ℕ) → a ≡ consumer c → c < consumer_count)
    → Has a turns
Has-fair consumer_count turns fair producer lt = fair.0
Has-fair consumer_count turns fair (consumer c) lt = fair.1 c (lt c refl)

abbrev actor_number : Actor → ℕ
actor_number producer = 0
actor_number (consumer c) = c

module _ (bits width : ℕ) {A : Type 0} (changes : ℕ → ℕ → A) (n burst consumer_count : ℕ) where
  abbrev all_run : List Actor → Burst A → Burst A
  all_run = run bits width changes n burst consumer_count

  run-append : (ts us : List Actor) (s : Burst A) → all_run (ts ++ us) s ≡ all_run us (all_run ts s)
  unfolding run
  run-append [] us s = refl
  run-append (t ∷ ts) us s = run-append ts us _

  abbrev Inv' : ℕ → Burst A → Type 0
  Inv' = BurstInv bits width changes n burst consumer_count

  abbrev done_by : Burst A → ℕ
  done_by = total bits width changes n burst consumer_count

  module _ (pos : 0 < burst) (fit : n + burst < word_mod) where
    actor_below :
        (a : Actor) (s : Burst A)
        → Can n burst consumer_count a s
        → (c : ℕ) → a ≡ consumer c
        → c < consumer_count
    actor_below producer s can c same = absurd (cc)
    actor_below (consumer d) s can c same = omega (arith, can.0, ap actor_number same)

    -- After fair rounds all have finished, or each of the rounds has added something.
    rounds_progress :
        (rounds : List (List Actor)) (left : ℕ) {s : Burst A}
        → AllFair consumer_count rounds
        → BurstInv bits width changes n burst consumer_count (length (flatten rounds) + left) s
        → AllWell bits width changes n burst consumer_count (all_run (flatten rounds) s)
        → AllFinished n burst consumer_count (all_run (flatten rounds) s)
          ⊎ (done_by s + length rounds ≤ done_by (all_run (flatten rounds) s))
    unfolding flatten run
    rounds_progress [] left fair inv well = inr (omega arith)
    rounds_progress (turns ∷ rounds) left {s} fair inv well =
        let rest = flatten rounds in
        let inv' : Inv' (length turns + (length rest + left)) s =
          subst (λ k. Inv' k s) (omega (arith, length-append turns rest)) inv in
        let later : Inv' (length rest + left) (all_run turns s) =
          run-BurstInv bits width changes n burst consumer_count pos fit turns inv' in
        let well' =
          subst (AllWell bits width changes n burst consumer_count) (run-append turns rest s)
            well in
        subst
          (λ t.
            AllFinished n burst consumer_count t ⊎ (done_by s + suc (length rounds) ≤ done_by t))
          (sym (run-append turns rest s))
          (elim (no_deadlock n burst consumer_count bits width changes inv) [
            | inl done ↦ inl (
                run-AllFinished bits width changes n burst consumer_count rest (all_run turns s)
                  (run-AllFinished bits width changes n burst consumer_count turns s done))
            | inr (a, can) ↦
                let more =
                  total-round bits width changes n burst consumer_count pos fit a turns
                    (length rest + left)
                    (Has-fair consumer_count turns fair.0 a (actor_below a s can)) inv' can
                    (AllWell-run bits width changes n burst consumer_count rest (all_run turns s)
                      well') in
                elim (rounds_progress rounds left fair.1 later well') [
                  | inl done ↦ inl done
                  | inr gained ↦ inr (omega arith)
                ]
          ])

    is_aborted : {B : Type 0} (p : PopPc B) → (p ≢ aborted) ⊎ (p ≡ aborted)
    is_aborted making = inl (λ e. cc)
    is_aborted waiting = inl (λ e. cc)
    is_aborted (copying temp) = inl (λ e. cc)
    is_aborted aborted = inr refl

    module _ (blank : ℕ → ℕ → A) (rounds : List (List Actor)) where
      abbrev ended : Burst A
      ended = reached bits width changes n burst consumer_count blank (flatten rounds)

      begin :
          length (flatten rounds) < bound
          → Inv'
              (length (flatten rounds) + 0)
              (start bits width changes n burst consumer_count blank)
      begin steps =
          start-BurstInv bits width changes n burst consumer_count pos fit blank
            (length (flatten rounds) + 0) (omega arith)

      all_finish :
          AllFair consumer_count rounds
          → enough_rounds width n burst consumer_count < length rounds
          → length (flatten rounds) < bound
          → AllWell bits width changes n burst consumer_count ended
          → AllFinished n burst consumer_count ended
      all_finish fair enough steps well = elim (rounds_progress rounds 0 fair (begin steps) well) [
        | inl all ↦ all
        | inr gained ↦ absurd (
            omega (
              arith,
              total-le bits width changes n burst consumer_count pos fit (
                  run-BurstInv bits width changes n burst consumer_count pos fit (flatten rounds)
                    (begin steps)),
            ))
      ]

      -- For a positive burst size, and if messages and burst size add up to less than 2^64, after
      -- more than `enough_rounds` rounds in each of which the producer and every consumer has at
      -- least one turn, in any order, and that together are fewer than 2^62 steps, either the
      -- producer and all the consumers of the benchmark have finished, and each consumer has
      -- received every change, whole and in order, or one of the consumers has aborted.
      pub finishes_or_aborts :
          AllFair consumer_count rounds
          → enough_rounds width n burst consumer_count < length rounds
          → length (flatten rounds) < bound
          → (AllFinished n burst consumer_count ended
              × ((c : ℕ)
                  → c < consumer_count
                  → (ended.queue.consumers c).got ≡ objects width changes 0 n))
            ⊎ ((c : ℕ) × (c < consumer_count) × ((ended.queue.consumers c).pc ≡ aborted))
      finishes_or_aborts fair enough steps =
          elim (search_below (λ c. (ended.queue.consumers c).pc ≢ aborted)
            (λ c. (ended.queue.consumers c).pc ≡ aborted) consumer_count
            (λ c. is_aborted (ended.queue.consumers c).pc)) [
              | inr gone ↦ inr gone
              | inl well ↦
                  let done = all_finish fair enough steps well in
                  inl (
                    done,
                    λ c lt.
                        receives_every_change bits width changes n burst consumer_count pos fit
                          blank (flatten rounds) c steps lt
                        ∙ ap (λ p. objects width changes 0 (passed n burst p)) (done.1 c lt),
                  )
            ]
