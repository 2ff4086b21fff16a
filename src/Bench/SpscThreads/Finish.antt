-- ===== src/Bench/SpscThreads/Finish.antt =====
-- Fair schedules of the threads of `spsc_bench` of src/main.cpp.
use mathlib.Core.List.{flatten}
use lock_free_queues.Prelude.{
  ℕ, suc, ◌+◌, ◌≤◌, ◌<◌, ◌≡◌, ◌⊎◌, inl, inr, refl, sym, ap, ◌∙◌, subst, arith, List, [], ◌∷◌, ◌++◌,
  dec_lt, lt→ltb, le→ltb, Has, length,
}
use lock_free_queues.Memory.Messages.{objects}
use lock_free_queues.SpscQueue.Threads.{Turn, producer, consumer}
use lock_free_queues.Bench.SpscThreads.{
  ProducerPc, sending, joining, through, threw, Bench, produce, consume, step, run, start,
}
use lock_free_queues.Bench.SpscThreads.Invariant.{Kept, Known, Joined}
use lock_free_queues.Bench.SpscThreads.Steps.{step-Kept, run-Kept, start-Kept}
use lock_free_queues.Bench.SpscThreads.Rounds.{total, total-round, consume-Spares}
use lock_free_queues.Bench.SpscThreads.Limit.{enough_rounds, total-le}
use lock_free_queues.Bench.SpscThreads.Deadlock.{Ended, no_deadlock}

-- In a fair round both threads have a turn.
abbrev pub AllFair : List (List Turn) → Type 0
AllFair [] = Unit
AllFair (turns ∷ rounds) = Has producer turns × Has consumer turns × AllFair rounds

module _ (width : ℕ) {A : Type 0} (changes : ℕ → ℕ → A) (n : ℕ) where
  abbrev all_run : List Turn → Bench A → Bench A
  all_run = run width changes n

  -- What has ended stays so.
  produce-pc : (s : Bench A) (m : ProducerPc) → (produce width changes n s m).pc ≡ s.pc
  unfolding produce
  produce-pc s sending = elim (dec_lt s.queue.pushes n) [
    | yes more ↦ rw (lt→ltb s.queue.pushes n more) refl
    | no all ↦ rw (le→ltb s.queue.pushes n (omega arith)) refl
  ]
  produce-pc s joining = refl
  produce-pc s through = refl

  step-Ended :
      (t : Turn) (s : Bench A) → Kept width changes n s → Ended s → Ended (step width changes n t s)
  unfolding step produce consume
  step-Ended producer s k (inl at) = inl (produce-pc s s.main_pc ∙ at)
  step-Ended producer s k (inr at) = inr (ap (λ m. (produce width changes n s m).main_pc) at ∙ at)
  step-Ended consumer s k (inl at) = inl (ap (λ p. (consume width changes n s p).pc) at ∙ at)
  step-Ended consumer s k (inr at) = inr ((consume-Spares width changes n s s.pc k).0 ∙ at)

  run-Ended :
      (ts : List Turn) (s : Bench A) → Kept width changes n s → Ended s → Ended (all_run ts s)
  unfolding run
  run-Ended [] s k ended = ended
  run-Ended (t ∷ ts) s k ended =
      run-Ended ts (step width changes n t s) (step-Kept width changes n t k)
        (step-Ended t s k ended)

  run-append : (ts us : List Turn) (s : Bench A) → all_run (ts ++ us) s ≡ all_run us (all_run ts s)
  unfolding run
  run-append [] us s = refl
  run-append (t ∷ ts) us s = run-append ts us (step width changes n t s)

  turn_of : (t : Turn) (turns : List Turn) → Has producer turns → Has consumer turns → Has t turns
  turn_of producer turns p c = p
  turn_of consumer turns p c = c

  -- After fair rounds they have ended, or each of the rounds has added something.
  rounds_progress :
      (rounds : List (List Turn)) (s : Bench A)
      → AllFair rounds
      → Kept width changes n s
      → Ended (all_run (flatten rounds) s)
        ⊎ (total width changes n s + length rounds
            ≤ total width changes n (all_run (flatten rounds) s))
  unfolding flatten run
  rounds_progress [] s fair k = inr (omega arith)
  rounds_progress (turns ∷ rounds) s fair k =
      let rest = flatten rounds in
      let s' = all_run turns s in
      let later = run-Kept width changes n turns k in
      subst
        (λ t. Ended t ⊎ (total width changes n s + suc (length rounds) ≤ total width changes n t))
        (sym (run-append turns rest s))
        (elim (no_deadlock width changes n k) [
          | inl ended ↦ inl (run-Ended rest s' later (run-Ended turns s k ended))
          | inr (t, can) ↦
              let more =
                total-round width changes n t turns s (turn_of t turns fair.0 fair.1) k can in
              elim (rounds_progress rounds s' fair.2 later) [
                | inl ended ↦ inl ended
                | inr gained ↦ inr (omega arith)
              ]
        ])

  -- After more than `enough_rounds` rounds in each of which both threads have at least one turn, in
  -- any order, the SPSC benchmark has come to one of two ends: its main thread is behind `join` and
  -- the consumer has received every change, whole and in order, or the consumer has thrown, with
  -- changes missing though the producer has sent all.
  pub spsc_bench_ends :
      (blank : ℕ → ℕ → A) (rounds : List (List Turn))
      → AllFair rounds
      → enough_rounds width n < length rounds
      → let s = all_run (flatten rounds) (start blank) in
        ((s.main_pc ≡ through) × (s.got ≡ objects width changes 0 n))
        ⊎ ((s.pc ≡ threw) × (s.received < n) × (s.queue.pushes ≡ n))
  spsc_bench_ends blank rounds fair enough =
      elim (rounds_progress rounds (start blank) fair begin) [
        | inl (inl at) ↦
            let known = subst (λ p. Known n p s.received s.queue.pushes) at k.known in
            inr (at, known.0, known.1)
        | inl (inr at) ↦ inl (
          at,
          k.in_order
              ∙ ap (objects width changes 0)
                  (subst (λ m. Joined n m s.received s.queue.pushes) at k.joined),
        )
        | inr gained ↦ absurd (omega (arith, total-le width changes n k))
      ]
    where
      s : Bench A
      s = all_run (flatten rounds) (start blank)

      begin : Kept width changes n (start blank)
      begin = start-Kept width changes n blank

      k : Kept width changes n s
      k = run-Kept width changes n (flatten rounds) begin
