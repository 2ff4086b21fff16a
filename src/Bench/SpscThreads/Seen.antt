-- ===== src/Bench/SpscThreads/Seen.antt =====
-- The state of `spsc_bench` with the queue seen as a count, and the main thread's steps there.
use lock_free_queues.Prelude.{
  ℕ, ◌+◌, ◌-◌, ◌<◌, ◌≡◌, ◌⊎◌, inl, inr, refl, sym, ap, ◌∙◌, arith, true, lt→ltb, le→ltb, dec_lt,
  ltb,
}
use lock_free_queues.Memory.Messages.{length-objects}
use lock_free_queues.SpscQueue.Contents.{capacity}
use lock_free_queues.SpscQueue.Threads.{
  Event, silent, pushed, refused, popped, missed, System, producer, turn, count,
}
use lock_free_queues.SpscQueue.Threads.Spec.{Does}
use lock_free_queues.SpscQueue.Threads.Invariant.{held, HoldsAll}
use lock_free_queues.Bench.SpscRun
use lock_free_queues.Bench.SpscThreads.{
  ProducerPc, sending, joining, through, ConsumerPc, looping, popping, tried, leaving, threw,
  exported, Bench, produce,
}
use lock_free_queues.Bench.SpscThreads.Turns.{push_turn, OfPush}
use lock_free_queues.Bench.SpscThreads.Invariant.{Kept}

abbrev pub abstract_pc : ConsumerPc → SpscRun.ConsumerPc
abstract_pc looping = SpscRun.looping
abstract_pc popping = SpscRun.looping
abstract_pc (tried read) = SpscRun.tried read
abstract_pc leaving = SpscRun.leaving
abstract_pc threw = SpscRun.threw
abstract_pc exported = SpscRun.exported

-- What is left when the queue is seen as the number of its objects.
abbrev pub abstract_of : {A : Type 0} → Bench A → SpscRun.Bench
abstract_of s = record {
  held = s.queue.pushes - s.queue.pops;
  running = s.running;
  sent = s.queue.pushes;
  received = s.received;
  pc = abstract_pc s.pc;
}

module _ (width : ℕ) {A : Type 0} (changes : ℕ → ℕ → A) (n : ℕ) where
  -- Nothing that shows, or one step there.
  abbrev pub Matches : Bench A → Bench A → Type 0
  Matches s s' =
      (abstract_of s' ≡ abstract_of s)
      ⊎ ((t : SpscRun.Turn) × (SpscRun.turn capacity n t (abstract_of s) ≡ abstract_of s'))

  abbrev pub counted : Bench A → ℕ → ℕ → SpscRun.Bench
  counted s held sent = record {
    held = held;
    running = s.running;
    sent = sent;
    received = s.received;
    pc = abstract_pc s.pc;
  }

  -- The producer after a step of `try_push`, which left the queue as `q`.
  pushed-Matches :
      (s : Bench A) (q : System A) (e : Event A)
      → HoldsAll width changes s.queue
      → OfPush e
      → Does capacity
          (held width changes s.queue.pushes s.queue.pops)
          e
          (held width changes q.pushes q.pops)
      → q.pushes ≡ count e s.queue.pushes
      → q.pops ≡ s.queue.pops
      → s.queue.pushes < n
      → Matches s (record s { queue = q })
  unfolding SpscRun.turn SpscRun.produce
  pushed-Matches s q silent inv of does pushes pops more = inl (
      ap (λ k. counted s (k - q.pops) k) pushes
      ∙ ap (λ k. counted s (s.queue.pushes - k) s.queue.pushes) pops)
  pushed-Matches s q refused inv of does pushes pops more = inl (
      ap (λ k. counted s (k - q.pops) k) pushes
      ∙ ap (λ k. counted s (s.queue.pushes - k) s.queue.pushes) pops)
  pushed-Matches s q (popped x) inv of does pushes pops more = absurd of
  pushed-Matches s q missed inv of does pushes pops more = absurd of
  pushed-Matches s q (pushed x) inv of does pushes pops more =
      let here = s.queue.pushes - s.queue.pops in
      let room : ltb here capacity ≡ true =
        ap (λ k. ltb k capacity) (sym (length-objects width changes s.queue.pops here)) ∙ does.0 in
      inr (
        SpscRun.producer,
        rw (lt→ltb s.queue.pushes n more, room)
            (ap (λ k. counted s k (s.queue.pushes + 1)) {x = here + 1} {y = q.pushes - q.pops}
                (omega (arith, inv.behind))
              ∙ ap (λ k. counted s (q.pushes - q.pops) k) (sym pushes)),
      )

  pub produce-Matches :
      (s : Bench A) (m : ProducerPc)
      → Kept width changes n s
      → s.main_pc ≡ m
      → Matches s (produce width changes n s m)
  unfolding produce SpscRun.turn SpscRun.produce
  produce-Matches s sending k at = elim (dec_lt s.queue.pushes n) [
    | yes more ↦
        let (q, e) = turn width changes producer s.queue in
        let (inv, of, does, pushes, pops) = push_turn width changes k.queue in
        rw (lt→ltb s.queue.pushes n more) (pushed-Matches s q e k.queue of does pushes pops more)
    | no all ↦
        rw (le→ltb s.queue.pushes n (omega arith))
          (inr (SpscRun.producer, rw (le→ltb s.queue.pushes n (omega arith)) refl))
  ]
  produce-Matches s joining k at = inl refl
  produce-Matches s through k at = inl refl
