-- ===== src/Bench/SpscThreads/Refines.antt =====
-- The threads of `spsc_bench` over the steps of `SPSCQueue` as a run over a queue that is a count.
use lock_free_queues.Prelude.{
  ℕ, ◌+◌, ◌-◌, ◌<◌, ◌≡◌, inl, inr, refl, sym, ap, ap₂, ◌∙◌, arith, List, [], ◌∷◌, Bool, true, false,
  not, ◌&&◌, if◌then◌else◌, lt→ltb, le→ltb, ne→==, dec_lt, ==_iff, ◌==◌,
}
use lock_free_queues.SpscQueue.Contents.{capacity}
use lock_free_queues.SpscQueue.Threads.{
  Event, silent, pushed, refused, popped, missed, System, Turn, producer, consumer, turn, init,
  count,
}
use lock_free_queues.SpscQueue.Threads.Invariant.{held}
use lock_free_queues.Bench.SpscRun
use lock_free_queues.Bench.SpscThreads.{
  ConsumerPc, looping, popping, tried, leaving, threw, exported, Bench, after_pop, consume, step,
  run, start,
}
use lock_free_queues.Bench.SpscThreads.Turns.{Shows, pop_turn}
use lock_free_queues.Bench.SpscThreads.Invariant.{Kept, Known}
use lock_free_queues.Bench.SpscThreads.Steps.{step-Kept, start-Kept}
use lock_free_queues.Bench.SpscThreads.Seen.{
  abstract_pc, abstract_of, Matches, counted, produce-Matches,
}

module _ (width : ℕ) {A : Type 0} (changes : ℕ → ℕ → A) (n : ℕ) where
  -- The same, but for how the queue is written.
  queue_at :
      {running : Bool} {sent : ℕ} (received : ℕ) (p : ConsumerPc) (held : ℕ) (q : System A)
      → held ≡ q.pushes - q.pops
      → sent ≡ q.pushes
      → Path SpscRun.Bench
          (record {
            held = held;
            running = running;
            sent = sent;
            received = received;
            pc = abstract_pc p;
          })
          (record {
            held = q.pushes - q.pops;
            running = running;
            sent = q.pushes;
            received = received;
            pc = abstract_pc p;
          })
  queue_at {running} {sent} received p held q e e' =
      ap₂
        (λ h k. record {
          held = h;
          running = running;
          sent = k;
          received = received;
          pc = abstract_pc p;
        })
        e e'

  -- The consumer after a step of `try_pop`, which left the queue as `q`.
  popped-Matches :
      (s : Bench A) (q : System A) (e : Event A)
      → Kept width changes n s
      → s.received < n
      → s.pc ≡ popping
      → Shows width changes s.queue.pushes s.queue.pops e
      → q.pops ≡ count e s.queue.pops
      → q.pushes ≡ s.queue.pushes
      → Matches width changes n s (after_pop width changes n (record s { queue = q }) e)
  unfolding SpscRun.turn SpscRun.consume
  popped-Matches s q silent k more at shows pops pushes = inl (
      ap (λ j. counted width changes n s (j - q.pops) j) pushes
      ∙ ap (λ j. counted width changes n s (s.queue.pushes - j) s.queue.pushes) pops)
  popped-Matches s q (pushed x) k more at shows pops pushes = absurd shows
  popped-Matches s q refused k more at shows pops pushes = absurd shows
  popped-Matches s q missed k more at shows pops pushes =
      let none_held = (==_iff (s.queue.pushes - s.queue.pops) 0).1 (omega (arith, shows)) in
      inr (
        SpscRun.consumer,
        ap (λ p. SpscRun.consume capacity n (abstract_of s) (abstract_pc p)) at
            ∙ rw (lt→ltb s.received n more, none_held)
                (queue_at s.received (tried false) (s.queue.pushes - s.queue.pops) q (omega arith)
                  (sym pushes)),
      )
  popped-Matches s q (popped x) k more at shows pops pushes =
      let some_held = ne→== (s.queue.pushes - s.queue.pops) 0 (omega (arith, shows.0)) in
      inr (
        SpscRun.consumer,
        ap (λ p. SpscRun.consume capacity n (abstract_of s) (abstract_pc p)) at
            ∙ rw (lt→ltb s.received n more, some_held)
                (queue_at (s.received + 1) (tried true) (s.queue.pushes - s.queue.pops - 1) q
                  (omega arith) (sym pushes)),
      )

  consume-Matches :
      (s : Bench A) (p : ConsumerPc)
      → Kept width changes n s
      → s.pc ≡ p
      → Known n p s.received s.queue.pushes
      → Matches width changes n s (consume width changes n s p)
  unfolding consume SpscRun.turn SpscRun.consume
  consume-Matches s looping k at known = elim (dec_lt s.received n) [
    | yes more ↦
        rw (lt→ltb s.received n more)
          (inl (ap (λ p. record (abstract_of s) { pc = abstract_pc p }) (sym at)))
    | no all ↦ rw (le→ltb s.received n (omega arith)) (
        inr (
          SpscRun.consumer,
          ap (λ p. SpscRun.consume capacity n (abstract_of s) (abstract_pc p)) at
              ∙ rw (le→ltb s.received n (omega arith)) refl,
        ))
  ]
  consume-Matches s popping k at known =
      let (q, e) = turn width changes consumer s.queue in
      let (inv, shows, pops, pushes) = pop_turn width changes k.queue in
      popped-Matches s q e k known at shows pops pushes
  consume-Matches s (tried read) k at known = inr (
    SpscRun.consumer,
    ap (λ p. SpscRun.consume capacity n (abstract_of s) (abstract_pc p)) at
        ∙ leaves (not s.running && not read),
  )
    where
      leaves :
          (b : Bool)
          → Path SpscRun.Bench
              (record (abstract_of s) { pc = if b then SpscRun.leaving else SpscRun.looping })
              (record (abstract_of s) { pc = abstract_pc (if b then leaving else looping) })
      leaves true = refl
      leaves false = refl
  consume-Matches s leaving k at known = inr (
    SpscRun.consumer,
    ap (λ p. SpscRun.consume capacity n (abstract_of s) (abstract_pc p)) at
        ∙ ends (s.received == n),
  )
    where
      ends :
          (b : Bool)
          → Path SpscRun.Bench
              (record (abstract_of s) { pc = if b then SpscRun.exported else SpscRun.threw })
              (record (abstract_of s) { pc = abstract_pc (if b then exported else threw) })
      ends true = refl
      ends false = refl
  consume-Matches s threw k at known = inl refl
  consume-Matches s exported k at known = inl refl

  step-Matches :
      (t : Turn) (s : Bench A)
      → Kept width changes n s
      → Matches width changes n s (step width changes n t s)
  unfolding step
  step-Matches producer s k = produce-Matches width changes n s s.main_pc k refl
  step-Matches consumer s k = consume-Matches s s.pc k refl k.known

  run-Matches :
      (ts : List Turn) (s : Bench A)
      → Kept width changes n s
      → (us : List SpscRun.Turn) × (SpscRun.run capacity n us (abstract_of s)
          ≡ abstract_of (run width changes n ts s))
  unfolding run SpscRun.run
  run-Matches [] s k = ([], refl)
  run-Matches (t ∷ ts) s k =
      let (us, rest) = run-Matches ts (step width changes n t s) (step-Kept width changes n t k) in
      elim (step-Matches t s k) [
        | inl same ↦ (us, ap (SpscRun.run capacity n us) (sym same) ∙ rest)
        | inr (u, next) ↦ (u ∷ us, ap (SpscRun.run capacity n us) next ∙ rest)
      ]

  -- For any schedule of the shared accesses of the two threads of the SPSC benchmark there is one in
  -- which every call of the queue is a single step, and the queue a count of at most `capacity`
  -- objects, that comes to the same: the same loop counters, the same `running`, the same objects
  -- held, as a number, and the same place of the consumer, which
  -- is at the head of its loop there while it is in `try_pop`.
  pub refines_bench_run :
      (blank : ℕ → ℕ → A) (ts : List Turn)
      → (us : List SpscRun.Turn) × (SpscRun.run capacity n us SpscRun.start
          ≡ abstract_of (run width changes n ts (start blank)))
  unfolding start SpscRun.start init
  refines_bench_run blank ts = run-Matches ts (start blank) (start-Kept width changes n blank)
