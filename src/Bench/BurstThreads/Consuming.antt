-- ===== src/Bench/BurstThreads/Consuming.antt =====
-- The consumers' steps keep the invariant of the burst benchmark's threads.
use lock_free_queues.Prelude.{
  ℕ, suc, ◌+◌, ◌-◌, ◌*◌, ◌≤◌, ◌<◌, ◌≡◌, refl, sym, ap, ◌∙◌, arith, length, Bool-cases, inl, inr,
  update, dec_lt, lt→ltb, le→ltb,
}
use lock_free_queues.Prelude.Words.{word_mod}
use lock_free_queues.Memory.Messages.{length-objects}
use lock_free_queues.SpmcQueue.{Shared, Consumer, pop_step}
use lock_free_queues.SpmcQueue.Pop.{pop_step-PopInv}
use lock_free_queues.SpmcQueue.System.{turn, consume as pop_turn}
use lock_free_queues.SpmcQueue.Invariant.{PopInv}
use lock_free_queues.SpmcQueue.Seqlock.{published-le}
use lock_free_queues.SpmcQueue.Delivery.{turn-Inv}
use lock_free_queues.Bench.Burst.{epoch_count, epoch_messages}
use lock_free_queues.Bench.BurstThreads.{
  Place, at_start, working, at_end, finished, Burst, arrivals, enter, everyone, consume,
}
use lock_free_queues.Bench.BurstThreads.Invariant.{phase, enter_lem}
use lock_free_queues.Bench.BurstThreads.Advance.{
  Advances, pop_step-Advances, update_all, update_both,
}
use lock_free_queues.Bench.BurstThreads.Producing.{Follows, BurstInv, pause, later}

module _ (bits width : ℕ) {A : Type 0} (changes : ℕ → ℕ → A) (n burst consumer_count : ℕ) where
  abbrev epochs : ℕ
  epochs = epoch_count n burst

  abbrev Here : Burst A → Place → Consumer A → Type 0
  Here s p k = Follows n burst p k × (phase epochs s.producer ≤ arrivals epochs p)

  abbrev Inv' : ℕ → Burst A → Type 0
  Inv' = BurstInv bits width changes n burst consumer_count

  here :
      {left : ℕ} {s : Burst A}
      → Inv' left s
      → (c : ℕ) → c < consumer_count
      → Here s (s.places c) (s.queue.consumers c)
  here inv c lt = (inv.following c lt, inv.together c lt)

  -- A consumer's thread goes on to `p` without an access of the queue.
  move_consumer :
      {left : ℕ} {s : Burst A} (c : ℕ) (p : Place)
      → Inv' (suc left) s
      → Here s p (s.queue.consumers c)
      → Inv' left (record s { places = update s.places c p })
  move_consumer {s = s} c p inv there = record {
    queue = later bits width changes n burst consumer_count inv.queue;
    leading = inv.leading;
    following = λ d lt. (all d lt).0;
    together = λ d lt. (all d lt).1;
  }
    where
      all : (d : ℕ) → d < consumer_count → Here s (update s.places c p d) (s.queue.consumers d)
      all =
          update_all (λ d p. d < consumer_count → Here s p (s.queue.consumers d)) s.places c p
            (λ _. there) (here inv)

  -- The same with one access of `pop`.
  move_popper :
      {left : ℕ} {s : Burst A} (c : ℕ) (p : Place)
      → Inv' (suc left) s
      → Here s p (pop_step bits width s.queue.mem (s.queue.consumers c) (s.queue.consumers c).pc)
      → Inv' left (record s {
        queue = record (s.queue) {
          consumers =
              update s.queue.consumers c
                (pop_step bits width s.queue.mem (s.queue.consumers c) (s.queue.consumers c).pc);
        };
        places = update s.places c p;
      })
  unfolding turn
  move_popper {s = s} c p inv there = record {
    queue = turn-Inv bits width changes (pop_turn c) inv.queue;
    leading = inv.leading;
    following = λ d lt. (all d lt).0;
    together = λ d lt. (all d lt).1;
  }
    where
      after : Consumer A
      after = pop_step bits width s.queue.mem (s.queue.consumers c) (s.queue.consumers c).pc

      all :
          (d : ℕ)
          → d < consumer_count
          → Here s (update s.places c p d) (update s.queue.consumers c after d)
      all =
          update_both (λ d p k. d < consumer_count → Here s p k) s.places s.queue.consumers c p
            after (λ _. there) (here inv)

  -- The objects that one access delivers are those by which `reader` grows.
  delivered :
      {m m' : ℕ} {mem mem' : Shared A} (k k' : Consumer A)
      → PopInv bits width changes m mem k
      → PopInv bits width changes m' mem' k'
      → Advances k k'
      → k.start ≡ 0
      → (k'.reader ≡ k.reader + (length k'.got - length k.got)) × (length k'.got - length k.got ≤ 1)
  delivered k k' inv inv' moved first = (
    omega (arith, counts, moved.start, moved.forth, first),
    omega (arith, counts, moved.start, moved.at_most, first),
  )
    where
      counts : (length k.got ≡ k.reader - k.start) × (length k'.got ≡ k'.reader - k'.start)
      counts = (
        ap length inv.in_order ∙ length-objects width changes k.start (k.reader - k.start),
        ap length inv'.in_order ∙ length-objects width changes k'.start (k'.reader - k'.start),
      )

  module _ (pos : 0 < burst) (fit : n + burst < word_mod) where
    pop-Here :
        {left : ℕ} {s : Burst A} (c e i : ℕ)
        → Inv' (suc left) s
        → Here s (working e i) (s.queue.consumers c)
        → i < epoch_messages n burst e
        → Here s
            (working e (
              i
              + (length
                    (pop_step bits width s.queue.mem
                      (s.queue.consumers c)
                      (s.queue.consumers c).pc).got
                  - length (s.queue.consumers c).got)))
            (pop_step bits width s.queue.mem (s.queue.consumers c) (s.queue.consumers c).pc)
    pop-Here {s = s} c e i inv (follows, sync) more = (
      record {
        valid = (follows.valid.0, omega (arith, grown));
        popped = omega (arith, grown, follows.popped);
        from_first = moved.start ∙ follows.from_first;
        made = moved.made;
      },
      sync,
    )
      where
        k : Consumer A
        k = s.queue.consumers c

        moved : Advances k (pop_step bits width s.queue.mem k k.pc)
        moved = pop_step-Advances bits width s.queue.mem k k.pc refl follows.made (
            omega (
              arith,
              (inv.queue.popping c).behind,
              published-le s.queue.pc s.queue.pushed,
              inv.queue.room,
            ))

        grown :
            ((pop_step bits width s.queue.mem k k.pc).reader
              ≡ k.reader + (length (pop_step bits width s.queue.mem k k.pc).got - length k.got))
            × (length (pop_step bits width s.queue.mem k k.pc).got - length k.got ≤ 1)
        grown =
            delivered k (pop_step bits width s.queue.mem k k.pc) (inv.queue.popping c)
              (pop_step-PopInv bits width changes s.queue.pc inv.queue.pushing k
                (inv.queue.popping c) k.pc (omega (arith, inv.queue.room))
                (inv.queue.popping c).facts)
              moved follows.from_first

    pub consume-BurstInv :
        {left : ℕ} {s : Burst A} (c : ℕ) (p : Place)
        → Inv' (suc left) s
        → Here s p (s.queue.consumers c)
        → Inv' left (consume bits width changes n burst consumer_count s c p)
    unfolding consume
    consume-BurstInv {s = s} c (at_start e) inv (follows, sync) =
        elim (Bool-cases (everyone epochs consumer_count (2 * e + 1) s)) [
          | inl free ↦ rw free (
              move_consumer c (working e 0) inv (
                record {
                  valid = (follows.valid, omega arith);
                  popped = omega (arith, follows.popped);
                  from_first = follows.from_first;
                  made = follows.made;
                },
                sync,
              ))
          | inr shut ↦ rw shut (pause bits width changes n burst consumer_count inv)
        ]
    consume-BurstInv {s = s} c (working e i) inv (follows, sync) =
        elim (dec_lt i (epoch_messages n burst e)) [
          | yes more ↦
              rw (lt→ltb i (epoch_messages n burst e) more)
                (move_popper c _ inv (pop-Here c e i inv (follows, sync) more))
          | no over ↦ rw (le→ltb i (epoch_messages n burst e) (omega arith)) (
              move_consumer c (at_end e) inv (
                record {
                  valid = follows.valid.0;
                  popped = omega (arith, follows.popped, follows.valid.1);
                  from_first = follows.from_first;
                  made = follows.made;
                },
                omega (arith, sync),
              ))
        ]
    consume-BurstInv {s = s} c (at_end e) inv (follows, sync) =
        elim (Bool-cases (everyone epochs consumer_count (2 * e + 2) s)) [
          | inl free ↦ rw free (
              let next = enter_lem n burst pos fit e follows.valid in
              move_consumer c (enter epochs (e + 1)) inv (
                record {
                  valid = next.0;
                  popped = follows.popped ∙ sym next.1;
                  from_first = follows.from_first;
                  made = follows.made;
                },
                omega (arith, sync, next.4),
              ))
          | inr shut ↦ rw shut (pause bits width changes n burst consumer_count inv)
        ]
    consume-BurstInv c finished inv there = pause bits width changes n burst consumer_count inv
