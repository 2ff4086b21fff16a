-- ===== src/Bench/BurstThreads/ConsumerGrowth.antt =====
-- What a step of a consumer of the burst benchmark adds to what the threads have done.
use mathlib.Core.Bool.{true≢false}
use lock_free_queues.Prelude.{
  ℕ, suc, ◌+◌, ◌-◌, ◌*◌, ◌/◌, ◌%◌, ◌^◌, ◌≤◌, ◌<◌, ◌≡◌, ◌≢◌, refl, sym, ap, ◌∙◌, subst, arith, inl,
  inr, Bool-cases, lt→ltb, le→ltb, dec_lt, dec_le, update, update_self, length,
}
use lock_free_queues.Prelude.Words.{word_mod}
use lock_free_queues.SpmcQueue.{aborted, Consumer, pop_step, expected_version, wrap}
use lock_free_queues.SpmcQueue.Invariant.{bound, published, wrap_lem, PopFacts}
use lock_free_queues.SpmcQueue.Seqlock.{published-le, expected_lem, not_yet}
use lock_free_queues.Bench.Burst.{epoch_count, epoch_messages}
use lock_free_queues.Bench.BurstThreads.{
  Place, at_start, working, at_end, finished, Burst, arrivals, enter, everyone, consume,
}
use lock_free_queues.Bench.BurstThreads.Advance.{Advances, pop_step-Advances}
use lock_free_queues.Bench.BurstThreads.Producing.{Follows, BurstInv}
use lock_free_queues.Bench.BurstThreads.Meter.{spot, pop_meter, pop_step-Moves, stays_aborted}
use lock_free_queues.Bench.BurstThreads.Barriers.{everyone_here, ConsumerCan}
use lock_free_queues.Bench.BurstThreads.Growth.{
  Grows, still, move_consumer, move_popper, entered, consumer_meter,
}

module _ (bits width : ℕ) {A : Type 0} (changes : ℕ → ℕ → A) (n burst consumer_count : ℕ) {left : ℕ}
    {s : Burst A} (inv : BurstInv bits width changes n burst consumer_count (suc left) s) where
  abbrev epochs : ℕ
  epochs = epoch_count n burst

  abbrev Grown : Burst A → Type 0
  Grown = Grows width n burst consumer_count s

  module _ (pos : 0 < burst) (fit : n + burst < word_mod) (c : ℕ) (lt : c < consumer_count) where
    abbrev k : Consumer A
    k = s.queue.consumers c

    abbrev k' : Consumer A
    k' = pop_step bits width s.queue.mem k k.pc

    abbrev meter : Place → Consumer A → ℕ
    meter = consumer_meter width n burst consumer_count

    abbrev Gain : Burst A → Type 0
    Gain s' = meter (s.places c) k + 1 ≤ meter (s'.places c) (s'.queue.consumers c)

    small : k.reader < bound
    small = omega (
      arith,
      (inv.queue.popping c).behind,
      published-le s.queue.pc s.queue.pushed,
      inv.queue.room,
    )

    forth : Advances k k'
    forth = pop_step-Advances bits width s.queue.mem k k.pc refl (inv.following c lt).made small

    -- A consumer that has not aborted now had not before.
    well : k'.pc ≢ aborted → k.pc ≢ aborted
    well alive gone = alive (stays_aborted bits width s.queue.mem k gone)

    moves :
        k'.pc ≢ aborted
        → (pop_meter width k ≤ pop_meter width k')
          × (expected_version bits k.reader ≤ s.queue.mem.version (wrap bits k.reader)
              → pop_meter width k' ≡ pop_meter width k + 1)
    moves alive =
        pop_step-Moves bits width s.queue.mem k k.pc refl (inv.following c lt).made (well alive)
          small
          (λ temp e.
            (subst
              (PopFacts bits width changes (published s.queue.pc s.queue.pushed) k.reader
                s.queue.mem)
              e (inv.queue.popping c).facts).0)
          alive

    -- The object that a consumer waits for, or a later one, is there as soon as it is published.
    there :
        k.reader < published s.queue.pc s.queue.pushed
        → expected_version bits k.reader ≤ s.queue.mem.version (wrap bits k.reader)
    there more = elim (dec_le target (s.queue.mem.version (k.reader % 2 ^ bits))) [
      | yes le ↦ omega (
        arith,
        le,
        ap s.queue.mem.version (wrap_lem bits k.reader),
        expected_lem bits k.reader (omega (arith, small)),
      )
      | no low ↦ absurd (
          omega (
            arith,
            more,
            not_yet bits width changes s.queue.pc k.reader inv.queue.pushing (omega arith),
          ))
    ]
      where
        target : ℕ
        target = 2 * (k.reader / 2 ^ bits + 1)

    passes :
        (p : Place)
        → arrivals epochs (s.places c) ≤ arrivals epochs p
        → spot epochs p ≡ spot epochs (s.places c) + 1
        → Grown (record s { places = update s.places c p })
          × Gain (record s { places = update s.places c p })
    passes p le up = (
      move_consumer width n burst consumer_count s c p le (omega (arith, up)),
      subst (λ q. meter (s.places c) k + 1 ≤ meter q k) (sym (update_self s.places c p refl))
          (omega (arith, up)),
    )

    pops_on :
        (e i : ℕ)
        → s.places c ≡ working e i
        → k'.pc ≢ aborted
        → let s' = record s {
          queue = record (s.queue) { consumers = update s.queue.consumers c k' };
          places = update s.places c (working e (i + (length k'.got - length k.got)));
        } in
          Grown s' × (k.reader < published s.queue.pc s.queue.pushed → Gain s')
    pops_on e i at alive = (
      move_popper width n burst consumer_count s c _ k' (omega (arith, ap (arrivals epochs) at))
          (omega (arith, ap (spot epochs) at, (moves alive).0)),
      λ more.
          subst (λ q. meter (s.places c) k + 1 ≤ meter q (update s.queue.consumers c k' c))
            (sym (update_self s.places c (working e (i + (length k'.got - length k.got))) refl))
            (subst (λ j. meter (s.places c) k + 1 ≤ spot epochs (working e i) + pop_meter width j)
              (sym (update_self s.queue.consumers c k' refl))
              (omega (arith, ap (spot epochs) at, (moves alive).1 (there more)))),
    )

    -- A step of a consumer from where it stands.
    pub consume-Grows :
        (p : Place)
        → s.places c ≡ p
        → ((consume bits width changes n burst consumer_count s c p).queue.consumers c).pc ≢ aborted
        → Grown (consume bits width changes n burst consumer_count s c p)
          × (ConsumerCan n burst consumer_count p k.reader s
              → Gain (consume bits width changes n burst consumer_count s c p))
    unfolding consume
    consume-Grows (at_start e) at =
        elim (Bool-cases (everyone epochs consumer_count (2 * e + 1) s)) [
          | inl free ↦ rw free (λ alive.
              let moved =
                passes (working e 0) (omega (arith, ap (arrivals epochs) at))
                  (omega (arith, ap (spot epochs) at)) in
              (moved.0, λ can. moved.1))
          | inr shut ↦ rw shut (λ alive. (
            still width n burst consumer_count s,
            λ can.
                absurd (
                  true≢false (sym (everyone_here n burst consumer_count (2 * e + 1) s can) ∙ shut)),
          ))
        ]
    consume-Grows (working e i) at = elim (dec_lt i (epoch_messages n burst e)) [
      | yes more ↦ rw (lt→ltb i (epoch_messages n burst e) more) (λ alive.
          let popped =
            pops_on e i at
              (λ gone. alive (ap (λ j. j.pc) (update_self s.queue.consumers c k' refl) ∙ gone)) in
          (popped.0, λ can. popped.1 (can more)))
      | no over ↦ rw (le→ltb i (epoch_messages n burst e) (omega arith)) (λ alive.
          let moved =
            passes (at_end e) (omega (arith, ap (arrivals epochs) at))
              (omega (arith, ap (spot epochs) at)) in
          (moved.0, λ can. moved.1))
    ]
    consume-Grows (at_end e) at = elim (Bool-cases (everyone epochs consumer_count (2 * e + 2) s)) [
      | inl free ↦ rw free (λ alive.
          let next =
            entered epochs e (subst (λ q. Follows n burst q k) at (inv.following c lt)).valid in
          let moved =
            passes (enter epochs (e + 1)) (omega (arith, ap (arrivals epochs) at, next.1))
              (omega (arith, ap (spot epochs) at, next.0)) in
          (moved.0, λ can. moved.1))
      | inr shut ↦ rw shut (λ alive. (
        still width n burst consumer_count s,
        λ can.
            absurd
              (true≢false (sym (everyone_here n burst consumer_count (2 * e + 2) s can) ∙ shut)),
      ))
    ]
    consume-Grows finished at = λ alive. (still width n burst consumer_count s, λ can. absurd can)
