-- ===== src/Bench/BurstThreads/Barriers.antt =====
-- Which threads of the burst benchmark can go on.
use lock_free_queues.Prelude.{
  ℕ, zero, suc, ◌+◌, ◌*◌, ◌≤◌, ◌<◌, ◌≡◌, refl, arith, true, false, le→leb, ◌&&◌, Bool,
}
use lock_free_queues.SpmcQueue.Invariant.{published}
use lock_free_queues.Bench.Burst.{epoch_count, epoch_messages}
use lock_free_queues.Bench.BurstThreads.{
  Place, at_start, working, at_end, finished, Burst, Actor, producer, consumer, arrivals,
  consumers_arrived, everyone,
}

both_true : (a b : Bool) → a ≡ true → b ≡ true → (a && b) ≡ true
both_true true b e f = f
both_true false b e f = e

consumers_arrived_all :
    (epochs k : ℕ) (places : ℕ → Place) (count : ℕ)
    → ((c : ℕ) → c < count → k ≤ arrivals epochs (places c))
    → consumers_arrived epochs k places count ≡ true
unfolding consumers_arrived
consumers_arrived_all epochs k places zero all = refl
consumers_arrived_all epochs k places (suc count) all =
    both_true _ _ (le→leb k (arrivals epochs (places count)) (all count (omega arith)))
      (consumers_arrived_all epochs k places count (λ c lt. all c (omega arith)))

module _ {A : Type 0} (n burst consumer_count : ℕ) where
  -- Every thread has arrived `k` times.
  abbrev pub AllHere : ℕ → Burst A → Type 0
  AllHere k s =
      (k ≤ arrivals (epoch_count n burst) s.producer)
      × ((c : ℕ) → c < consumer_count → k ≤ arrivals (epoch_count n burst) (s.places c))

  pub everyone_here :
      (k : ℕ) (s : Burst A) → AllHere k s → everyone (epoch_count n burst) consumer_count k s ≡ true
  everyone_here k s here =
      both_true _ _ (le→leb k (arrivals (epoch_count n burst) s.producer) here.0)
        (consumers_arrived_all (epoch_count n burst) k s.places consumer_count here.1)

  -- The producer at a place can go on, and a consumer that has read `reader` objects.
  abbrev pub ProducerCan : Place → Burst A → Type 0
  ProducerCan (at_start e) s = AllHere (2 * e + 1) s
  ProducerCan (working e i) s = Unit
  ProducerCan (at_end e) s = AllHere (2 * e + 2) s
  ProducerCan finished s = ⊥

  abbrev pub ConsumerCan : Place → ℕ → Burst A → Type 0
  ConsumerCan (at_start e) reader s = AllHere (2 * e + 1) s
  ConsumerCan (working e i) reader s =
      i < epoch_messages n burst e → reader < published s.queue.pc s.queue.pushed
  ConsumerCan (at_end e) reader s = AllHere (2 * e + 2) s
  ConsumerCan finished reader s = ⊥

  abbrev pub Can : Actor → Burst A → Type 0
  Can producer s = ProducerCan s.producer s
  Can (consumer c) s =
      (c < consumer_count) × ConsumerCan (s.places c) (s.queue.consumers c).reader s

  abbrev pub AllFinished : Burst A → Type 0
  AllFinished s = (s.producer ≡ finished) × ((c : ℕ) → c < consumer_count → s.places c ≡ finished)
