-- ===== src/Bench/BurstThreads/Rounds.antt =====
-- What a round of steps adds to what the threads of the burst benchmark have done.
use lock_free_queues.Prelude.{
  Has, ℕ, suc, ◌+◌, ◌*◌, ◌≤◌, ◌<◌, refl, subst, arith, inl, inr, List, [], ◌∷◌, lt→ltb, le→ltb,
  dec_lt, length,
}
use lock_free_queues.Prelude.Words.{word_mod}
use lock_free_queues.Bench.BurstThreads.{
  Place, at_start, working, at_end, finished, Burst, Actor, producer, consumer, step, run,
}
use lock_free_queues.Bench.BurstThreads.Producing.{BurstInv}
use lock_free_queues.Bench.BurstThreads.Meter.{sum_to, sum_to-le, sum_to-lt}
use lock_free_queues.Bench.BurstThreads.Barriers.{AllHere, ProducerCan, ConsumerCan, Can}
use lock_free_queues.Bench.BurstThreads.Growth.{
  Grows, still, producer_meter, consumer_meter, produce-Grows,
}
use lock_free_queues.Bench.BurstThreads.ConsumerGrowth.{consume-Grows}
use lock_free_queues.Bench.BurstThreads.Delivery.{step-BurstInv}
use lock_free_queues.Bench.BurstThreads.Others.{
  AllWell, AllWell-run, actor_cases, Untouched, next-Untouched,
}

module _ (bits width : ℕ) {A : Type 0} (changes : ℕ → ℕ → A) (n burst consumer_count : ℕ) where
  abbrev next : Actor → Burst A → Burst A
  next = step bits width changes n burst consumer_count

  abbrev all_run : List Actor → Burst A → Burst A
  all_run = run bits width changes n burst consumer_count

  -- What a thread has done, and what they all have.
  abbrev meter : Actor → Burst A → ℕ
  meter producer s = producer_meter width n burst consumer_count s
  meter (consumer c) s =
      consumer_meter width n burst consumer_count (s.places c) (s.queue.consumers c)

  abbrev pub total : Burst A → ℕ
  total s = meter producer s + sum_to (λ c. meter (consumer c) s) consumer_count

  total-Grows : {s s' : Burst A} → Grows width n burst consumer_count s s' → total s ≤ total s'
  total-Grows {s} {s'} g = omega (
    arith,
    g.pushes,
    sum_to-le (λ c. meter (consumer c) s) (λ c. meter (consumer c) s') consumer_count g.pops,
  )

  total_gains :
      {s s' : Burst A} (a : Actor)
      → Grows width n burst consumer_count s s'
      → Can n burst consumer_count a s
      → meter a s + 1 ≤ meter a s'
      → total s + 1 ≤ total s'
  total_gains {s} {s'} producer g can up = omega (
    arith,
    sum_to-le (λ c. meter (consumer c) s) (λ c. meter (consumer c) s') consumer_count g.pops,
  )
  total_gains {s} {s'} (consumer c) g can up = omega (
    arith,
    g.pushes,
    sum_to-lt (λ c. meter (consumer c) s) (λ c. meter (consumer c) s') consumer_count c can.0 up
        g.pops,
  )

  -- A thread that can go on still can when others have moved.
  AllHere-Grows :
      {s s' : Burst A} (k : ℕ)
      → Grows width n burst consumer_count s s'
      → AllHere n burst consumer_count k s
      → AllHere n burst consumer_count k s'
  AllHere-Grows k g here =
      (omega (arith, here.0, g.arrives), λ c lt. omega (arith, here.1 c lt, g.arrive c))

  ProducerCan-Grows :
      {s s' : Burst A} (p : Place)
      → Grows width n burst consumer_count s s'
      → ProducerCan n burst consumer_count p s
      → ProducerCan n burst consumer_count p s'
  ProducerCan-Grows (at_start e) g can = AllHere-Grows (2 * e + 1) g can
  ProducerCan-Grows (working e i) g can = tt
  ProducerCan-Grows (at_end e) g can = AllHere-Grows (2 * e + 2) g can
  ProducerCan-Grows finished g can = can

  ConsumerCan-Grows :
      {s s' : Burst A} (p : Place) (reader : ℕ)
      → Grows width n burst consumer_count s s'
      → ConsumerCan n burst consumer_count p reader s
      → ConsumerCan n burst consumer_count p reader s'
  ConsumerCan-Grows (at_start e) reader g can = AllHere-Grows (2 * e + 1) g can
  ConsumerCan-Grows (working e i) reader g can = λ more. omega (arith, can more, g.publishes)
  ConsumerCan-Grows (at_end e) reader g can = AllHere-Grows (2 * e + 2) g can
  ConsumerCan-Grows finished reader g can = can

  Can-Grows :
      {s s' : Burst A} (a : Actor)
      → Grows width n burst consumer_count s s'
      → Untouched a s s'
      → Can n burst consumer_count a s
      → Can n burst consumer_count a s'
  Can-Grows {s} {s'} producer g same can =
      subst (λ p. ProducerCan n burst consumer_count p s') same (ProducerCan-Grows s.producer g can)
  Can-Grows {s} {s'} (consumer c) g same can = (
    can.0,
    subst (λ k. ConsumerCan n burst consumer_count (s'.places c) k.reader s') same.1
        (subst (λ p. ConsumerCan n burst consumer_count p (s.queue.consumers c).reader s') same.0
          (ConsumerCan-Grows (s.places c) (s.queue.consumers c).reader g can.1)),
  )

  module _ (pos : 0 < burst) (fit : n + burst < word_mod) where
    next-Grows :
        (a : Actor) {left : ℕ} {s : Burst A}
        → BurstInv bits width changes n burst consumer_count (suc left) s
        → AllWell bits width changes n burst consumer_count (next a s)
        → Grows width n burst consumer_count s (next a s)
          × (Can n burst consumer_count a s → meter a s + 1 ≤ meter a (next a s))
    unfolding step
    next-Grows producer {s = s} inv =
        λ well. produce-Grows bits width changes n burst consumer_count inv s.producer refl
    next-Grows (consumer c) {s = s} inv = elim (dec_lt c consumer_count) [
      | yes lt ↦ rw (lt→ltb c consumer_count lt) (λ well.
          let grown =
            consume-Grows bits width changes n burst consumer_count inv pos fit c lt (s.places c)
              refl (well c lt) in
          (grown.0, λ can. grown.1 can.1))
      | no ge ↦
          rw (le→ltb c consumer_count (omega arith))
            (λ well. (still width n burst consumer_count s, λ can. absurd (omega (arith, can.0))))
    ]

    pub total-run :
        (turns : List Actor) (left : ℕ) {s : Burst A}
        → BurstInv bits width changes n burst consumer_count (length turns + left) s
        → AllWell bits width changes n burst consumer_count (all_run turns s)
        → total s ≤ total (all_run turns s)
    unfolding run
    total-run [] left inv well = omega arith
    total-run (a ∷ turns) left {s} inv well =
        let inv' : BurstInv bits width changes n burst consumer_count (suc (length turns + left))
            s =
          subst (λ k. BurstInv bits width changes n burst consumer_count k s) (omega arith) inv in
        omega (
          arith,
          total-Grows
              (next-Grows a inv'
                (AllWell-run bits width changes n burst consumer_count turns (next a s) well)).0,
          total-run turns left
              (step-BurstInv bits width changes n burst consumer_count pos fit a inv') well,
        )

    -- A thread that can go on, and has a turn, adds to what they have done.
    pub total-round :
        (a : Actor) (turns : List Actor) (left : ℕ) {s : Burst A}
        → Has a turns
        → BurstInv bits width changes n burst consumer_count (length turns + left) s
        → Can n burst consumer_count a s
        → AllWell bits width changes n burst consumer_count (all_run turns s)
        → total s + 1 ≤ total (all_run turns s)
    unfolding run
    total-round a [] left has inv can well = absurd has
    total-round a (b ∷ turns) left {s} has inv can well =
        let inv' : BurstInv bits width changes n burst consumer_count (suc (length turns + left))
            s =
          subst (λ k. BurstInv bits width changes n burst consumer_count k s) (omega arith) inv in
        let later = step-BurstInv bits width changes n burst consumer_count pos fit b inv' in
        let grown =
          next-Grows b inv'
            (AllWell-run bits width changes n burst consumer_count turns (next b s) well) in
        elim (actor_cases a b) [
          | inl same ↦
              let can' = subst (λ x. Can n burst consumer_count x s) same can in
              omega
                (arith, total_gains b grown.0 can' (grown.1 can'), total-run turns left later well)
          | inr ne ↦ omega (
            arith,
            total-Grows grown.0,
            total-round a turns left (elim has [ inl e ↦ absurd (ne e) | inr rest ↦ rest ]) later
                (Can-Grows a grown.0
                  (next-Untouched bits width changes n burst consumer_count a b s ne) can)
                well,
          )
        ]
