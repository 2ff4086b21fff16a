-- ===== src/Bench/BurstThreads/Deadlock.antt =====
-- Whether a thread of the burst benchmark can go on, by the places of the others.
use lock_free_queues.Prelude.{
  ℕ, zero, suc, ◌+◌, ◌*◌, ◌≤◌, ◌<◌, ◌≡◌, ◌≢◌, ◌⊎◌, refl, sym, ap, subst, arith, inl, inr, dec_le,
  ℕ_discrete,
}
use lock_free_queues.SpmcQueue.Seqlock.{le-published}
use lock_free_queues.Bench.Burst.{epoch_count, epoch_messages}
use lock_free_queues.Bench.BurstThreads.{
  Place, at_start, working, at_end, finished, Burst, Actor, producer, consumer, arrivals,
}
use lock_free_queues.Bench.BurstThreads.Invariant.{phase, passed, Valid}
use lock_free_queues.Bench.BurstThreads.Producing.{Leads, BurstInv}
use lock_free_queues.Bench.BurstThreads.Barriers.{
  AllHere, ProducerCan, ConsumerCan, Can, AllFinished,
}

-- All of the first `count` numbers are in order, or one is not.
pub search_below :
    (P Q : ℕ → Type 0) (count : ℕ)
    → ((c : ℕ) → P c ⊎ Q c)
    → ((c : ℕ) → c < count → P c) ⊎ ((c : ℕ) × (c < count) × Q c)
search_below P Q zero decide = inl (λ c lt. absurd (omega arith))
search_below P Q (suc count) decide = elim (decide count) [
  | inr bad ↦ inr (count, omega arith, bad)
  | inl good ↦ elim (search_below P Q count decide) [
    | inr (c, lt, bad) ↦ inr (c, omega arith, bad)
    | inl all ↦ inl (λ c lt. elim (ℕ_discrete c count) [
      | yes e ↦ subst P (sym e) good
      | no ne ↦ all c (omega arith)
    ])
  ]
]

is_finished : (p : Place) → (p ≡ finished) ⊎ (p ≢ finished)
is_finished (at_start e) = inr (λ e. cc)
is_finished (working e i) = inr (λ e. cc)
is_finished (at_end e) = inr (λ e. cc)
is_finished finished = inl refl

most_arrivals :
    (n burst : ℕ) (p : Place)
    → Valid n burst p
    → arrivals (epoch_count n burst) p ≤ 2 * epoch_count n burst
most_arrivals n burst (at_start e) valid = omega arith
most_arrivals n burst (working e i) valid = omega (arith, valid.0)
most_arrivals n burst (at_end e) valid = omega arith
most_arrivals n burst finished valid = omega arith

module _ {A : Type 0} (n burst consumer_count : ℕ) where
  -- A consumer with the fewest arrivals can go on, if the producer is done with its epoch.
  last_can :
      (s : Burst A) (k reader : ℕ) (p : Place)
      → Valid n burst p
      → reader ≡ passed n burst p
      → AllHere n burst consumer_count k s
      → arrivals (epoch_count n burst) p ≡ k
      → p ≢ finished
      → ((e : ℕ) → k ≡ 2 * e + 1 → e * burst + epoch_messages n burst e ≤ s.queue.pushed)
      → ConsumerCan n burst consumer_count p reader s
  last_can s k reader (at_start e) valid read here last alive enough =
      subst (λ k. AllHere n burst consumer_count k s) (sym last) here
  last_can s k reader (working e i) valid read here last alive enough =
      λ more. omega (arith, enough e (omega arith), le-published s.queue.pc s.queue.pushed)
  last_can s k reader (at_end e) valid read here last alive enough =
      subst (λ k. AllHere n burst consumer_count k s) (sym last) here
  last_can s k reader finished valid read here last alive enough = alive refl

  module _ (bits width : ℕ) (changes : ℕ → ℕ → A) {left : ℕ} {s : Burst A}
      (inv : BurstInv bits width changes n burst consumer_count left s) where
    late_consumer :
        (k c : ℕ)
        → c < consumer_count
        → AllHere n burst consumer_count k s
        → arrivals (epoch_count n burst) (s.places c) ≡ k
        → s.places c ≢ finished
        → ((e : ℕ) → k ≡ 2 * e + 1 → e * burst + epoch_messages n burst e ≤ s.queue.pushed)
        → Can n burst consumer_count (consumer c) s
    late_consumer k c lt here last alive enough =
        let follows = inv.following c lt in
        (
          lt,
          last_can s k (s.queue.consumers c).reader (s.places c) follows.valid follows.popped here
              last alive enough,
        )

    arrived :
        (k c : ℕ)
        → (k ≤ arrivals (epoch_count n burst) (s.places c))
          ⊎ (arrivals (epoch_count n burst) (s.places c) < k)
    arrived k c = elim (dec_le k (arrivals (epoch_count n burst) (s.places c))) [
      | yes le ↦ inl le
      | no gt ↦ inr (omega arith)
    ]

    -- The producer's place, and what it says.
    module _ (p : Place) (at : s.producer ≡ p) where
      leads : Leads n burst p s.queue.pc s.queue.pushed
      leads = subst (λ q. Leads n burst q s.queue.pc s.queue.pushed) at inv.leading

      sync :
          (c : ℕ)
          → c < consumer_count
          → phase (epoch_count n burst) p ≤ arrivals (epoch_count n burst) (s.places c)
      sync c lt =
          subst (λ q. phase (epoch_count n burst) q ≤ arrivals (epoch_count n burst) (s.places c))
            at (inv.together c lt)

      waits : arrivals (epoch_count n burst) s.producer ≡ arrivals (epoch_count n burst) p
      waits = ap (arrivals (epoch_count n burst)) at

      -- If every consumer has arrived at the producer's barrier, it goes on, and else a late one.
      producer_or :
          (k : ℕ)
          → (((c : ℕ) → c < consumer_count → k ≤ arrivals (epoch_count n burst) (s.places c))
              → ProducerCan n burst consumer_count p s)
          → ((c : ℕ)
              → c < consumer_count
              → arrivals (epoch_count n burst) (s.places c) < k
              → Can n burst consumer_count (consumer c) s)
          → (a : Actor) × Can n burst consumer_count a s
      producer_or k all_here late =
          elim (search_below (λ c. k ≤ arrivals (epoch_count n burst) (s.places c))
            (λ c. arrivals (epoch_count n burst) (s.places c) < k) consumer_count (arrived k)) [
              | inl all ↦ (
                producer,
                subst (λ q. ProducerCan n burst consumer_count q s) (sym at) (all_here all),
              )
              | inr (c, lt, behind) ↦ (consumer c, late c lt behind)
            ]

    -- The barriers do not lock the threads up.
    pub no_deadlock :
        AllFinished n burst consumer_count s ⊎ ((a : Actor) × Can n burst consumer_count a s)
    no_deadlock = go s.producer refl
      where
        go :
            (p : Place)
            → s.producer ≡ p
            → AllFinished n burst consumer_count s ⊎ ((a : Actor) × Can n burst consumer_count a s)
        go (at_start e) at = inr (
            producer_or (at_start e) at (2 * e + 1)
              (λ all. (omega (arith, waits (at_start e) at), all))
              (λ c lt late.
                late_consumer (2 * e) c lt
                  (omega (arith, waits (at_start e) at), sync (at_start e) at)
                  (omega (arith, sync (at_start e) at c lt))
                  (λ f. absurd (
                    omega (
                      arith,
                      ap (arrivals (epoch_count n burst)) f,
                      (leads (at_start e) at).valid,
                    )))
                  (λ e' odd. absurd (omega arith))))
        go (working e i) at =
            inr (producer, subst (λ q. ProducerCan n burst consumer_count q s) (sym at) tt)
        go (at_end e) at = inr (
            producer_or (at_end e) at (2 * e + 2) (λ all. (omega (arith, waits (at_end e) at), all))
              (λ c lt late.
                late_consumer (2 * e + 1) c lt
                  (omega (arith, waits (at_end e) at), sync (at_end e) at)
                  (omega (arith, sync (at_end e) at c lt))
                  (λ f. absurd (
                    omega
                      (arith, ap (arrivals (epoch_count n burst)) f, (leads (at_end e) at).valid)))
                  (λ e' odd.
                    let same =
                      ap (λ k. k * burst + epoch_messages n burst k) {x = e'} {y = e}
                        (omega arith) in
                    omega (arith, same, (leads (at_end e) at).pushed))))
        go finished at =
            elim (search_below (λ c. s.places c ≡ finished) (λ c. s.places c ≢ finished)
              consumer_count (λ c. is_finished (s.places c))) [
                | inl all ↦ inl (at, all)
                | inr (c, lt, alive) ↦ inr (
                  consumer c,
                  late_consumer (2 * epoch_count n burst) c lt
                      (omega (arith, waits finished at), sync finished at)
                      (omega (
                        arith,
                        most_arrivals n burst (s.places c) (inv.following c lt).valid,
                        sync finished at c lt,
                      ))
                      alive (λ e' odd. absurd (omega arith)),
                )
              ]
