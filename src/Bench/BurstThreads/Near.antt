-- ===== src/Bench/BurstThreads/Near.antt =====
-- How far the producer of the burst benchmark is ahead of a consumer.
use lock_free_queues.Prelude.{
  ℕ, ◌+◌, ◌*◌, ◌^◌, ◌≤◌, ◌<◌, ◌≡◌, refl, subst, arith, dec_lt, ℕ_discrete, ap,
}
use lock_free_queues.Prelude.Words.{word_mod, pow_pos}
use lock_free_queues.SpmcQueue.{aborted, Consumer}
use lock_free_queues.SpmcQueue.Invariant.{published, PopFacts}
use lock_free_queues.Bench.Burst.{epoch_count, epoch_messages}
use lock_free_queues.Bench.BurstThreads.{
  Place, at_start, working, at_end, finished, Burst, arrivals,
}
use lock_free_queues.Bench.BurstThreads.Invariant.{
  phase, passed, ceiling, Valid, begins, messages_lem,
}
use lock_free_queues.Bench.BurstThreads.Producing.{BurstInv}

module _ (n burst : ℕ) (pos : 0 < burst) (fit : n + burst < word_mod) where
  within_epoch :
      (e' e : ℕ)
      → e' < epoch_count n burst
      → 2 * e' + 1 ≤ 2 * e + 2
      → e' * burst + epoch_messages n burst e' ≤ e * burst + epoch_messages n burst e
  within_epoch e' e valid le = elim (ℕ_discrete e' e) [
    | yes same ↦ omega (arith, ap (λ k. k * burst + epoch_messages n burst k) same)
    | no ne ↦
        let before : (e' + 1) * burst ≤ e * burst = grind arith in
        omega (arith, before, messages_lem n burst pos fit e' valid)
  ]

  -- A producer that has not passed the start of the epoch after `e`.
  ceiling_within :
      (p : Place) (e : ℕ)
      → Valid n burst p
      → e < epoch_count n burst
      → phase (epoch_count n burst) p ≤ 2 * e + 2
      → ceiling n burst p ≤ e * burst + epoch_messages n burst e
  ceiling_within (at_start e') e valid lt le = elim (dec_lt e e') [
    | yes next ↦ omega (
      arith,
      ap (λ k. k * burst) {x = e'} {y = e + 1} (omega arith),
      (messages_lem n burst pos fit e lt).2 (omega (arith, valid)),
    )
    | no early ↦ let upto : e' * burst ≤ e * burst = grind arith in omega (arith, upto)
  ]
  ceiling_within (working e' i) e valid lt le = within_epoch e' e valid.0 le
  ceiling_within (at_end e') e valid lt le = within_epoch e' e valid le
  ceiling_within finished e valid lt le =
      omega (arith, (messages_lem n burst pos fit e lt).3 (omega arith))

  pub ceiling_at_most : (p : Place) → Valid n burst p → ceiling n burst p ≤ n
  ceiling_at_most (at_start e) valid = omega (arith, begins n burst pos fit e valid)
  ceiling_at_most (working e i) valid = omega (arith, messages_lem n burst pos fit e valid.0)
  ceiling_at_most (at_end e) valid = omega (arith, messages_lem n burst pos fit e valid)
  ceiling_at_most finished valid = omega arith

  -- Where a thread is when the producer can be `d` messages ahead of it: `i` messages into an epoch
  -- that has as many after these.
  abbrev pub Inside : ℕ → Place → Type 0
  Inside d q =
      (e : ℕ) × (i : ℕ) × (e < epoch_count n burst)
      × (passed n burst q ≡ e * burst + i)
      × (i + d ≤ epoch_messages n burst e)

  ahead-Inside :
      (p q : Place) (d : ℕ)
      → Valid n burst p
      → Valid n burst q
      → phase (epoch_count n burst) p ≤ arrivals (epoch_count n burst) q
      → 0 < d
      → passed n burst q + d ≤ ceiling n burst p
      → Inside d q
  ahead-Inside p (at_start e) d valid valid' le some far =
      (e, 0, valid', omega arith, omega (arith, ceiling_within p e valid valid' (omega arith)))
  ahead-Inside p (working e i) d valid valid' le some far =
      (e, i, valid'.0, refl, omega (arith, ceiling_within p e valid valid'.0 (omega arith)))
  ahead-Inside p (at_end e) d valid valid' le some far =
      absurd (omega (arith, ceiling_within p e valid valid' le))
  ahead-Inside p finished d valid valid' le some far =
      absurd (omega (arith, ceiling_at_most p valid))

module _ (bits width : ℕ) {A : Type 0} (changes : ℕ → ℕ → A) (n burst consumer_count : ℕ) {left : ℕ}
    {s : Burst A} (inv : BurstInv bits width changes n burst consumer_count left s)
    (pos : 0 < burst) (fit : n + burst < word_mod) (c : ℕ) (lt : c < consumer_count) where
  abbrev k : Consumer A
  k = s.queue.consumers c

  -- A consumer that has aborted is a whole lap behind.
  pub lapped : k.pc ≡ aborted → k.reader + 2 ^ bits ≤ published s.queue.pc s.queue.pushed
  lapped gone =
      subst (PopFacts bits width changes (published s.queue.pc s.queue.pushed) k.reader s.queue.mem)
        gone (inv.queue.popping c).facts

  -- And the whole lap is in one epoch.
  pub lapped-Inside : k.pc ≡ aborted → Inside n burst pos fit (2 ^ bits) (s.places c)
  lapped-Inside gone =
      let follows = inv.following c lt in
      ahead-Inside n burst pos fit s.producer (s.places c) (2 ^ bits) inv.leading.valid
        follows.valid (inv.together c lt) (pow_pos bits)
        (omega (arith, lapped gone, inv.leading.below, follows.popped))
