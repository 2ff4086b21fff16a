-- ===== src/Bench/BurstThreads/Invariant.antt =====
-- Where the threads of the burst benchmark stand, and what that says of the queue between them.
use lock_free_queues.Prelude.{
  ℕ, zero, suc, ◌+◌, ◌-◌, ◌*◌, ◌≤◌, ◌<◌, ◌≡◌, refl, ap, arith, dec_lt, lt→ltb, le→ltb,
}
use lock_free_queues.Prelude.Words.{word_mod}
use lock_free_queues.Bench.Burst.{epoch_count, epoch_start, epoch_messages}
use lock_free_queues.Bench.Burst.Facts.{epoch_count_lem}
use lock_free_queues.Bench.BurstThreads.{
  Place, at_start, working, at_end, finished, arrivals, enter,
}

-- The barriers that a thread has passed.
abbrev pub phase : ℕ → Place → ℕ
phase epochs (at_start e) = 2 * e
phase epochs (working e i) = 2 * e + 1
phase epochs (at_end e) = 2 * e + 1
phase epochs finished = 2 * epochs

module _ (n burst : ℕ) where
  -- The messages that a thread has pushed or popped.
  abbrev pub passed : Place → ℕ
  passed (at_start e) = e * burst
  passed (working e i) = e * burst + i
  passed (at_end e) = e * burst + epoch_messages n burst e
  passed finished = n

  -- Those that it has at the next barrier.
  abbrev pub ceiling : Place → ℕ
  ceiling (working e i) = e * burst + epoch_messages n burst e
  ceiling p = passed p

  abbrev pub Valid : Place → Type 0
  Valid (at_start e) = e < epoch_count n burst
  Valid (working e i) = (e < epoch_count n burst) × (i ≤ epoch_messages n burst e)
  Valid (at_end e) = e < epoch_count n burst
  Valid finished = Unit

  module _ (pos : 0 < burst) (fit : n + burst < word_mod) where
    -- The epochs cover the messages, and the last one is not empty.
    pub cover : (n ≤ epoch_count n burst * burst) × (epoch_count n burst * burst < n + burst)
    cover =
        let count = epoch_count_lem n burst pos fit in
        (
          omega (arith, count, ap (λ k. k * burst) count.0),
          omega (arith, count, ap (λ k. k * burst) count.0),
        )

    pub begins : (e : ℕ) → e < epoch_count n burst → e * burst < n
    begins e lt = omega (arith, cover, upto)
      where
        upto : (e + 1) * burst ≤ epoch_count n burst * burst
        upto = grind arith

    pub epoch_start_lem : (e : ℕ) → e < epoch_count n burst → epoch_start burst e ≡ e * burst
    unfolding epoch_start
    epoch_start_lem e lt = omega (arith, begins e lt)

    pub messages_lem :
        (e : ℕ)
        → e < epoch_count n burst
        → (epoch_messages n burst e ≤ burst)
          × (e * burst + epoch_messages n burst e ≤ n)
          × (e + 1 < epoch_count n burst → epoch_messages n burst e ≡ burst)
          × (epoch_count n burst ≤ e + 1 → e * burst + epoch_messages n burst e ≡ n)
    unfolding epoch_messages epoch_start
    messages_lem e lt = (
      omega arith,
      omega (arith, begins e lt),
      λ more. omega (arith, begins e lt, begins (e + 1) more),
      λ over. omega (arith, begins e lt, last over),
    )
      where
        last : epoch_count n burst ≤ e + 1 → n ≤ (e + 1) * burst
        last over =
            omega (
              arith,
              cover,
              ap (λ k. k * burst) {x = epoch_count n burst} {y = e + 1} (omega arith),
            )

    -- The head of the loop keeps what was passed.
    pub enter_lem :
        (e : ℕ)
        → e < epoch_count n burst
        → Valid (enter (epoch_count n burst) (e + 1))
          × (passed (enter (epoch_count n burst) (e + 1)) ≡ passed (at_end e))
          × (passed (enter (epoch_count n burst) (e + 1))
              ≡ ceiling (enter (epoch_count n burst) (e + 1)))
          × (phase (epoch_count n burst) (enter (epoch_count n burst) (e + 1)) ≡ 2 * e + 2)
          × (2 * e + 2 ≤ arrivals (epoch_count n burst) (enter (epoch_count n burst) (e + 1)))
    enter_lem e lt = elim (dec_lt (e + 1) (epoch_count n burst)) [
      | yes more ↦
          rw (lt→ltb (e + 1) (epoch_count n burst) more)
            (more, omega (arith, (messages_lem e lt).2 more), refl, omega arith, omega arith)
      | no over ↦
          rw (le→ltb (e + 1) (epoch_count n burst) (omega arith))
            (tt, omega (arith, (messages_lem e lt).3 (omega arith)), refl, omega arith, omega arith)
    ]

    -- A thread that has arrived at the start of epoch `e` is through with the epochs before it.
    pub reached :
        (p : Place) (e : ℕ)
        → Valid p
        → e < epoch_count n burst
        → 2 * e + 1 ≤ arrivals (epoch_count n burst) p
        → e * burst ≤ passed p
    reached (at_start e') e valid lt le = grind arith
    reached (working e' i) e valid lt le = omega (arith, earlier)
      where
        earlier : e * burst ≤ e' * burst
        earlier = grind arith
    reached (at_end e') e valid lt le = omega (arith, earlier)
      where
        earlier : e * burst ≤ e' * burst
        earlier = grind arith
    reached finished e valid lt le = omega (arith, begins e lt)

    pub apart :
        (p q : Place)
        → Valid p
        → Valid q
        → phase (epoch_count n burst) p ≤ arrivals (epoch_count n burst) q
        → ceiling p ≤ passed q + burst
    apart (at_start zero) q valid valid' le = omega arith
    apart (at_start (suc e)) q valid valid' le =
        omega (arith, reached q e valid' (omega arith) (omega arith))
    apart (working e i) q valid valid' le =
        omega (arith, reached q e valid' valid.0 le, messages_lem e valid.0)
    apart (at_end e) q valid valid' le =
        omega (arith, reached q e valid' valid le, messages_lem e valid)
    apart finished q valid valid' le = elim (dec_lt 0 (epoch_count n burst)) [
      | yes some_epoch ↦
          let last = epoch_count n burst - 1 in
          omega (
            arith,
            reached q last valid' (omega arith) (omega arith),
            (messages_lem last (omega arith)).0,
            (messages_lem last (omega arith)).3 (omega arith),
          )
      | no none_at_all ↦
          omega
            (arith, cover, ap (λ k. k * burst) {x = epoch_count n burst} {y = zero} (omega arith))
    ]
