-- ===== src/Bench/BurstRun/Slowest.antt =====
-- The greatest of the clock readings of the consumers in src/spmc_burst_bench.cpp.
use lock_free_queues.Prelude.{
  ℕ, zero, suc, ◌+◌, ◌-◌, ◌≤◌, ◌<◌, ◌≡◌, refl, ap, subst, arith, dec_lt, ℕ_discrete, lt→ltb, le→ltb,
  if◌then◌else◌, ltb,
}
use lock_free_queues.Bench.Burst.{max_element}
use lock_free_queues.Bench.BurstRun.{readings}

-- The greatest of the readings of `count` consumers.
abbrev pub Slowest : (ℕ → ℕ) → ℕ → ℕ → Type 0
Slowest done_cycles count m =
    ((d : ℕ) → d < count → done_cycles d ≤ m) × ((d : ℕ) × (d < count) × (m ≡ done_cycles d))

-- The greatest of those of the first `c`, and of the next `count`.
max_element-Slowest :
    (done_cycles : ℕ → ℕ) (count c best : ℕ)
    → Slowest done_cycles c best
    → Slowest done_cycles (c + count) (max_element best (readings done_cycles c count))
unfolding readings max_element
max_element-Slowest done_cycles zero c best so_far =
    subst (λ k. Slowest done_cycles k best) (omega arith) so_far
max_element-Slowest done_cycles (suc count) c best (above, (d, lt, at)) =
    subst
      (λ k. Slowest done_cycles k (
        max_element (if ltb best (done_cycles c) then done_cycles c else best)
          (readings done_cycles (c + 1) count)))
      (omega arith)
      (max_element-Slowest done_cycles count (c + 1)
        (if ltb best (done_cycles c) then done_cycles c else best) next)
  where
    cover : (m : ℕ) → best ≤ m → done_cycles c ≤ m → (e : ℕ) → e < c + 1 → done_cycles e ≤ m
    cover m le here e below = elim (ℕ_discrete e c) [
      | yes same ↦ omega (arith, ap done_cycles same)
      | no ne ↦ omega (arith, above e (omega arith))
    ]

    next : Slowest done_cycles (c + 1) (if ltb best (done_cycles c) then done_cycles c else best)
    next = elim (dec_lt best (done_cycles c)) [
      | yes more ↦
          rw (lt→ltb best (done_cycles c) more)
            (cover (done_cycles c) (omega arith) (omega arith), (c, omega arith, refl))
      | no less ↦
          rw (le→ltb best (done_cycles c) (omega arith))
            (cover best (omega arith) (omega arith), (d, omega arith, at))
    ]

pub first_done-Slowest :
    (done_cycles : ℕ → ℕ) (count : ℕ)
    → 0 < count
    → Slowest done_cycles count (max_element (done_cycles 0) (readings done_cycles 1 (count - 1)))
first_done-Slowest done_cycles count some_consumer =
    subst
      (λ k.
        Slowest done_cycles k (max_element (done_cycles 0) (readings done_cycles 1 (count - 1))))
      (omega arith) (max_element-Slowest done_cycles (count - 1) 1 (done_cycles 0) first)
  where
    first : Slowest done_cycles 1 (done_cycles 0)
    first = (
      λ d lt. omega (arith, ap done_cycles {x = d} {y = 0} (omega arith)),
      (0, omega arith, refl),
    )
