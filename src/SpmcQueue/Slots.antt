-- ===== src/SpmcQueue/Slots.antt =====
-- The seqlock of one slot, through the steps of a push to it or to another.
use lock_free_queues.Prelude.{
  ℕ, ◌+◌, ◌*◌, ◌/◌, ◌%◌, ◌^◌, ◌<◌, ◌≡◌, ◌≢◌, sym, ap, ◌∙◌, arith, ℕ_discrete,
}
use lock_free_queues.Prelude.Words.{pow_pos}
use lock_free_queues.SpmcQueue.{Shared}
use lock_free_queues.SpmcQueue.Laps.{lap_split, slot_unique}
use lock_free_queues.SpmcQueue.Invariant.{SlotHolds}

module _ (bits width : ℕ) {A : Type 0} (msg : ℕ → ℕ → A) where
  abbrev Slots : ℕ → Shared A → ℕ → Type 0
  Slots = SlotHolds bits width msg

  abbrev lap_size : ℕ
  lap_size = 2 ^ bits

  -- A slot that a step leaves alone.
  pub SlotHolds_frame :
      {n : ℕ} {mem : Shared A} (mem' : Shared A) (j : ℕ)
      → mem'.version j ≡ mem.version j
      → ((k : ℕ) → mem'.cells j k ≡ mem.cells j k)
      → Slots n mem j
      → Slots n mem' j
  SlotHolds_frame mem' j same_version same_cells s = record {
    lap = s.lap;
    even = same_version ∙ s.even;
    reached = s.reached;
    current = s.current;
    words = λ k prev lt e. same_cells k ∙ s.words k prev lt e;
  }

  -- A push to another slot.
  pub SlotHolds-suc :
      {n : ℕ} {mem : Shared A} (j : ℕ)
      → j < lap_size
      → j ≢ n % lap_size
      → Slots n mem j
      → Slots (n + 1) mem j
  SlotHolds-suc {n} j lt ne s = record {
    lap = s.lap;
    even = s.even;
    reached = elim (ℕ_discrete n (s.lap * lap_size + j)) [
      | yes e ↦
          absurd
            (ne (sym (ap (λ t. t % lap_size) e ∙ slot_unique lap_size (pow_pos bits) s.lap j lt)))
      | no other ↦ omega (arith, s.reached)
    ];
    current = omega (arith, s.current);
    words = s.words;
  }

  -- The slot of push `n` as its last word is in place and its version stored.
  pub SlotHolds-written :
      {n : ℕ} {mem : Shared A}
      → mem.version (n % lap_size) ≡ 2 * (n / lap_size + 1)
      → ((k : ℕ) → k < width → mem.cells (n % lap_size) k ≡ msg n k)
      → Slots (n + 1) mem (n % lap_size)
  SlotHolds-written {n} even words = record {
    lap = n / lap_size + 1;
    even = even;
    reached = omega (arith, lap_split lap_size (pow_pos bits) n, pow_pos bits);
    current = omega (arith, lap_split lap_size (pow_pos bits) n, pow_pos bits);
    words = λ k prev lt e. words k lt ∙ ap (λ i. msg i k) (whole prev (omega arith));
  }
    where
      whole : (prev : ℕ) → n / lap_size ≡ prev → n ≡ prev * lap_size + n % lap_size
      whole prev e =
          sym (lap_split lap_size (pow_pos bits) n) ∙ ap (λ t. t * lap_size + n % lap_size) e
