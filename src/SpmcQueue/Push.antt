-- ===== src/SpmcQueue/Push.antt =====
-- Each step of `push` keeps the seqlocks.
use lock_free_queues.Prelude.{
  ℕ, ◌+◌, ◌*◌, ◌/◌, ◌%◌, ◌^◌, ◌≤◌, ◌<◌, ◌≡◌, refl, sym, ap, ◌∙◌, arith, dec_lt, ℕ_discrete, lt→ltb,
  le→ltb, update, subst, update_self, update_ne,
}
use native.Mathlib.Nat.{mod-lt}
use lock_free_queues.Prelude.Words.{pow_pos, add64}
use lock_free_queues.SpmcQueue.{
  Shared, PushPc, ready, loaded, versioned, writing, stored, wrap, set_version, set_word, push_step,
}
use lock_free_queues.SpmcQueue.System.{count_push}
use lock_free_queues.SpmcQueue.Laps.{lap_split, lap_unique}
use lock_free_queues.SpmcQueue.Invariant.{bound, published, wrap_lem, SlotHolds, PushInv}
use lock_free_queues.SpmcQueue.Slots.{SlotHolds_frame, SlotHolds-suc, SlotHolds-written}

module _ (bits width : ℕ) {A : Type 0} (msg : ℕ → ℕ → A) where
  abbrev Slots : ℕ → Shared A → ℕ → Type 0
  Slots = SlotHolds bits width msg

  abbrev lap_size : ℕ
  lap_size = 2 ^ bits

  lap-le : (n : ℕ) → n / lap_size ≤ n
  lap-le n = grind (arith, lap_split lap_size (pow_pos bits) n, pow_pos bits)

  at : {n : ℕ} (w : ℕ) → w ≡ n → wrap bits w ≡ n % lap_size
  at w e = wrap_lem bits w ∙ ap (λ t. t % lap_size) e

  -- The version that push `n` finds counts the laps before it.
  version_before :
      {n : ℕ} {mem : Shared A}
      → Slots n mem (n % lap_size)
      → mem.version (n % lap_size) ≡ 2 * (n / lap_size)
  version_before {n} s =
      omega (arith, s.even, lap_unique lap_size (pow_pos bits) n s.lap s.reached s.current)

  raised : (f : ℕ → ℕ) (i v j : ℕ) → f i ≤ v → f j ≤ update f i v j
  raised f i v j le = elim (ℕ_discrete i j) [
    | yes e ↦ rw (update_self f i v e, ← e) le
    | no ne ↦ rw (update_ne f i v ne) (omega arith)
  ]

  -- What a step of `push` keeps.
  abbrev Kept : ℕ → PushPc → Shared A × PushPc → Type 0
  Kept n pc (mem, pc') = PushInv bits width msg (count_push pc n) mem pc'

  module _ {n : ℕ} {mem : Shared A} (room : n + 1 < bound) where
    begin : PushInv bits width msg n mem ready → PushInv bits width msg n mem (loaded mem.writer)
    begin inv = record {
      small = inv.small;
      counted = inv.counted;
      facts = inv.counted;
      slots = inv.slots;
    }

    load_version :
        (w : ℕ)
        → PushInv bits width msg n mem (loaded w)
        → PushInv bits width msg n mem (versioned w (mem.version (wrap bits w)))
    load_version w inv = record {
      small = inv.small;
      counted = inv.counted;
      facts = (inv.facts, ap mem.version (wrap_lem bits w ∙ ap (λ t. t % lap_size) inv.facts));
      slots = inv.slots;
    }

    mark :
        (w v : ℕ)
        → PushInv bits width msg n mem (versioned w v)
        → PushInv bits width msg n (set_version mem (wrap bits w) (add64 v 1)) (writing w v 0)
    mark w v inv = record {
      small = inv.small;
      counted = inv.counted;
      facts = (
        inv.facts.0,
        laps,
        update_self mem.version (wrap bits w) (add64 v 1) (at w inv.facts.0)
            ∙ omega (arith, laps, lap-le n, inv.small),
        omega arith,
        λ i lt. absurd (omega arith),
      );
      slots = λ j lt ne.
          SlotHolds_frame bits width msg (set_version mem (wrap bits w) (add64 v 1)) j
            (update_ne mem.version (wrap bits w) (add64 v 1) (omega (arith, wrap_lem bits w)))
            (λ k. refl) (inv.slots j lt tt);
    }
      where
        laps : v ≡ 2 * (n / lap_size)
        laps = inv.facts.1 ∙ version_before (inv.slots (n % lap_size) (mod-lt n (pow_pos bits)) tt)

    write_word :
        (w v k : ℕ)
        → k < width
        → PushInv bits width msg n mem (writing w v k)
        → PushInv bits width msg n (set_word mem (wrap bits w) k (msg n k)) (writing w v (k + 1))
    write_word w v k lt inv = record {
      small = inv.small;
      counted = inv.counted;
      facts = (inv.facts.0, inv.facts.1, inv.facts.2, omega arith, words);
      slots = λ j below ne.
          SlotHolds_frame bits width msg after j refl
            (λ i.
              ap (λ (row : ℕ → A). row i)
                (update_ne mem.cells (wrap bits w) row_after (omega (arith, wrap_lem bits w))))
            (inv.slots j below ne);
    }
      where
        row_after : ℕ → A
        row_after = update (mem.cells (wrap bits w)) k (msg n k)

        after : Shared A
        after = set_word mem (wrap bits w) k (msg n k)

        row : after.cells (n % lap_size) ≡ row_after
        row = update_self mem.cells (wrap bits w) row_after (at w inv.facts.0)

        words : (i : ℕ) → i < k + 1 → after.cells (n % lap_size) i ≡ msg n i
        words i below = ap (λ (r : ℕ → A). r i) row ∙ elim (ℕ_discrete k i) [
          | yes e ↦ update_self (mem.cells (wrap bits w)) k (msg n k) e ∙ ap (msg n) e
          | no ne ↦
              update_ne (mem.cells (wrap bits w)) k (msg n k) ne
              ∙ ap (λ s. mem.cells s i) (at w inv.facts.0)
              ∙ inv.facts.4 i (omega arith)
        ]

    seal :
        (w v k : ℕ)
        → width ≤ k
        → PushInv bits width msg n mem (writing w v k)
        → PushInv bits width msg n (set_version mem (wrap bits w) (add64 v 2)) (stored w)
    seal w v k le inv = record {
      small = inv.small;
      counted = inv.counted;
      facts = inv.facts.0;
      slots = slots;
    }
      where
        after : Shared A
        after = set_version mem (wrap bits w) (add64 v 2)

        slots : (j : ℕ) → j < lap_size → Unit {0} → SlotHolds bits width msg (n + 1) after j
        slots j below _ = elim (ℕ_discrete (n % lap_size) j) [
          | yes e ↦ subst (SlotHolds bits width msg (n + 1) after) e (
              SlotHolds-written bits width msg
                (update_self mem.version (wrap bits w) (add64 v 2) (at w inv.facts.0)
                  ∙ omega (arith, inv.facts.1, lap-le n, inv.small))
                (λ i lt. inv.facts.4 i (omega (arith, inv.facts.3))))
          | no ne ↦
              SlotHolds_frame bits width msg after j
                (update_ne mem.version (wrap bits w) (add64 v 2) (omega (arith, at w inv.facts.0)))
                (λ i. refl)
                (SlotHolds-suc bits width msg j below (λ e. ne (sym e))
                  (inv.slots j below (λ e. ne (sym (e ∙ ap (λ t. t % lap_size) inv.facts.0)))))
        ]

    publish :
        (w : ℕ)
        → PushInv bits width msg n mem (stored w)
        → PushInv bits width msg (n + 1) (record mem { writer = add64 w 1 }) ready
    publish w inv = record {
      small = room;
      counted = omega (arith, inv.facts, inv.small);
      facts = tt;
      slots = λ j below _.
          SlotHolds_frame bits width msg (record mem { writer = add64 w 1 }) j refl (λ k. refl)
            (inv.slots j below tt);
    }

  -- Every step of `push` keeps the invariant.
  pub push_step-PushInv :
      {n : ℕ} {mem : Shared A} (pc : PushPc)
      → n + 1 < bound
      → PushInv bits width msg n mem pc
      → Kept n pc (push_step bits width (msg n) mem pc)
  unfolding push_step
  push_step-PushInv ready room inv = begin room inv
  push_step-PushInv (loaded w) room inv = load_version room w inv
  push_step-PushInv (versioned w v) room inv = mark room w v inv
  push_step-PushInv {n} {mem} (writing w v k) room inv = elim (dec_lt k width) [
    | yes lt ↦ rw (lt→ltb k width lt) (write_word room w v k lt inv)
    | no ge ↦ rw (le→ltb k width (omega arith)) (seal room w v k (omega arith) inv)
  ]
  push_step-PushInv (stored w) room inv = publish room w inv

  -- A version never goes down, and a published object stays published.
  pub push_step_mono :
      {n : ℕ} {mem : Shared A} (pc : PushPc)
      → n + 1 < bound
      → PushInv bits width msg n mem pc
      → let (mem', pc') = push_step bits width (msg n) mem pc in
        ((j : ℕ) → mem.version j ≤ mem'.version j)
        × (published pc n ≤ published pc' (count_push pc n))
  unfolding push_step
  push_step_mono ready room inv = (λ j. omega arith, omega arith)
  push_step_mono (loaded w) room inv = (λ j. omega arith, omega arith)
  push_step_mono {n} {mem} (versioned w v) room inv =
      (λ j. raised mem.version (wrap bits w) (add64 v 1) j (rw (at w inv.facts.0) odd), omega arith)
    where
      odd : mem.version (n % lap_size) ≤ add64 v 1
      odd = omega (
        arith,
        inv.facts.1,
        inv.small,
        lap-le n,
        version_before (inv.slots (n % lap_size) (mod-lt n (pow_pos bits)) tt),
      )
  push_step_mono {n} {mem} (writing w v k) room inv = elim (dec_lt k width) [
    | yes lt ↦ rw (lt→ltb k width lt) (λ j. omega arith, omega arith)
    | no ge ↦ rw (le→ltb k width (omega arith)) (
      λ j. raised mem.version (wrap bits w) (add64 v 2) j (rw (at w inv.facts.0) even),
      omega arith,
    )
  ]
    where
      even : mem.version (n % lap_size) ≤ add64 v 2
      even = omega (arith, inv.facts.1, inv.facts.2, inv.small, lap-le n)
  push_step_mono (stored w) room inv = (λ j. omega arith, omega arith)
