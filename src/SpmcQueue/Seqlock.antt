-- ===== src/SpmcQueue/Seqlock.antt =====
-- The seqlock of a slot as a consumer sees it: what the version says of the object.
use lock_free_queues.Prelude.{
  ℕ, ◌+◌, ◌*◌, ◌/◌, ◌%◌, ◌^◌, ◌≤◌, ◌<◌, ◌≡◌, refl, ◌⊎◌, inl, inr, sym, ap, ◌∙◌, arith, ℕ_discrete,
}
use lock_free_queues.Prelude.Words.{pow_pos}
use native.Mathlib.Nat.{mod-lt}
use lock_free_queues.SpmcQueue.{
  Shared, PushPc, ready, loaded, versioned, writing, stored, expected_version,
}
use lock_free_queues.SpmcQueue.Laps.{lap_split}
use lock_free_queues.SpmcQueue.Invariant.{bound, published, SlotHolds, Untouched, PushInv}

mul_mono : (a b c : ℕ) → a ≤ b → a * c ≤ b * c
mul_mono a b c h = grind arith

lap_le : (bits n : ℕ) → n / 2 ^ bits ≤ n
lap_le bits n = grind (arith, lap_split (2 ^ bits) (pow_pos bits) n, pow_pos bits)

pub published-le : (pc : PushPc) (n : ℕ) → published pc n ≤ n + 1
published-le ready n = omega arith
published-le (stored w) n = omega arith
published-le pc n = omega arith

pub le-published : (pc : PushPc) (n : ℕ) → n ≤ published pc n
le-published ready n = omega arith
le-published (stored w) n = omega arith
le-published pc n = omega arith

-- The version that the reader of message `r` waits for.
pub expected_lem : (bits r : ℕ) → r ≤ bound → expected_version bits r ≡ 2 * (r / 2 ^ bits + 1)
unfolding expected_version
expected_lem bits r le = omega (arith, lap_le bits r)

module _ (bits width : ℕ) {A : Type 0} (msg : ℕ → ℕ → A) where
  module _ {n : ℕ} {mem : Shared A} where
    -- A slot with an even version is not being written.
    untouched :
        (pc : PushPc)
        → PushInv bits width msg n mem pc
        → (j lap : ℕ) → mem.version j ≡ 2 * lap
        → Untouched bits width msg pc j
    untouched ready inv j lap even = tt
    untouched (loaded w) inv j lap even = tt
    untouched (versioned w v) inv j lap even = tt
    untouched (writing w v k) inv j lap even =
        λ e. absurd (omega (arith, odd e, inv.facts.1, inv.facts.2))
      where
        odd : j ≡ w % 2 ^ bits → mem.version (n % 2 ^ bits) ≡ 2 * lap
        odd e = ap mem.version (ap (λ t. t % 2 ^ bits) (sym inv.facts.0) ∙ sym e) ∙ even
    untouched (stored w) inv j lap even = tt

    -- A slot at the version that the reader of message `r` waits for holds that message.
    pub current_lem :
        (pc : PushPc) (r : ℕ)
        → PushInv bits width msg n mem pc
        → mem.version (r % 2 ^ bits) ≡ 2 * (r / 2 ^ bits + 1)
        → (r < published pc n) × ((k : ℕ) → k < width → mem.cells (r % 2 ^ bits) k ≡ msg r k)
    current_lem pc r inv at = (
      omega (
        arith,
        s.current,
        ap (λ t. t * 2 ^ bits) same_lap,
        lap_split (2 ^ bits) (pow_pos bits) r,
      ),
      λ k lt.
          s.words k (r / 2 ^ bits) lt (omega (arith, s.even))
          ∙ ap (λ i. msg i k) (lap_split (2 ^ bits) (pow_pos bits) r),
    )
      where
        s : SlotHolds bits width msg (published pc n) mem (r % 2 ^ bits)
        s =
            inv.slots (r % 2 ^ bits) (mod-lt r (pow_pos bits))
              (untouched pc inv (r % 2 ^ bits) (r / 2 ^ bits + 1) at)

        same_lap : s.lap ≡ r / 2 ^ bits + 1
        same_lap = omega (arith, s.even)

    -- The slot is at rest, or push `n` is writing it.
    pub slot_cases :
        (pc : PushPc) (j : ℕ)
        → PushInv bits width msg n mem pc
        → j < 2 ^ bits
        → SlotHolds bits width msg (published pc n) mem j
          ⊎ ((published pc n ≡ n) × (j ≡ n % 2 ^ bits) × (mem.version j ≡ 2 * (n / 2 ^ bits) + 1))
    slot_cases ready j inv lt = inl (inv.slots j lt tt)
    slot_cases (loaded w) j inv lt = inl (inv.slots j lt tt)
    slot_cases (versioned w v) j inv lt = inl (inv.slots j lt tt)
    slot_cases (writing w v k) j inv lt = elim (ℕ_discrete j (w % 2 ^ bits)) [
      | yes e ↦
          let here : j ≡ n % 2 ^ bits = e ∙ ap (λ t. t % 2 ^ bits) inv.facts.0 in
          inr (refl, here, ap mem.version here ∙ omega (arith, inv.facts.1, inv.facts.2))
      | no ne ↦ inl (inv.slots j lt ne)
    ]
    slot_cases (stored w) j inv lt = inl (inv.slots j lt tt)

    -- A version that is too small: the message is not there yet.
    pub not_yet :
        (pc : PushPc) (r : ℕ)
        → PushInv bits width msg n mem pc
        → mem.version (r % 2 ^ bits) < 2 * (r / 2 ^ bits + 1)
        → published pc n ≤ r
    not_yet pc r inv lt = elim (slot_cases pc (r % 2 ^ bits) inv (mod-lt r (pow_pos bits))) [
      | inl s ↦ omega (
        arith,
        s.even,
        s.reached,
        mul_mono s.lap (r / 2 ^ bits) (2 ^ bits) (omega (arith, s.even)),
        lap_split (2 ^ bits) (pow_pos bits) r,
      )
      | inr busy ↦ omega (
        arith,
        busy,
        mul_mono (n / 2 ^ bits) (r / 2 ^ bits) (2 ^ bits) (omega (arith, busy)),
        lap_split (2 ^ bits) (pow_pos bits) r,
        lap_split (2 ^ bits) (pow_pos bits) n,
      )
    ]

    -- A version that is too large: the message a lap later is there, or is being written.
    pub overtaken :
        (pc : PushPc) (r : ℕ)
        → PushInv bits width msg n mem pc
        → 2 * (r / 2 ^ bits + 1) < mem.version (r % 2 ^ bits)
        → r + 2 ^ bits ≤ published pc n
    overtaken pc r inv lt = elim (slot_cases pc (r % 2 ^ bits) inv (mod-lt r (pow_pos bits))) [
      | inl s ↦ omega (
        arith,
        s.even,
        s.current,
        mul_mono (r / 2 ^ bits + 2) s.lap (2 ^ bits) (omega (arith, s.even)),
        lap_split (2 ^ bits) (pow_pos bits) r,
      )
      | inr busy ↦ omega (
        arith,
        busy,
        mul_mono (r / 2 ^ bits + 1) (n / 2 ^ bits) (2 ^ bits) (omega (arith, busy)),
        lap_split (2 ^ bits) (pow_pos bits) r,
        lap_split (2 ^ bits) (pow_pos bits) n,
      )
    ]
