-- ===== src/SpmcQueue/Outcome.antt =====
-- What a call of `pop` does after any schedule, if the producer does not move meanwhile.
use lock_free_queues.Prelude.{
  ℕ, ◌+◌, ◌*◌, ◌/◌, ◌%◌, ◌^◌, ◌<◌, ◌≡◌, refl, sym, ap, ◌∙◌, List, [], ◌∷◌, ◌++◌, arith, length,
  lt→ltb, le→ltb, inl, inr, subst,
}
use lock_free_queues.Prelude.Words.{pow_pos}
use native.Mathlib.Nat.{mod-lt}
use lock_free_queues.Memory.Copy.{read_cells}
use lock_free_queues.SpmcQueue.{
  Shared, PushPc, waiting, aborted, Consumer, wrap, expected_version, check, pop_step, pop_alone,
}
use lock_free_queues.SpmcQueue.System.{System, Turn}
use lock_free_queues.SpmcQueue.Laps.{lap_unique, lap_split, lt_of_mul}
use lock_free_queues.SpmcQueue.Invariant.{bound, published, wrap_lem, PushInv}
use lock_free_queues.SpmcQueue.Seqlock.{published-le, expected_lem, slot_cases}
use lock_free_queues.SpmcQueue.Delivery.{Inv, reached, consumer, reached-Inv}
use lock_free_queues.SpmcQueue.Lone.{version_there, pop_alone-served}

module _ (bits width : ℕ) {A : Type 0} (msg : ℕ → ℕ → A) where
  -- The slot of the first message that is not published has not got its version.
  version_absent :
      {n : ℕ} {mem : Shared A} (pc : PushPc) (r : ℕ)
      → PushInv bits width msg n mem pc
      → r ≡ published pc n
      → mem.version (r % 2 ^ bits) < 2 * (r / 2 ^ bits + 1)
  version_absent {n} {mem} pc r inv e =
      elim (slot_cases bits width msg pc (r % 2 ^ bits) inv (mod-lt r (pow_pos bits))) [
        | inl s ↦ omega (
          arith,
          s.even,
          lap_unique (2 ^ bits) (pow_pos bits) r s.lap (omega (arith, s.reached))
              (omega (arith, s.current)),
        )
        | inr busy ↦ omega (arith, busy, ap (λ t. t / 2 ^ bits) (e ∙ busy.0))
      ]

  -- The slot of a message that a whole lap has passed has a later version.
  version_passed :
      {n : ℕ} {mem : Shared A} (pc : PushPc) (r : ℕ)
      → PushInv bits width msg n mem pc
      → r + 2 ^ bits < published pc n
      → 2 * (r / 2 ^ bits + 1) < mem.version (r % 2 ^ bits)
  version_passed {n} {mem} pc r inv lt =
      elim (slot_cases bits width msg pc (r % 2 ^ bits) inv (mod-lt r (pow_pos bits))) [
        | inl s ↦ omega (
          arith,
          s.even,
          lt_of_mul (r / 2 ^ bits + 1) s.lap (2 ^ bits)
              (omega (arith, s.reached, lap_split (2 ^ bits) (pow_pos bits) r)),
        )
        | inr busy ↦ omega (
          arith,
          busy,
          lt_of_mul (r / 2 ^ bits + 1) (n / 2 ^ bits) (2 ^ bits) (
              omega (
                arith,
                busy,
                lap_split (2 ^ bits) (pow_pos bits) r,
                lap_split (2 ^ bits) (pow_pos bits) n,
              )),
        )
      ]

  check_high :
      (c : Consumer A) (mem : Shared A) (target : ℕ)
      → expected_version bits c.reader ≡ target
      → target < mem.version (wrap bits c.reader)
      → pop_step bits width mem c waiting ≡ record c { pc = aborted }
  unfolding pop_step check
  check_high c mem target e lt = rw (e, lt→ltb target (mem.version (wrap bits c.reader)) lt)

  check_low :
      (c : Consumer A) (mem : Shared A) (target : ℕ)
      → expected_version bits c.reader ≡ target
      → mem.version (wrap bits c.reader) < target
      → pop_step bits width mem c waiting ≡ record c { misses = c.misses + 1 }
  unfolding pop_step check
  check_low c mem target e lt = rw (
    e,
    le→ltb target (mem.version (wrap bits c.reader)) (omega arith),
    lt→ltb (mem.version (wrap bits c.reader)) target lt,
  )

  module _ (blank : ℕ → ℕ → A) (ts : List Turn) (c : ℕ) (short : length ts + 1 < bound) where
    abbrev me : Consumer A
    me = consumer bits width msg blank ts c

    abbrev now : System A
    now = reached bits width msg blank ts c

    inv : Inv bits width msg 1 now
    inv = reached-Inv bits width msg blank ts c 1 short

    abbrev pushes : ℕ
    pushes = published now.pc now.pushed

    -- After any schedule of fewer than 2^62 - 1 steps from an empty queue, a consumer that is
    -- between two calls, and whose next object is published and less than a lap old, gets it: if
    -- the producer does not move, `pop` returns true with that object after `width + 2` shared
    -- accesses, and moves on by one.
    pub pop_delivers_next :
        me.pc ≡ waiting
        → me.reader < pushes
        → pushes < me.reader + 2 ^ bits
        → pop_alone bits width (width + 2) now.mem me ≡ record me {
          reader = me.reader + 1;
          pc = waiting;
          got = me.got ++ (read_cells (msg me.reader) 0 width ∷ []);
        }
    pop_delivers_next idle lo hi =
        ap (λ p. pop_alone bits width (width + 2) now.mem (record me { pc = p })) idle
        ∙ pop_alone-served bits width msg now.pc inv.pushing me.reader me refl
            (omega (arith, inv.room, published-le now.pc now.pushed))
            (version_there bits width msg now.pc inv.pushing me.reader lo hi)

    -- After any schedule of fewer than 2^62 - 1 steps from an empty queue, the `pop` of a consumer
    -- that is between two calls and has read every published object returns false and leaves the
    -- consumer where it is.
    pub pop_false_at_end :
        me.pc ≡ waiting
        → me.reader ≡ pushes
        → pop_step bits width now.mem me me.pc ≡ record me { misses = me.misses + 1 }
    pop_false_at_end idle e =
        ap (pop_step bits width now.mem me) idle
        ∙ check_low me now.mem (2 * (me.reader / 2 ^ bits + 1))
            (expected_lem bits me.reader (omega (arith, inv.room, published-le now.pc now.pushed)))
            (subst (λ j. now.mem.version j < 2 * (me.reader / 2 ^ bits + 1))
              (sym (wrap_lem bits me.reader)) (version_absent now.pc me.reader inv.pushing e))

    -- After any schedule of fewer than 2^62 - 1 steps from an empty queue, the `pop` of a consumer
    -- that is between two calls, and whose next object is more than a lap old, aborts at its first
    -- access.
    pub pop_aborts_behind :
        me.pc ≡ waiting
        → me.reader + 2 ^ bits < pushes
        → pop_step bits width now.mem me me.pc ≡ record me { pc = aborted }
    pop_aborts_behind idle lt =
        ap (pop_step bits width now.mem me) idle
        ∙ check_high me now.mem (2 * (me.reader / 2 ^ bits + 1))
            (expected_lem bits me.reader (omega (arith, inv.room, published-le now.pc now.pushed)))
            (subst (λ j. 2 * (me.reader / 2 ^ bits + 1) < now.mem.version j)
              (sym (wrap_lem bits me.reader)) (version_passed now.pc me.reader inv.pushing lt))
