-- ===== src/SpmcQueue/Lone.antt =====
-- A call of `pop` that the producer does not disturb.
use lock_free_queues.Prelude.{
  ℕ, zero, suc, ◌+◌, ◌*◌, ◌/◌, ◌%◌, ◌^◌, ◌<◌, ◌≡◌, refl, sym, ap, ap₂, ◌∙◌, List, [], ◌∷◌, ◌++◌,
  arith, length, lt→ltb, le→ltb, ==_iff, dec_lt,
}
use lock_free_queues.Memory.Copy.{read_cells, length-read_cells}
use lock_free_queues.Memory.Messages.{read_cells-zero, read_cells-suc}
use lock_free_queues.SpmcQueue.{
  Shared, PushPc, waiting, copying, Consumer, wrap, expected_version, check, recheck, pop_step,
  pop_alone,
}
use lock_free_queues.SpmcQueue.Invariant.{bound, published, wrap_lem, PushInv}
use lock_free_queues.SpmcQueue.Seqlock.{expected_lem, current_lem, not_yet, overtaken}

module _ (bits width : ℕ) {A : Type 0} (msg : ℕ → ℕ → A) {n : ℕ} {mem : Shared A} (pc : PushPc)
    (inv : PushInv bits width msg n mem pc) (r : ℕ) where
  abbrev target : ℕ
  target = 2 * (r / 2 ^ bits + 1)

  -- The slot of a message that is there, and is not being overwritten, has its version.
  pub version_there :
      r < published pc n → published pc n < r + 2 ^ bits → mem.version (r % 2 ^ bits) ≡ target
  version_there lo hi = elim (dec_lt (mem.version (r % 2 ^ bits)) target) [
    | yes lt ↦ absurd (omega (arith, not_yet bits width msg pc r inv lt))
    | no ge ↦ elim (dec_lt target (mem.version (r % 2 ^ bits))) [
      | yes gt ↦ absurd (omega (arith, overtaken bits width msg pc r inv gt))
      | no eq ↦ omega arith
    ]
  ]

  module _ (c : Consumer A) (here : c.reader ≡ r) (low : r < bound)
      (at : mem.version (r % 2 ^ bits) ≡ target) where
    -- The consumer after the call.
    abbrev pub served : Consumer A
    served = record c {
      reader = c.reader + 1;
      pc = waiting;
      got = c.got ++ (read_cells (msg r) 0 width ∷ []);
    }

    found : mem.version (wrap bits c.reader) ≡ target
    found = ap mem.version (wrap_lem bits c.reader ∙ ap (λ t. t % 2 ^ bits) here) ∙ at

    expected : expected_version bits c.reader ≡ target
    expected = ap (expected_version bits) here ∙ expected_lem bits r (omega arith)

    -- The last step, when all words are copied.
    last_step :
        (temp : List A)
        → width ≡ length temp
        → temp ≡ read_cells (msg r) 0 width
        → pop_step bits width mem (record c { pc = copying temp }) (copying temp) ≡ served
    unfolding pop_step recheck
    last_step temp full e =
        rw
          (
            le→ltb (length temp) width (omega arith),
            found,
            recheck,
            expected,
            (==_iff target target).1 refl,
          )
          (ap₂ (λ i t. record c { reader = i; pc = waiting; got = c.got ++ (t ∷ []) }) (omega arith)
            e)

    word_step :
        (temp : List A)
        → length temp < width
        → temp ≡ read_cells (msg r) 0 (length temp)
        → pop_step bits width mem (record c { pc = copying temp }) (copying temp)
          ≡ record c { pc = copying (read_cells (msg r) 0 (suc (length temp))) }
    unfolding pop_step
    word_step temp lt e = rw (lt→ltb (length temp) width lt) (
        ap (λ t. record c { pc = copying t })
          (ap₂ (λ t x. t ++ (x ∷ [])) e
              (ap (λ j. mem.cells j (length temp))
                  (wrap_lem bits c.reader ∙ ap (λ t. t % 2 ^ bits) here)
                ∙ (current_lem bits width msg pc r inv at).1 (length temp) lt
                ∙ ap (msg r) (omega arith))
            ∙ sym (read_cells-suc (msg r) 0 (length temp))))

    first_step :
        pop_step bits width mem (record c { pc = waiting }) waiting ≡ record c { pc = copying [] }
    unfolding pop_step check
    first_step = rw (found, check, expected, le→ltb target target (omega arith))

    copy_loop :
        (j : ℕ) (temp : List A)
        → length temp + j ≡ width
        → temp ≡ read_cells (msg r) 0 (length temp)
        → pop_alone bits width (suc j) mem (record c { pc = copying temp }) ≡ served
    unfolding pop_alone
    copy_loop zero temp full e =
        last_step temp (omega arith) (e ∙ ap (read_cells (msg r) 0) (omega arith))
    copy_loop (suc j) temp full e =
        ap (pop_alone bits width (suc j) mem) (word_step temp (omega arith) e)
        ∙ copy_loop j (read_cells (msg r) 0 (suc (length temp)))
            (omega (arith, length-read_cells (msg r) 0 (suc (length temp))))
            (ap (read_cells (msg r) 0) (sym (length-read_cells (msg r) 0 (suc (length temp)))))

    pub pop_alone-served : pop_alone bits width (width + 2) mem (record c { pc = waiting }) ≡ served
    unfolding pop_alone
    pop_alone-served =
        ap (λ k. pop_alone bits width k mem (record c { pc = waiting })) two
        ∙ ap (pop_alone bits width (suc width) mem) first_step
        ∙ copy_loop width [] (omega arith) (sym (read_cells-zero (msg r) 0))
      where
        two : width + 2 ≡ suc (suc width)
        two = omega arith
