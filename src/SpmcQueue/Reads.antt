-- ===== src/SpmcQueue/Reads.antt =====
-- A step of a consumer of the SPMC queue, as a step of a reader of the log.
use lock_free_queues.Prelude.{
  ℕ, zero, suc, ◌+◌, ◌*◌, ◌/◌, ◌%◌, ◌^◌, ◌≤◌, ◌<◌, ◌≡◌, refl, sym, ap, ap₂, ◌∙◌, subst, List, [],
  ◌∷◌, ◌++◌, append-nil, some, arith, dec_lt, ℕ_discrete, lt→ltb, le→ltb, ==_iff, ne→==, length,
  get_elem?,
}
use lock_free_queues.Prelude.Words.{add64}
use lock_free_queues.Memory.Copy.{read_cells}
use lock_free_queues.Memory.Messages.{objects, length-objects}
use lock_free_queues.BroadcastLog.{
  Cursor, absent, reading, thrown_out, ReadEvent, quiet, joins, delivers, misses, overrun, Moves,
  delivered, missed,
}
use lock_free_queues.SpmcQueue.{
  Shared, PushPc, PopPc, making, waiting, copying, aborted, Consumer, wrap, check, recheck,
  pop_step,
}
use lock_free_queues.SpmcQueue.Invariant.{bound, published, wrap_lem, PushInv, PopFacts, PopInv}
use lock_free_queues.SpmcQueue.Seqlock.{
  published-le, le-published, expected_lem, current_lem, overtaken, not_yet,
}
use lock_free_queues.SpmcQueue.Shown.{status, read_event, shows_status, shows_miss, shows_object}

abbrev pub cursor_of : {A : Type 0} → PopPc A → ℕ → Cursor
cursor_of making r = absent
cursor_of waiting r = reading r
cursor_of (copying temp) r = reading r
cursor_of aborted r = thrown_out

-- Nothing has been delivered before the consumer is made.
abbrev pub Fresh : {A : Type 0} → PopPc A → List (List A) → Type 0
Fresh making got = got ≡ []
Fresh _ got = Unit

module _ (width : ℕ) {A : Type 0} (msg : ℕ → ℕ → A) where
  get_elem?-objects :
      (from m i : ℕ)
      → i < m
      → get_elem? (objects width msg from m) i ≡ some (read_cells (msg (from + i)) 0 width)
  get_elem?-objects from zero i lt = absurd (omega arith)
  get_elem?-objects from (suc m) zero lt = ap (λ j. some (read_cells (msg j) 0 width)) (omega arith)
  get_elem?-objects from (suc m) (suc i) lt =
      get_elem?-objects (from + 1) m i (omega arith)
      ∙ ap (λ j. some (read_cells (msg j) 0 width)) (omega arith)

module _ (bits width : ℕ) {A : Type 0} (msg : ℕ → ℕ → A) where
  -- What a step of a consumer from `c` to `c'` does, while `m` objects are published.
  abbrev pub Reads : ℕ → PopPc A → Consumer A → Consumer A → Type 0
  Reads m p c c' =
      (e : ReadEvent (List A)) × (e ≡ read_event p c c')
      × Moves (2 ^ bits) (objects width msg 0 m) (cursor_of p c.reader) e
          (cursor_of c'.pc c'.reader)
      × (c'.got ≡ c.got ++ delivered e)
      × (c'.misses ≡ c.misses + missed e)
      × Fresh c'.pc c'.got

  module _ {n : ℕ} {mem : Shared A} (pc : PushPc) (inv : PushInv bits width msg n mem pc)
      (c : Consumer A) (k : PopInv bits width msg (published pc n) mem c)
      (room : published pc n ≤ bound) where
    abbrev target : ℕ
    target = 2 * (c.reader / 2 ^ bits + 1)

    expected : c.reader ≤ bound
    expected = omega (arith, k.behind)

    log_length : length (objects width msg 0 (published pc n)) ≡ published pc n
    log_length = length-objects width msg 0 (published pc n)

    -- The consumer aborts.
    lapped :
        (p : PopPc A)
        → cursor_of p c.reader ≡ reading c.reader
        → status p aborted ≡ overrun
        → c.reader + 2 ^ bits ≤ published pc n
        → Reads (published pc n) p c (record c { pc = aborted })
    lapped p at shown le = (
      overrun,
      sym shown ∙ shows_status p c (record c { pc = aborted }) refl refl,
      (c.reader, at, omega (arith, log_length), refl),
      sym (append-nil c.got),
      omega arith,
      tt,
    )

    check-Reads :
        (v : ℕ)
        → v ≡ mem.version (c.reader % 2 ^ bits)
        → c.pc ≡ waiting
        → Reads (published pc n) waiting c (check bits width c v)
    unfolding check
    check-Reads v e at = elim (dec_lt target v) [
      | yes high ↦
          rw (expected_lem bits c.reader expected, lt→ltb target v high)
            (lapped waiting refl refl (overtaken bits width msg pc c.reader inv (omega arith)))
      | no ge ↦ elim (dec_lt v target) [
        | yes low ↦
            let end : length (objects width msg 0 (published pc n)) ≡ c.reader =
              omega (
                arith,
                log_length,
                not_yet bits width msg pc c.reader inv (omega arith),
                k.behind,
              ) in
            rw
              (
                expected_lem bits c.reader expected,
                le→ltb target v (omega arith),
                lt→ltb v target low,
              )
              (
                misses,
                shows_miss waiting c (record c { misses = c.misses + 1 }) refl refl,
                (ap reading (sym end), ap (λ p. cursor_of p c.reader) at),
                sym (append-nil c.got),
                refl,
                subst (λ p. Fresh p c.got) (sym at) tt,
              )
        | no there ↦
            rw
              (
                expected_lem bits c.reader expected,
                le→ltb target v (omega arith),
                le→ltb v target (omega arith),
              )
              (
                quiet,
                shows_status waiting c (record c { pc = copying [] }) refl refl,
                refl,
                sym (append-nil c.got),
                omega arith,
                tt,
              )
      ]
    ]

    recheck-Reads :
        (temp : List A) (v : ℕ)
        → v ≡ mem.version (c.reader % 2 ^ bits)
        → width ≤ length temp
        → PopFacts bits width msg (published pc n) c.reader mem (copying temp)
        → Reads (published pc n) (copying temp) c (recheck bits width c temp v)
    unfolding recheck
    recheck-Reads temp v e full facts = elim (ℕ_discrete v target) [
      | yes eq ↦
          rw (expected_lem bits c.reader expected, (==_iff v target).1 eq)
            (
              delivers temp,
              shows_object (copying temp) c
                  (record c { reader = add64 c.reader 1; pc = waiting; got = c.got ++ (temp ∷ []) })
                  temp refl,
              (c.reader, refl, found (sym e ∙ eq), ap reading (omega arith)),
              refl,
              omega arith,
              tt,
            )
      | no ne ↦
          rw (expected_lem bits c.reader expected, ne→== v target ne)
            (lapped (copying temp) refl refl
              (overtaken bits width msg pc c.reader inv (omega (arith, facts.1))))
    ]
      where
        found :
            mem.version (c.reader % 2 ^ bits) ≡ target
            → get_elem? (objects width msg 0 (published pc n)) c.reader ≡ some temp
        found at =
            get_elem?-objects width msg 0 (published pc n) c.reader
              (current_lem bits width msg pc c.reader inv at).0
            ∙ ap some (
                ap₂ (λ r w. read_cells (msg r) 0 w) (omega arith) (omega (arith, full, facts.0))
                ∙ sym (facts.2 at))

    pub pop_step-Reads :
        (p : PopPc A)
        → c.pc ≡ p
        → Fresh p c.got
        → PopFacts bits width msg (published pc n) c.reader mem p
        → Reads (published pc n) p c (pop_step bits width mem c p)
    unfolding pop_step
    pop_step-Reads making at fresh facts = (
      joins,
      shows_status making c (pop_step bits width mem c making) (sym fresh) refl,
      (
        refl,
        (
          mem.writer,
          refl,
          omega (arith, log_length, inv.counted, le-published pc n),
          omega (arith, log_length, inv.counted, published-le pc n),
        ),
      ),
      sym (append-nil c.got ∙ fresh),
      omega arith,
      tt,
    )
    pop_step-Reads waiting at fresh facts =
        check-Reads (mem.version (wrap bits c.reader)) (ap mem.version (wrap_lem bits c.reader)) at
    pop_step-Reads (copying temp) at fresh facts = elim (dec_lt (length temp) width) [
      | yes lt ↦ rw (lt→ltb (length temp) width lt) (
        quiet,
        shows_status (copying temp) c
            (record c {
              pc = copying (temp ++ (mem.cells (wrap bits c.reader) (length temp) ∷ []));
            })
            refl refl,
        refl,
        sym (append-nil c.got),
        omega arith,
        tt,
      )
      | no ge ↦ rw (le→ltb (length temp) width (omega arith)) (
          recheck-Reads temp (mem.version (wrap bits c.reader))
            (ap mem.version (wrap_lem bits c.reader)) (omega arith) facts)
    ]
    pop_step-Reads aborted at fresh facts = (
      quiet,
      shows_status aborted c c refl refl,
      ap (λ p. cursor_of p c.reader) at,
      sym (append-nil c.got),
      omega arith,
      subst (λ p. Fresh p c.got) (sym at) tt,
    )
