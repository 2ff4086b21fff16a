-- ===== src/SpscQueue/Threads/Pop.antt =====
-- Each step of `try_pop` keeps the invariant, and shows the caller what a FIFO queue would.
use lock_free_queues.Prelude.{
  ℕ, zero, suc, ◌+◌, ◌-◌, ◌%◌, ◌≤◌, ◌<◌, ◌≡◌, refl, sym, ap, ap₂, ◌∙◌, arith, dec_lt, ℕ_discrete,
  lt→ltb, le→ltb, List, [], ◌∷◌, ◌++◌, length, length-append, ne→==, ==_iff,
}
use lock_free_queues.Prelude.Words.{add64}
use lock_free_queues.Memory.Copy.{read_cells}
use lock_free_queues.Memory.Messages.{read_cells-zero, read_cells-suc, objects}
use lock_free_queues.SpscQueue.{buffer_size_slots, wrap}
use lock_free_queues.SpscQueue.Contents.{capacity, wrap_lem}
use lock_free_queues.SpscQueue.Threads.{
  Shared, PushPc, PopPc, waiting, seen, copying, Event, popped, pop_step, count,
}
use lock_free_queues.SpscQueue.Threads.Spec.{Does}
use lock_free_queues.SpscQueue.Threads.Invariant.{Inv, held, move_popper, PushFacts-suc}

module _ (width : ℕ) {A : Type 0} (msg : ℕ → ℕ → A) where
  -- A step of the consumer, and what it keeps.
  abbrev pub Goes : ℕ → ℕ → PushPc → Shared A × PopPc A × Event A → Type 0
  Goes n p pc (m', qc', e) =
      Inv width msg m' n (count e p) pc qc'
      × Does capacity (held width msg n p) e (held width msg n (count e p))

  held_none : (n p : ℕ) → n ≡ p → held width msg n p ≡ []
  held_none n p e = ap (objects width msg p) {y = zero} (omega arith)

  held_first :
      (n p : ℕ) → p < n → held width msg n p ≡ read_cells (msg p) 0 width ∷ held width msg n (p + 1)
  held_first n p lt =
      ap (objects width msg p) {y = suc (n - p - 1)} (omega arith)
      ∙ ap (λ k. read_cells (msg p) 0 width ∷ objects width msg (p + 1) k) (omega arith)

  module _ {m : Shared A} {n p : ℕ} {pc : PushPc} where
    look : (r : ℕ) → Inv width msg m n p pc (seen r) → Goes n p pc (pop_step width m (seen r))
    unfolding pop_step
    look r inv = elim (ℕ_discrete n p) [
      | yes e ↦
          rw ((==_iff r m.writer).1 (omega (arith, e, inv.popping, inv.writer_at)))
            (move_popper width msg waiting tt inv, (held_none n p e, held_none n p e))
      | no more ↦
          let ahead : p < n = omega (arith, inv.behind) in
          rw (ne→== r m.writer (omega (arith, inv.popping, inv.writer_at, inv.room))) (
            move_popper width msg (copying r [])
                (inv.popping, ahead, omega arith, sym (read_cells-zero (msg p) 0)) inv,
            refl,
          )
    ]

    copy :
        (r : ℕ) (dst : List A)
        → Inv width msg m n p pc (copying r dst)
        → length dst < width
        → Inv width msg m n p pc (copying r (dst ++ (m.buffer (wrap r) (length dst) ∷ [])))
    copy r dst inv more =
        move_popper width msg (copying r (dst ++ (x ∷ [])))
          (inv.popping.0, inv.popping.1, omega (arith, grown), words) inv
      where
        x : A
        x = m.buffer (wrap r) (length dst)

        grown : length (dst ++ (x ∷ [])) ≡ suc (length dst)
        grown = omega (arith, length-append dst (x ∷ []))

        word : x ≡ msg p (0 + length dst)
        word =
            ap (λ i. m.buffer i (length dst)) {y = p % buffer_size_slots}
              (omega (arith, wrap_lem r, inv.popping.0))
            ∙ inv.cells p (length dst) (omega arith) inv.popping.1 more
            ∙ ap (msg p) (omega arith)

        words : dst ++ (x ∷ []) ≡ read_cells (msg p) 0 (length (dst ++ (x ∷ [])))
        words =
            ap₂ (λ l y. l ++ (y ∷ [])) inv.popping.3 word
            ∙ sym (ap (read_cells (msg p) 0) grown ∙ read_cells-suc (msg p) 0 (length dst))

    release :
        (r : ℕ) (dst : List A)
        → Inv width msg m n p pc (copying r dst)
        → Inv width msg (record m { reader = add64 r 1 }) n (p + 1) pc waiting
    release r dst inv = record {
      writer_at = inv.writer_at;
      reader_at = omega (arith, inv.popping.0);
      behind = omega (arith, inv.popping.1);
      room = omega (arith, inv.room);
      cells = λ i k lo hi lt. inv.cells i k (omega arith) hi lt;
      pushing = PushFacts-suc width msg m (add64 r 1) n p pc inv.pushing;
      popping = tt;
    }

    dequeued :
        (r : ℕ) (dst : List A)
        → Inv width msg m n p pc (copying r dst)
        → width ≤ length dst
        → Does capacity (held width msg n p) (popped dst) (held width msg n (p + 1))
    dequeued r dst inv over =
        held_first n p inv.popping.1
        ∙ ap (λ x. x ∷ held width msg n (p + 1))
            (sym (inv.popping.3 ∙ ap (read_cells (msg p) 0) (omega (arith, inv.popping.2))))

  pub pop_step-Goes :
      {m : Shared A} {n p : ℕ} {pc : PushPc} (qc : PopPc A)
      → Inv width msg m n p pc qc
      → Goes n p pc (pop_step width m qc)
  unfolding pop_step
  pop_step-Goes {m} waiting inv = (move_popper width msg (seen m.reader) inv.reader_at inv, refl)
  pop_step-Goes (seen r) inv = look r inv
  pop_step-Goes (copying r dst) inv = elim (dec_lt (length dst) width) [
    | yes more ↦ rw (lt→ltb (length dst) width more) (copy r dst inv more, refl)
    | no over ↦
        rw (le→ltb (length dst) width (omega arith))
          (release r dst inv, dequeued r dst inv (omega arith))
  ]
