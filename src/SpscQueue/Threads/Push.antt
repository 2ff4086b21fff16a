-- ===== src/SpscQueue/Threads/Push.antt =====
-- Each step of `try_push` keeps the invariant, and shows the caller what a FIFO queue would.
use lock_free_queues.Prelude.{
  ℕ, suc, ◌+◌, ◌-◌, ◌%◌, ◌≤◌, ◌<◌, ◌≡◌, ◌≢◌, refl, sym, ap, ◌∙◌, arith, dec_lt, ℕ_discrete, lt→ltb,
  le→ltb, update, update_self, update_ne, List, [], ◌∷◌, ◌++◌, length, ltb,
}
use lock_free_queues.Prelude.Words.{word_mod, add64}
use lock_free_queues.Memory.Copy.{read_cells}
use lock_free_queues.Memory.Messages.{objects, objects-suc, length-objects}
use lock_free_queues.SpscQueue.{buffer_size_slots, wrap, is_full}
use lock_free_queues.SpscQueue.Contents.{capacity, wrap_lem, is_full_lem}
use lock_free_queues.SpscQueue.Threads.{
  Shared, PushPc, ready, loaded, storing, PopPc, Event, pushed, push_step, count, store_word,
}
use lock_free_queues.SpscQueue.Threads.Spec.{Does}
use lock_free_queues.SpscQueue.Threads.Invariant.{Inv, held, move_pusher, PopFacts-suc}

-- The slot that is written is none of those that hold objects.
pub apart :
    (n p i : ℕ) {w : ℕ}
    → w ≡ n % word_mod
    → n < p + capacity
    → p ≤ i
    → i < n
    → wrap w ≢ i % buffer_size_slots
apart n p i {w} e room lo hi same = absurd (omega (arith, wrap_lem w))

module _ (width : ℕ) {A : Type 0} (msg : ℕ → ℕ → A) where
  -- A step of the producer, and what it keeps.
  abbrev pub Goes : ℕ → ℕ → PopPc A → Shared A × PushPc × Event A → Type 0
  Goes n p qc (m', pc', e) =
      Inv width msg m' (count e n) p pc' qc
      × Does capacity (held width msg n p) e (held width msg (count e n) p)

  length-held : (n p : ℕ) → length (held width msg n p) ≡ n - p
  length-held n p = length-objects width msg p (n - p)

  -- The queue takes the object in.
  enqueued :
      (n p : ℕ) (x : List A)
      → p ≤ n
      → n < p + capacity
      → x ≡ read_cells (msg n) 0 width
      → Does capacity (held width msg n p) (pushed x) (held width msg (n + 1) p)
  enqueued n p x behind room e = (
    lt→ltb (length (held width msg n p)) capacity (omega (arith, length-held n p)),
    rw (lt→ltb (length (held width msg n p)) capacity (omega (arith, length-held n p))) (
        ap (objects width msg p) {y = suc (n - p)} (omega arith)
        ∙ objects-suc width msg p (n - p)
        ∙ ap (λ y. held width msg n p ++ (y ∷ []))
            (ap (λ i. read_cells (msg i) 0 width) (omega arith) ∙ sym e)),
  )

  module _ {m : Shared A} {n p : ℕ} {qc : PopPc A} where
    start_push : Inv width msg m n p ready qc → Goes n p qc (push_step width (msg n) m ready)
    unfolding push_step
    start_push inv = (move_pusher width msg (loaded m.writer) inv.writer_at inv, refl)

    full :
        {w : ℕ} → Inv width msg m n p (loaded w) qc → is_full w m.reader ≡ ltb capacity (n - p + 1)
    full {w} inv =
        is_full_lem w m.reader (n - p) (omega (arith, inv.reader_at))
          (omega (arith, inv.pushing, inv.reader_at, inv.behind)) (omega (arith, inv.room))

    load_reader :
        (w : ℕ)
        → Inv width msg m n p (loaded w) qc
        → Goes n p qc (push_step width (msg n) m (loaded w))
    unfolding push_step
    load_reader w inv = elim (dec_lt (n - p) capacity) [
      | yes free ↦
          rw (full inv, le→ltb capacity (n - p + 1) (omega arith))
            (
              move_pusher width msg (storing w 0)
                  (
                    inv.pushing,
                    omega (arith, inv.behind),
                    omega arith,
                    λ i lt. absurd (omega arith),
                  )
                  inv,
              refl,
            )
      | no over ↦
          rw (full inv, lt→ltb capacity (n - p + 1) (omega arith))
            (
              move_pusher width msg ready tt inv,
              (
                le→ltb (length (held width msg n p)) capacity (omega (arith, length-held n p)),
                refl,
              ),
            )
    ]

    store :
        (w k : ℕ)
        → Inv width msg m n p (storing w k) qc
        → k < width
        → Inv width msg (store_word width m (wrap w) k (msg n k)) n p (storing w (k + 1)) qc
    store w k inv more = record {
      writer_at = inv.writer_at;
      reader_at = inv.reader_at;
      behind = inv.behind;
      room = inv.room;
      cells = λ i j lo hi lt.
          ap (λ row. row j)
            (update_ne m.buffer (wrap w) row_after (apart n p i inv.pushing.0 inv.pushing.1 lo hi))
          ∙ inv.cells i j lo hi lt;
      pushing = (inv.pushing.0, inv.pushing.1, omega arith, words);
      popping = inv.popping;
    }
      where
        row_after : ℕ → A
        row_after = update (m.buffer (wrap w)) k (msg n k)

        here : wrap w ≡ n % buffer_size_slots
        here = omega (arith, wrap_lem w, inv.pushing.0)

        words :
            (i : ℕ)
            → i < k + 1
            → update m.buffer (wrap w) row_after (n % buffer_size_slots) i ≡ msg n i
        words i lt =
            ap (λ row. row i) (update_self m.buffer (wrap w) row_after here)
            ∙ elim (ℕ_discrete k i) [
              | yes e ↦ update_self (m.buffer (wrap w)) k (msg n k) e ∙ ap (msg n) e
              | no ne ↦
                  update_ne (m.buffer (wrap w)) k (msg n k) ne
                  ∙ ap (λ j. m.buffer j i) here
                  ∙ inv.pushing.3 i (omega arith)
            ]

    publish :
        (w k : ℕ)
        → Inv width msg m n p (storing w k) qc
        → width ≤ k
        → Inv width msg (record m { writer = add64 w 1 }) (n + 1) p ready qc
    publish w k inv over = record {
      writer_at = omega (arith, inv.pushing.0);
      reader_at = inv.reader_at;
      behind = omega (arith, inv.behind);
      room = omega (arith, inv.pushing.1);
      cells = λ i j lo hi lt. elim (dec_lt i n) [
        | yes old ↦ inv.cells i j lo old lt
        | no new ↦
            ap (λ t. m.buffer (t % buffer_size_slots) j) (last i hi new)
            ∙ inv.pushing.3 j (omega arith)
            ∙ ap (λ t. msg t j) (sym (last i hi new))
      ];
      pushing = tt;
      popping = PopFacts-suc width msg n p qc inv.popping;
    }
      where
        last : (i : ℕ) → i < n + 1 → ¬ (i < n) → i ≡ n
        last i hi new = omega arith

  pub push_step-Goes :
      {m : Shared A} {n p : ℕ} (pc : PushPc) {qc : PopPc A}
      → Inv width msg m n p pc qc
      → Goes n p qc (push_step width (msg n) m pc)
  unfolding push_step
  push_step-Goes ready inv = start_push inv
  push_step-Goes (loaded w) inv = load_reader w inv
  push_step-Goes {n = n} {p = p} (storing w k) inv = elim (dec_lt k width) [
    | yes more ↦ rw (lt→ltb k width more) (store w k inv more, refl)
    | no over ↦ rw (le→ltb k width (omega arith)) (
      publish w k inv (omega arith),
      enqueued n p (read_cells (msg n) 0 width) inv.behind inv.pushing.1 refl,
    )
  ]
