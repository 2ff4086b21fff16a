-- ===== src/SpscBuffer/Threads/Write.antt =====
-- Each step of `try_write` keeps the invariant, and shows the caller what a byte queue would.
use lock_free_queues.Prelude.{
  ℕ, ◌+◌, ◌-◌, ◌%◌, ◌≤◌, ◌<◌, ◌≡◌, refl, sym, ap, subst, ◌∙◌, arith, dec_lt, ℕ_discrete, lt→ltb,
  le→ltb, update, update_self, update_ne, ◌++◌,
}
use lock_free_queues.Prelude.Words.{sub64}
use lock_free_queues.Memory.Copy.{read_cells, length-read_cells, read_cells-add, read_cells_shift}
use lock_free_queues.SpscBuffer.{SpscBuffer, buffer_size, available}
use lock_free_queues.SpscBuffer.Contents.{capacity}
use lock_free_queues.SpscBuffer.Threads.{
  WritePc, ready, loaded, storing, ReadPc, Event, wrote, write_step, write_at, new_writer, grows,
}
use lock_free_queues.SpscBuffer.Threads.Spec.{Does}
use lock_free_queues.SpscBuffer.Threads.Address.{
  write_at_lem, new_writer_lem, available-held, apart,
}
use lock_free_queues.SpscBuffer.Threads.Invariant.{Inv, held, move_writing, ReadFacts-add}

module _ (stream : ℕ → ℕ) where
  -- A step of the producer, and what it keeps.
  abbrev pub Goes : ℕ → ℕ → ReadPc → SpscBuffer × WritePc × Event → Type 0
  Goes n p qc (m', pc', e) =
      Inv stream m' (grows e n) p pc' qc × Does (held stream n p) e (held stream (grows e n) p)

  abbrev rest : ℕ → ℕ → ℕ
  rest n k = stream (n + k)

  -- The queue takes the bytes in.
  enqueued :
      (n p size : ℕ)
      → p ≤ n
      → n + size ≤ p + capacity
      → Does (held stream n p) (wrote (read_cells (rest n) 0 size)) (held stream (n + size) p)
  enqueued n p size behind room = (
    omega (arith, length-read_cells stream p (n - p), length-read_cells (rest n) 0 size),
    ap (read_cells stream p) {y = n - p + size} (omega arith)
        ∙ read_cells-add stream p (n - p) size
        ∙ ap (λ l. held stream n p ++ l)
            (ap (λ i. read_cells stream i size) (omega arith)
              ∙ sym (read_cells_shift stream n size)),
  )

  module _ {m : SpscBuffer} {n p : ℕ} {qc : ReadPc} where
    free :
        {w size : ℕ}
        → Inv stream m n p (loaded w size) qc
        → sub64 (buffer_size - 1) (available w m.reader) ≡ capacity - (n - p)
    free {w} inv = ap (λ a. sub64 (buffer_size - 1) a) held_bytes ∙ omega (arith, inv.room)
      where
        held_bytes : available w m.reader ≡ n - p
        held_bytes =
            ap (λ w. available w m.reader) inv.writing
            ∙ ap (available (n % buffer_size)) inv.reader_at
            ∙ available-held n p inv.behind inv.room

    load_reader :
        (w size size' : ℕ) (val : ℕ → ℕ)
        → Inv stream m n p (loaded w size) qc
        → Goes n p qc (write_step size' val m (loaded w size))
    unfolding write_step
    load_reader w size size' val inv = elim (dec_lt (capacity - (n - p)) size) [
      | yes over ↦
          rw (free inv, lt→ltb (capacity - (n - p)) size over)
            (
              move_writing stream ready tt inv,
              (omega (arith, length-read_cells stream p (n - p), inv.room), refl),
            )
      | no fits ↦
          rw (free inv, le→ltb (capacity - (n - p)) size (omega arith))
            (
              move_writing stream (storing w size 0)
                  (
                    inv.writing,
                    omega (arith, inv.room, inv.behind),
                    omega arith,
                    λ i lt. absurd (omega arith),
                  )
                  inv,
              refl,
            )
    ]

    store :
        (w size k : ℕ)
        → Inv stream m n p (storing w size k) qc
        → k < size
        → Inv stream
            (record m { buffer = update m.buffer (write_at w size k) (rest n k) })
            n
            p
            (storing w size (k + 1))
            qc
    store w size k inv more = record {
      writer_at = inv.writer_at;
      reader_at = inv.reader_at;
      behind = inv.behind;
      room = inv.room;
      cells = λ i lo hi.
          update_ne m.buffer (write_at w size k) (rest n k)
            (λ e. apart n p size k i inv.writing.1 more lo hi (sym here ∙ e))
          ∙ inv.cells i lo hi;
      writing = (inv.writing.0, inv.writing.1, omega arith, bytes);
      reading = inv.reading;
    }
      where
        here : write_at w size k ≡ (n + k) % buffer_size
        here = write_at_lem n w size k inv.writing.0 (omega (arith, inv.writing.1, inv.behind)) more

        bytes :
            (i : ℕ)
            → i < k + 1
            → update m.buffer (write_at w size k) (rest n k) ((n + i) % buffer_size)
              ≡ stream (n + i)
        bytes i lt = elim (ℕ_discrete k i) [
          | yes e ↦
              update_self m.buffer (write_at w size k) (rest n k)
                (here ∙ ap (λ t. (n + t) % buffer_size) e)
              ∙ ap (rest n) e
          | no ne ↦
              update_ne m.buffer (write_at w size k) (rest n k)
                (λ e. absurd (omega (arith, here, e, inv.writing.1, inv.behind)))
              ∙ inv.writing.3 i (omega arith)
        ]

    publish :
        (w size k : ℕ)
        → Inv stream m n p (storing w size k) qc
        → size ≤ k
        → Inv stream (record m { writer = new_writer w size }) (n + size) p ready qc
    publish w size k inv over = record {
      writer_at = new_writer_lem n w size inv.writing.0 (omega (arith, inv.writing.1, inv.behind));
      reader_at = inv.reader_at;
      behind = omega (arith, inv.behind);
      room = inv.writing.1;
      cells = λ i lo hi. elim (dec_lt i n) [
        | yes old ↦ inv.cells i lo old
        | no new ↦
            let there : n + (i - n) ≡ i = omega arith in
            ap (λ t. m.buffer (t % buffer_size)) (sym there)
            ∙ inv.writing.3 (i - n) (omega (arith, inv.writing.2))
            ∙ ap stream there
      ];
      writing = tt;
      reading = ReadFacts-add stream n p size qc inv.reading;
    }

    finish :
        (w size k : ℕ)
        → Inv stream m n p (storing w size k) qc
        → size ≤ k
        → Goes n p qc
            (record m { writer = new_writer w size }, ready, wrote (read_cells (rest n) 0 size))
    finish w size k inv over =
        subst
          (λ s.
            Inv stream (record m { writer = new_writer w size }) (n + s) p ready qc
            × Does (held stream n p) (wrote (read_cells (rest n) 0 size)) (held stream (n + s) p))
          (sym (length-read_cells (rest n) 0 size))
          (publish w size k inv over, enqueued n p size inv.behind inv.writing.1)

  pub write_step-Goes :
      (size : ℕ) {m : SpscBuffer} {n p : ℕ} (pc : WritePc) {qc : ReadPc}
      → Inv stream m n p pc qc
      → Goes n p qc (write_step size (λ k. stream (n + k)) m pc)
  unfolding write_step
  write_step-Goes size {m} ready inv =
      (move_writing stream (loaded m.writer size) inv.writer_at inv, refl)
  write_step-Goes size {n = n} (loaded w size') inv = load_reader w size' size (rest n) inv
  write_step-Goes size {n = n} {p = p} (storing w size' k) inv = elim (dec_lt k size') [
    | yes more ↦ rw (lt→ltb k size' more) (store w size' k inv more, refl)
    | no over ↦ rw (le→ltb k size' (omega arith)) (finish w size' k inv (omega arith))
  ]
