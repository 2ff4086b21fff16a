-- ===== src/SpscBuffer/Threads/Read.antt =====
-- Each step of `read` keeps the invariant, and shows the caller what a byte queue would.
use lock_free_queues.Prelude.{
  ℕ, zero, suc, ◌+◌, ◌-◌, ◌%◌, ◌≤◌, ◌<◌, ◌≡◌, refl, sym, ap, ap₂, subst, ◌∙◌, arith, dec_lt,
  ℕ_discrete, lt→ltb, le→ltb, List, [], ◌∷◌, ◌++◌, length, length-append, ne→==, ==_iff, min,
}
use lock_free_queues.Memory.Copy.{read_cells, read_cells-add}
use lock_free_queues.Memory.Messages.{read_cells-zero, read_cells-suc}
use lock_free_queues.SpscBuffer.{SpscBuffer, buffer_size, available}
use lock_free_queues.SpscBuffer.Threads.{
  WritePc, ReadPc, waiting, seen, copying, Event, read, read_step, read_at, new_reader, grows,
}
use lock_free_queues.SpscBuffer.Threads.Spec.{Does}
use lock_free_queues.SpscBuffer.Threads.Address.{read_at_lem, new_reader_lem, available-held}
use lock_free_queues.SpscBuffer.Threads.Invariant.{Inv, held, move_reading, WriteFacts-add}

module _ (stream : ℕ → ℕ) where
  -- A step of the consumer, and what it keeps.
  abbrev pub Goes : ℕ → ℕ → WritePc → SpscBuffer × ReadPc × Event → Type 0
  Goes n p pc (m', qc', e) =
      Inv stream m' n (grows e p) pc qc' × Does (held stream n p) e (held stream n (grows e p))

  held_none : (n p : ℕ) → n ≡ p → held stream n p ≡ []
  held_none n p e = ap (read_cells stream p) {y = zero} (omega arith) ∙ read_cells-zero stream p

  held_front :
      (n p c : ℕ) → p + c ≤ n → held stream n p ≡ read_cells stream p c ++ held stream n (p + c)
  held_front n p c le =
      ap (read_cells stream p) {y = c + (n - (p + c))} (omega arith)
      ∙ read_cells-add stream p c (n - (p + c))

  module _ {m : SpscBuffer} {n p : ℕ} {pc : WritePc} where
    there : {r room : ℕ} → Inv stream m n p pc (seen r room) → available m.writer r ≡ n - p
    there {r} inv =
        ap (λ w. available w r) inv.writer_at
        ∙ ap (available (n % buffer_size)) inv.reading
        ∙ available-held n p inv.behind inv.room

    load_writer :
        (r room room' : ℕ)
        → Inv stream m n p pc (seen r room)
        → Goes n p pc (read_step room' m (seen r room))
    unfolding read_step
    load_writer r room room' inv = elim (ℕ_discrete n p) [
      | yes e ↦
          rw (there inv, (==_iff (n - p) 0).1 (omega (arith, e)))
            (move_reading stream waiting tt inv, (held_none n p e, held_none n p e))
      | no more ↦
          rw (there inv, ne→== (n - p) 0 (omega (arith, inv.behind)))
            (
              move_reading stream (copying r room (min (n - p) room) [])
                  (
                    inv.reading,
                    omega (arith, inv.behind),
                    omega arith,
                    sym (read_cells-zero stream p),
                    omega arith,
                    λ h. omega (arith, inv.behind),
                  )
                  inv,
              refl,
            )
    ]

    copy :
        (r room c : ℕ) (bytes : List ℕ)
        → Inv stream m n p pc (copying r room c bytes)
        → length bytes < c
        → Inv stream m n p pc
            (copying r room c (bytes ++ (m.buffer (read_at r c (length bytes)) ∷ [])))
    copy r room c bytes inv more =
        move_reading stream (copying r room c (bytes ++ (x ∷ [])))
          (inv.reading.0, inv.reading.1, omega (arith, grown), all, inv.reading.4, inv.reading.5)
          inv
      where
        x : ℕ
        x = m.buffer (read_at r c (length bytes))

        grown : length (bytes ++ (x ∷ [])) ≡ suc (length bytes)
        grown = omega (arith, length-append bytes (x ∷ []))

        here : x ≡ stream (p + length bytes)
        here =
            ap m.buffer (
              read_at_lem p r c (length bytes) inv.reading.0
                (omega (arith, inv.reading.1, inv.room)) more)
            ∙ inv.cells (p + length bytes) (omega arith) (omega (arith, inv.reading.1))

        all : bytes ++ (x ∷ []) ≡ read_cells stream p (length (bytes ++ (x ∷ [])))
        all =
            ap₂ (λ l y. l ++ (y ∷ [])) inv.reading.3 here
            ∙ sym (ap (read_cells stream p) grown ∙ read_cells-suc stream p (length bytes))

    release :
        (r room c : ℕ) (bytes : List ℕ)
        → Inv stream m n p pc (copying r room c bytes)
        → Inv stream (record m { reader = new_reader r c }) n (p + c) pc waiting
    release r room c bytes inv = record {
      writer_at = inv.writer_at;
      reader_at = new_reader_lem p r c inv.reading.0 (omega (arith, inv.reading.1, inv.room));
      behind = inv.reading.1;
      room = omega (arith, inv.room);
      cells = λ i lo hi. inv.cells i (omega arith) hi;
      writing = WriteFacts-add stream m (new_reader r c) n p c pc inv.writing;
      reading = tt;
    }

    dequeued :
        (r room c : ℕ) (bytes : List ℕ)
        → Inv stream m n p pc (copying r room c bytes)
        → length bytes ≡ c
        → Does (held stream n p) (read room bytes) (held stream n (p + c))
    dequeued r room c bytes inv e = (
      held_front n p c inv.reading.1
          ∙ ap (λ l. l ++ held stream n (p + c)) (sym (inv.reading.3 ∙ ap (read_cells stream p) e)),
      omega (arith, inv.reading.4),
      λ h. omega (arith, inv.reading.5 h),
    )

    finish :
        (r room c : ℕ) (bytes : List ℕ)
        → Inv stream m n p pc (copying r room c bytes)
        → length bytes ≡ c
        → Goes n p pc (record m { reader = new_reader r c }, waiting, read room bytes)
    finish r room c bytes inv e =
        subst
          (λ k.
            Inv stream (record m { reader = new_reader r c }) n (p + k) pc waiting
            × Does (held stream n p) (read room bytes) (held stream n (p + k)))
          (sym e) (release r room c bytes inv, dequeued r room c bytes inv e)

  pub read_step-Goes :
      (room : ℕ) {m : SpscBuffer} {n p : ℕ} {pc : WritePc} (qc : ReadPc)
      → Inv stream m n p pc qc
      → Goes n p pc (read_step room m qc)
  unfolding read_step
  read_step-Goes room {m} waiting inv =
      (move_reading stream (seen m.reader room) inv.reader_at inv, refl)
  read_step-Goes room (seen r room') inv = load_writer r room' room inv
  read_step-Goes room (copying r room' c bytes) inv = elim (dec_lt (length bytes) c) [
    | yes more ↦ rw (lt→ltb (length bytes) c more) (copy r room' c bytes inv more, refl)
    | no over ↦
        rw (le→ltb (length bytes) c (omega arith))
          (finish r room' c bytes inv (omega (arith, inv.reading.2)))
  ]
