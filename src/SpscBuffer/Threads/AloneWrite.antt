-- ===== src/SpscBuffer/Threads/AloneWrite.antt =====
-- A producer that is not interrupted in `try_write` of src/spsc_buffer.cpp.
use lock_free_queues.Prelude.{
  ℕ, zero, suc, ◌+◌, ◌-◌, ◌≤◌, ◌<◌, ◌≡◌, refl, sym, subst, ap, ap₂, ◌∙◌, arith, List, length, some,
  true, false, take, drop, take-append, drop-append, dec_lt, dec_le, lt→ltb, le→ltb, ◌++◌, Option,
  Bool, none, update,
}
use lock_free_queues.Prelude.Words.{sub64}
use lock_free_queues.Memory.Copy.{write_cells, read_cells, length-read_cells, read_cells-add}
use lock_free_queues.SpscBuffer.{SpscBuffer, buffer_size, available, try_write}
use lock_free_queues.SpscBuffer.Contents.{IsValid, capacity, available_lem}
use lock_free_queues.SpscBuffer.Write.{
  Writes, try_write_refines, write_full, write_flat, write_split,
}
use lock_free_queues.SpscBuffer.Threads.{
  WritePc, ready, loaded, storing, Event, silent, wrote, refused, write_at, new_writer, write_step,
}
use lock_free_queues.SpscBuffer.Threads.Fill.{next, fill, fill_flat, fill-add}

module _ (size : ℕ) (val : ℕ → ℕ) where
  -- `steps` steps of the producer at most, up to the one that returns.
  unfoldable pub write_alone : ℕ → SpscBuffer → WritePc → SpscBuffer × WritePc × Event
  write_alone zero m pc = (m, pc, silent)
  write_alone (suc steps) m pc = next (write_step size val m pc) (write_alone steps)

  follow :
      (steps : ℕ) (m : SpscBuffer) (pc : WritePc) {r : SpscBuffer × WritePc × Event}
      → write_step size val m pc ≡ r
      → write_alone (suc steps) m pc ≡ next r (write_alone steps)
  unfolding write_alone
  follow steps m pc e = ap (λ r. next r (write_alone steps)) e

  abbrev stored : SpscBuffer → ℕ → ℕ → SpscBuffer
  stored m w k = record m { buffer = update m.buffer (write_at w size k) (val k) }

  store_step :
      (m : SpscBuffer) (w k : ℕ)
      → k < size
      → write_step size val m (storing w size k) ≡ (stored m w k, storing w size (k + 1), silent)
  unfolding write_step
  store_step m w k lt = rw (lt→ltb k size lt)

  last_step :
      (m : SpscBuffer) (w k : ℕ)
      → size ≤ k
      → write_step size val m (storing w size k)
        ≡ (record m { writer = new_writer w size }, ready, wrote (read_cells val 0 size))
  unfolding write_step
  last_step m w k le = rw (le→ltb k size le)

  store_all :
      (m : SpscBuffer) (w k rest : ℕ)
      → k + rest ≡ size
      → write_alone (suc rest) m (storing w size k) ≡ (
        record m {
          buffer = fill val (write_at w size) m.buffer k rest;
          writer = new_writer w size;
        },
        ready,
        wrote (read_cells val 0 size),
      )
  unfolding fill
  store_all m w k zero e = follow zero m (storing w size k) (last_step m w k (omega arith))
  store_all m w k (suc rest) e =
      follow (suc rest) m (storing w size k) (store_step m w k (omega arith))
      ∙ store_all (stored m w k) w (k + 1) rest (omega arith)

  load_step :
      (m : SpscBuffer) (steps : ℕ)
      → write_alone (suc steps) m ready ≡ write_alone steps m (loaded m.writer size)
  unfolding write_step
  load_step m steps = follow steps m ready refl

  -- What the caller is told, and the buffer then.
  abbrev pub outcome : SpscBuffer × WritePc × Event → Option (Bool × SpscBuffer)
  outcome (m, pc, wrote bytes) = some (true, m)
  outcome (m, pc, refused size) = some (false, m)
  outcome _ = none

  abbrev pub bytes : List ℕ
  bytes = read_cells val 0 size

  module _ {m : SpscBuffer} (v : IsValid m) where
    facts : (available m.writer m.reader ≤ capacity) × (length bytes ≡ size)
    facts =
        ((available_lem m.writer m.reader v.writer_in v.reader_in).0, length-read_cells val 0 size)

    stored_flat :
        m.writer + size < buffer_size
        → fill val (write_at m.writer size) m.buffer 0 size ≡ write_cells m.buffer m.writer bytes
    unfolding write_at
    stored_flat lt =
        fill_flat val (write_at m.writer size) m.buffer m.writer 0 size (λ i below. ground arith)

    stored_split :
        size ≤ capacity
        → buffer_size ≤ m.writer + size
        → let first = buffer_size - m.writer in
          fill val (write_at m.writer size) m.buffer 0 size
          ≡ write_cells (write_cells m.buffer m.writer (take first bytes)) 0 (drop first bytes)
    unfolding write_at
    stored_split le ge =
        ap (fill val at m.buffer 0) {x = size} {y = first + rest} (omega (arith, v.writer_in))
        ∙ fill-add val at m.buffer 0 first rest
        ∙ ap (λ i. fill val at (fill val at m.buffer 0 first) i rest) {x = 0 + first} {y = first}
            (omega arith)
        ∙ fill_flat val at (fill val at m.buffer 0 first) 0 first rest
            (λ i below. ground (arith, v.writer_in))
        ∙ ap₂ (λ mem xs. write_cells mem 0 xs)
            (fill_flat val at m.buffer m.writer 0 first (λ i below. ground (arith, v.writer_in))
              ∙ ap (write_cells m.buffer m.writer) (sym front))
            (sym back)
      where
        first : ℕ
        first = buffer_size - m.writer

        rest : ℕ
        rest = size - first

        at : ℕ → ℕ
        at = write_at m.writer size

        two : bytes ≡ read_cells val 0 first ++ read_cells val first rest
        two =
            ap (read_cells val 0) {x = size} {y = first + rest} (omega (arith, v.writer_in))
            ∙ read_cells-add val 0 first rest
            ∙ ap (λ i. read_cells val 0 first ++ read_cells val i rest) {x = 0 + first} {y = first}
                (omega arith)

        front : take first bytes ≡ read_cells val 0 first
        front =
            ap (take first) two
            ∙ take-append (read_cells val 0 first) (read_cells val first rest) first
                (sym (length-read_cells val 0 first))

        back : drop first bytes ≡ read_cells val first rest
        back =
            ap (drop first) two
            ∙ drop-append (read_cells val 0 first) (read_cells val first rest) first
                (sym (length-read_cells val 0 first))

    test_fits :
        available m.writer m.reader + size ≤ capacity
        → write_step size val m (loaded m.writer size) ≡ (m, storing m.writer size 0, silent)
    unfolding write_step
    test_fits fits =
        rw (
          le→ltb (sub64 (buffer_size - 1) (available m.writer m.reader)) size
            (omega (arith, facts)))

    test_full :
        capacity < available m.writer m.reader + size
        → write_step size val m (loaded m.writer size) ≡ (m, ready, refused size)
    unfolding write_step
    test_full big =
        rw (
          lt→ltb (sub64 (buffer_size - 1) (available m.writer m.reader)) size
            (omega (arith, facts)))

    loads :
        write_alone (size + 3) m ready
        ≡ next (write_step size val m (loaded m.writer size)) (write_alone (suc size))
    loads =
        ap (λ k. write_alone k m ready) {x = size + 3} {y = suc (suc (suc size))} (omega arith)
        ∙ load_step m (suc (suc size))
        ∙ follow (suc size) m (loaded m.writer size) refl

    accepted :
        available m.writer m.reader + size ≤ capacity
        → outcome (write_alone (size + 3) m ready)
          ≡ some (
            true,
            record m {
              buffer = fill val (write_at m.writer size) m.buffer 0 size;
              writer = new_writer m.writer size;
            },
          )
    accepted fits = ap outcome (
        loads
        ∙ ap (λ r. next r (write_alone (suc size))) (test_fits fits)
        ∙ store_all m m.writer 0 size (omega arith))

    -- The producer's own steps and the call run as a whole.
    same_call : outcome (write_alone (size + 3) m ready) ≡ try_write m bytes
    unfolding new_writer
    same_call = elim (dec_le (available m.writer m.reader + size) capacity) [
      | yes fits ↦ elim (dec_lt (m.writer + size) buffer_size) [
        | yes lt ↦
            accepted fits
            ∙ ap₂ (λ mem w. some (true, record m { buffer = mem; writer = w })) (stored_flat lt)
                (ground (arith, facts))
            ∙ sym (write_flat bytes v (omega (arith, facts)) (omega (arith, facts)))
        | no ge ↦
            accepted fits
            ∙ ap₂ (λ mem w. some (true, record m { buffer = mem; writer = w }))
                (stored_split (omega arith) (omega arith)) (ground (arith, facts, v.writer_in))
            ∙ sym (write_split bytes v (omega (arith, facts)) (omega (arith, facts)))
      ]
      | no big ↦
          ap outcome (loads ∙ ap (λ r. next r (write_alone (suc size))) (test_full (omega arith)))
          ∙ sym (write_full bytes v (omega (arith, facts)))
    ]

    -- On a well-formed buffer, a producer that is not interrupted in `try_write` of `size` bytes
    -- returns within `size + 3` steps, with what the call run as a whole returns and leaves: true if
    -- and only if the bytes fit beside those held, which are then followed by the `size` bytes, and
    -- are otherwise as before. The buffer left is well-formed.
    pub try_write_alone :
        (outcome (write_alone (size + 3) m ready) ≡ try_write m bytes)
        × Writes m bytes (outcome (write_alone (size + 3) m ready))
    try_write_alone =
        (same_call, subst (Writes m bytes) (sym same_call) (try_write_refines bytes v))
