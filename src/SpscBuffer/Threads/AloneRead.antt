-- ===== src/SpscBuffer/Threads/AloneRead.antt =====
-- A consumer that is not interrupted in `read` of src/spsc_buffer.cpp.
use lock_free_queues.Prelude.{
  ℕ, zero, suc, ◌+◌, ◌-◌, ◌≤◌, ◌<◌, ◌≡◌, ◌≢◌, refl, sym, subst, ap, ap₂, ◌∙◌, arith, List, [], ◌∷◌,
  ◌++◌, length, some, none, drop, dec_le, lt→ltb, le→ltb, Option, min, ℕ_discrete, append-nil,
  append_assoc, length-append, ==_iff, ne→==,
}
use lock_free_queues.Memory.Copy.{
  read_cells, length-read_cells, read_cells-add, read_cells_shift, read_cells_congr,
}
use lock_free_queues.SpscBuffer
use lock_free_queues.SpscBuffer.{SpscBuffer, buffer_size, available}
use lock_free_queues.SpscBuffer.Contents.{IsValid, capacity, available_lem}
use lock_free_queues.SpscBuffer.Read.{Reads, read_refines, read_empty, read_flat, read_split}
use lock_free_queues.SpscBuffer.Threads.{
  ReadPc, waiting, seen, copying, Event, silent, read, missed, read_at, new_reader, read_step,
}
use lock_free_queues.SpscBuffer.Threads.Fill.{next}

-- `steps` steps of the consumer at most, up to the one that returns.
unfoldable pub read_alone : ℕ → ℕ → SpscBuffer → ReadPc → SpscBuffer × ReadPc × Event
read_alone room zero m pc = (m, pc, silent)
read_alone room (suc steps) m pc = next (read_step room m pc) (read_alone room steps)

-- What the caller is told, the span, and the buffer then.
abbrev pub outcome : List ℕ → SpscBuffer × ReadPc × Event → Option (ℕ × List ℕ × SpscBuffer)
outcome dst (m, pc, read room bytes) = some (length bytes, bytes ++ drop (length bytes) dst, m)
outcome dst (m, pc, missed) = some (0, dst, m)
outcome dst _ = none

follow :
    (room steps : ℕ) (m : SpscBuffer) (pc : ReadPc) {r : SpscBuffer × ReadPc × Event}
    → read_step room m pc ≡ r
    → read_alone room (suc steps) m pc ≡ next r (read_alone room steps)
unfolding read_alone
follow room steps m pc e = ap (λ r. next r (read_alone room steps)) e

module _ (room : ℕ) (m : SpscBuffer) (r n : ℕ) where
  -- The byte that is loaded as number `k`.
  abbrev byte : ℕ → ℕ
  byte k = m.buffer (read_at r n k)

  load_step :
      (bytes : List ℕ)
      → length bytes < n
      → read_step room m (copying r room n bytes)
        ≡ (m, copying r room n (bytes ++ (byte (length bytes) ∷ [])), silent)
  unfolding read_step
  load_step bytes lt = rw (lt→ltb (length bytes) n lt)

  last_step :
      (bytes : List ℕ)
      → n ≤ length bytes
      → read_step room m (copying r room n bytes)
        ≡ (record m { reader = new_reader r n }, waiting, read room bytes)
  unfolding read_step
  last_step bytes le = rw (le→ltb (length bytes) n le)

  load_all :
      (steps rest : ℕ) (bytes : List ℕ)
      → rest < steps
      → length bytes + rest ≡ n
      → read_alone room steps m (copying r room n bytes) ≡ (
        record m { reader = new_reader r n },
        waiting,
        read room (bytes ++ read_cells byte (length bytes) rest),
      )
  unfolding read_cells
  load_all zero rest bytes lt e = absurd (omega arith)
  load_all (suc steps) zero bytes lt e =
      follow room steps m (copying r room n bytes) (last_step bytes (omega arith))
      ∙ ap (λ xs. (record m { reader = new_reader r n }, waiting, read room xs))
          (sym (append-nil bytes))
  load_all (suc steps) (suc rest) bytes lt e =
      let one = length-append bytes (byte (length bytes) ∷ []) in
      follow room steps m (copying r room n bytes) (load_step bytes (omega arith))
      ∙ load_all steps rest (bytes ++ (byte (length bytes) ∷ [])) (omega arith) (omega (arith, one))
      ∙ ap (λ xs. (record m { reader = new_reader r n }, waiting, read room xs))
          (append_assoc bytes (byte (length bytes) ∷ []) _
            ∙ ap (λ k. bytes ++ (byte (length bytes) ∷ read_cells byte k rest))
                (omega (arith, one)))

module _ (dst : List ℕ) {m : SpscBuffer} (v : IsValid m) where
  abbrev held : ℕ
  held = available m.writer m.reader

  abbrev count : ℕ
  count = min held (length dst)

  abbrev to_end : ℕ
  to_end = buffer_size - m.reader

  facts : held ≤ capacity
  facts = (available_lem m.writer m.reader v.writer_in v.reader_in).0

  abbrev copied : List ℕ
  copied = read_cells (byte (length dst) m m.reader count) 0 count

  copied_flat : count ≤ to_end → copied ≡ read_cells m.buffer m.reader count
  unfolding read_at
  copied_flat le =
      read_cells_congr (byte (length dst) m m.reader count) (λ k. m.buffer (m.reader + k)) 0 count
        (λ i _ lt. ap m.buffer (ground (arith, v.reader_in)))
      ∙ read_cells_shift m.buffer m.reader count

  copied_split :
      to_end < count
      → copied ≡ read_cells m.buffer m.reader to_end ++ read_cells m.buffer 0 (count - to_end)
  unfolding read_at
  copied_split over =
      ap (read_cells cell 0) {x = count} {y = to_end + (count - to_end)} (omega arith)
      ∙ read_cells-add cell 0 to_end (count - to_end)
      ∙ ap₂ ◌++◌
          (read_cells_congr cell (λ k. m.buffer (m.reader + k)) 0 to_end
              (λ i _ lt. ap m.buffer (ground (arith, v.reader_in)))
            ∙ read_cells_shift m.buffer m.reader to_end)
          (ap (λ k. read_cells cell k (count - to_end)) {x = 0 + to_end} {y = to_end} (omega arith)
            ∙ sym (read_cells_shift cell to_end (count - to_end))
            ∙ read_cells_congr (λ k. cell (to_end + k)) m.buffer 0 (count - to_end)
                (λ i _ lt. ap m.buffer (ground (arith, v.reader_in))))
    where
      cell : ℕ → ℕ
      cell = byte (length dst) m m.reader count

  loads :
      read_alone (length dst) (length dst + 3) m waiting
      ≡ next
          (read_step (length dst) m (seen m.reader (length dst)))
          (read_alone (length dst) (suc (length dst)))
  unfolding read_step
  loads =
      ap (λ k. read_alone (length dst) k m waiting) {x = length dst + 3}
        {y = suc (suc (suc (length dst)))} (omega arith)
      ∙ follow (length dst) (suc (suc (length dst))) m waiting refl
      ∙ follow (length dst) (suc (length dst)) m (seen m.reader (length dst)) refl

  test_empty :
      held ≡ 0 → read_step (length dst) m (seen m.reader (length dst)) ≡ (m, waiting, missed)
  unfolding read_step
  test_empty e = rw ((==_iff held 0).1 e)

  test_some :
      held ≢ 0
      → read_step (length dst) m (seen m.reader (length dst))
        ≡ (m, copying m.reader (length dst) count [], silent)
  unfolding read_step
  test_some ne = rw (ne→== held 0 ne)

  delivered :
      held ≢ 0
      → outcome dst (read_alone (length dst) (length dst + 3) m waiting)
        ≡ some (count, copied ++ drop count dst, record m { reader = new_reader m.reader count })
  delivered ne =
      ap (outcome dst) (
        loads
        ∙ ap (λ r. next r (read_alone (length dst) (suc (length dst)))) (test_some ne)
        ∙ load_all (length dst) m m.reader count (suc (length dst)) count [] (omega arith)
            (omega arith))
      ∙ ap (λ k. some (k, copied ++ drop k dst, record m { reader = new_reader m.reader count }))
          (length-read_cells _ 0 count)

  -- The consumer's own steps and the call run as a whole.
  same_call :
      outcome dst (read_alone (length dst) (length dst + 3) m waiting) ≡ SpscBuffer.read m dst
  unfolding new_reader
  same_call = elim (ℕ_discrete held 0) [
    | yes none_held ↦
        ap (outcome dst) (
          loads
          ∙ ap (λ r. next r (read_alone (length dst) (suc (length dst)))) (test_empty none_held))
        ∙ sym (read_empty dst v none_held)
    | no ne ↦ elim (dec_le count to_end) [
      | yes le ↦
          delivered ne
          ∙ ap₂ (λ xs r. some (count, xs ++ drop count dst, record m { reader = r }))
              (copied_flat le) (ground (arith, facts, v.reader_in))
          ∙ sym (read_flat dst v ne le)
      | no over ↦
          delivered ne
          ∙ ap₂ (λ xs r. some (count, xs ++ drop count dst, record m { reader = r }))
              (copied_split (omega arith)) (ground (arith, facts, v.reader_in))
          ∙ ap
              (λ k. some (
                count,
                (read_cells m.buffer m.reader to_end ++ read_cells m.buffer 0 (count - to_end))
                    ++ drop k dst,
                record m { reader = count - to_end },
              ))
              {x = count} {y = to_end + (count - to_end)} (omega arith)
          ∙ sym (read_split dst v (omega arith))
    ]
  ]

  -- On a well-formed buffer, a consumer that is not interrupted in `read` into a span of
  -- `length dst` bytes returns within `length dst + 3` steps, with what the call run as a whole
  -- returns and leaves: as many bytes as are held and fit into `dst`, the oldest first and before
  -- the old end of `dst`, and the bytes held without these. The buffer left is well-formed.
  pub read_alone_lem :
      (outcome dst (read_alone (length dst) (length dst + 3) m waiting) ≡ SpscBuffer.read m dst)
      × Reads m dst (outcome dst (read_alone (length dst) (length dst + 3) m waiting))
  read_alone_lem = (same_call, subst (Reads m dst) (sym same_call) (read_refines dst v))
