-- ===== src/SpscBuffer/Read.antt =====
-- `SPSCBuffer::read` against the specification.
use lock_free_queues.Prelude.{
  ℕ, ◌+◌, ◌-◌, ◌%◌, ◌≤◌, ◌<◌, ◌≡◌, ◌≢◌, refl, sym, ap, ap₂, ◌∙◌, List, ◌++◌, Option, some, arith,
  dec_le, ℕ_discrete, length, take, drop, min, take-append, drop-append,
}
use lock_free_queues.Memory.Copy.{
  read_cells, copy_out_lem, copy_to_start, copy_to_next, length-read_cells,
}
use lock_free_queues.Memory.Window.{
  window, window_congr, window-add, window-eq_cells, length-window,
}
use lock_free_queues.ByteQueue
use lock_free_queues.SpscBuffer.{SpscBuffer, buffer_size, available, read}
use lock_free_queues.SpscBuffer.Contents.{
  IsValid, contents, capacity, available_lem, length-contents,
}

-- What a call of `read` on `s` into the span `dst` does, as the byte queue tells it.
abbrev pub Reads : SpscBuffer → List ℕ → Option (ℕ × List ℕ × SpscBuffer) → Type 0
Reads s dst r =
    let n = ByteQueue.count (length dst) (contents s) in
    (s' : SpscBuffer) × (r ≡ some (n, take n (contents s) ++ drop n dst, s'))
    × IsValid s'
    × (contents s' ≡ drop n (contents s))

module _ {s : SpscBuffer} (dst : List ℕ) (v : IsValid s) where
  abbrev held : ℕ
  held = available s.writer s.reader

  abbrev count : ℕ
  count = min held (length dst)

  abbrev to_end : ℕ
  to_end = buffer_size - s.reader

  facts :
      (held ≤ capacity)
      × ((s.reader + held) % buffer_size ≡ s.writer)
      × (held ≡ (s.writer + buffer_size - s.reader) % buffer_size)
  facts = available_lem s.writer s.reader v.writer_in v.reader_in

  -- The cells of the first copy, and of the second.
  abbrev front : ℕ → List ℕ
  front n = read_cells s.buffer s.reader n

  abbrev back : ℕ → List ℕ
  back n = read_cells s.buffer 0 n

  pub read_empty : held ≡ 0 → read s dst ≡ some (0, dst, s)
  unfolding read
  read_empty h = ground arith

  pub read_flat :
      held ≢ 0
      → count ≤ to_end
      → read s dst
        ≡ some (
          count,
          front count ++ drop count dst,
          record s { reader = (s.reader + count) % buffer_size },
        )
  unfolding read
  read_flat h le = ground (
    arith,
    facts,
    copy_out_lem buffer_size s.buffer s.reader count,
    copy_to_start dst (front count) count,
    length-read_cells s.buffer s.reader count,
  )

  pub read_split :
      to_end < count
      → read s dst
        ≡ some (
          count,
          (front to_end ++ back (count - to_end)) ++ drop (to_end + (count - to_end)) dst,
          record s { reader = count - to_end },
        )
  unfolding read
  read_split lt = ground (
    arith,
    facts,
    copy_out_lem buffer_size s.buffer s.reader to_end,
    copy_to_start dst (front to_end) to_end,
    length-read_cells s.buffer s.reader to_end,
    copy_out_lem buffer_size s.buffer 0 (count - to_end),
    copy_to_next dst (front to_end) (back (count - to_end)) to_end (count - to_end),
    length-read_cells s.buffer 0 (count - to_end),
  )

  -- The contents in two: the bytes that the call takes, and those that it leaves.
  abbrev taken : List ℕ
  taken = window buffer_size s.buffer s.reader count

  abbrev rest : List ℕ
  rest = window buffer_size s.buffer (s.reader + count) (held - count)

  length-taken : length taken ≡ count
  length-taken = length-window buffer_size s.buffer s.reader count

  cut : contents s ≡ taken ++ rest
  cut =
      ap (window buffer_size s.buffer s.reader) (omega arith)
      ∙ window-add buffer_size s.buffer s.reader count (held - count)

  flat_cells : count ≤ to_end → front count ≡ taken
  flat_cells le =
      sym (window-eq_cells buffer_size s.buffer s.reader s.reader count (λ i lt. omega arith))

  split_cells : to_end < count → front to_end ++ back (count - to_end) ≡ taken
  split_cells lt = sym (
      ap (window buffer_size s.buffer s.reader) (omega arith)
      ∙ window-add buffer_size s.buffer s.reader to_end (count - to_end)
      ∙ ap₂ ◌++◌
          (window-eq_cells buffer_size s.buffer s.reader s.reader to_end (λ i h. omega arith))
          (window-eq_cells buffer_size s.buffer (s.reader + to_end) 0 (count - to_end)
            (λ i h. omega (arith, facts))))

  reads :
      (r' : ℕ)
      → r' ≡ (s.reader + count) % buffer_size
      → read s dst ≡ some (count, taken ++ drop count dst, record s { reader = r' })
      → Reads s dst (read s dst)
  reads r' e run = (
    record s { reader = r' },
    rw (length-contents s, take_count) run,
    record { reader_in = omega arith; writer_in = v.writer_in },
    rw (length-contents s) left,
  )
    where
      take_count : take count (contents s) ≡ taken
      take_count = ap (take count) cut ∙ take-append taken rest count (sym length-taken)

      held_left : available s.writer r' ≡ held - count
      held_left = omega (arith, facts, available_lem s.writer r' v.writer_in (omega arith))

      left : window buffer_size s.buffer r' (available s.writer r') ≡ drop count (contents s)
      left =
          ap (window buffer_size s.buffer r') held_left
          ∙ window_congr buffer_size s.buffer s.buffer r' (s.reader + count) (held - count)
              (λ i lt. ap s.buffer (omega arith))
          ∙ sym (ap (drop count) cut ∙ drop-append taken rest count (sym length-taken))

  -- On a well-formed buffer `read` never leaves the array or the span and keeps the buffer
  -- well-formed. It returns as many bytes as are held and fit into `dst`, the oldest first, leaves
  -- the end of `dst` as it was, and takes exactly those bytes off the contents.
  pub read_refines : Reads s dst (read s dst)
  read_refines = elim (ℕ_discrete held 0) [
    | yes none_held ↦ reads s.reader (omega arith) (
        read_empty none_held
        ∙ ap (λ n. some (n, window buffer_size s.buffer s.reader n ++ drop n dst, s)) (omega arith))
    | no some_held ↦ elim (dec_le count to_end) [
      | yes le ↦
          reads ((s.reader + count) % buffer_size) refl
            (rw (← flat_cells le) (read_flat some_held le))
      | no gt ↦ reads (count - to_end) (omega (arith, facts)) (
          read_split (omega arith)
          ∙ ap₂ (λ bytes k. some (count, bytes ++ drop k dst, record s { reader = count - to_end }))
              (split_cells (omega arith)) (omega arith))
    ]
  ]
