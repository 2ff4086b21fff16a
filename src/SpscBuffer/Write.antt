-- ===== src/SpscBuffer/Write.antt =====
-- `SPSCBuffer::try_write` against the specification.
use lock_free_queues.Prelude.{
  ℕ, ◌+◌, ◌-◌, ◌%◌, ◌≤◌, ◌<◌, ◌≡◌, ap, ap₂, ◌∙◌, List, ◌++◌, Option, some, Bool, true, false, arith,
  dec_lt, dec_le, inr, length, take, drop, take-append-drop, append_assoc, length-take, length-drop,
  le→leb, lt→leb,
}
use lock_free_queues.Memory.Copy.{write_cells, write_cells-outside, read-write_cells, copy_in_lem}
use lock_free_queues.Memory.Window.{window, window_congr, window-add, window-eq_cells}
use lock_free_queues.ByteQueue
use lock_free_queues.SpscBuffer.{SpscBuffer, buffer_size, available, try_write}
use lock_free_queues.SpscBuffer.Contents.{
  IsValid, contents, capacity, available_lem, length-contents,
}

-- The bytes lie past the `n` bytes held, which stay, and do not reach the end of the array.
module _ (mem : ℕ → ℕ) (r n w : ℕ) (at : (r + n) % buffer_size ≡ w) (r_in : r < buffer_size) where
  append_flat :
      (bytes : List ℕ)
      → w + length bytes ≤ buffer_size
      → n + length bytes < buffer_size
      → window buffer_size (write_cells mem w bytes) r (n + length bytes)
        ≡ window buffer_size mem r n ++ bytes
  append_flat bytes room free =
      window-add buffer_size (write_cells mem w bytes) r n (length bytes)
      ∙ ap₂ ◌++◌
          (window_congr buffer_size (write_cells mem w bytes) mem r r n
            λ i lt. write_cells-outside mem w bytes ((r + i) % buffer_size) (ground arith))
          (window-eq_cells buffer_size (write_cells mem w bytes) (r + n) w (length bytes)
              (λ i lt. omega arith)
            ∙ read-write_cells mem w bytes)

  -- In two parts: up to the end of the array, then from its start.
  append_split :
      (first second : List ℕ)
      → w + length first ≡ buffer_size
      → n + length first + length second < buffer_size
      → window buffer_size
          (write_cells (write_cells mem w first) 0 second)
          r
          (n + length first + length second)
        ≡ (window buffer_size mem r n ++ first) ++ second
  append_split first second room free =
      window-add buffer_size (write_cells (write_cells mem w first) 0 second) r (n + length first)
        (length second)
      ∙ ap₂ ◌++◌
          (window_congr buffer_size (write_cells (write_cells mem w first) 0 second)
              (write_cells mem w first) r r (n + length first)
              (λ i lt.
                write_cells-outside (write_cells mem w first) 0 second ((r + i) % buffer_size)
                  (inr (omega arith)))
            ∙ append_flat first (omega arith) (omega arith))
          (window-eq_cells buffer_size (write_cells (write_cells mem w first) 0 second)
              (r + (n + length first)) 0 (length second) (λ i lt. omega arith)
            ∙ read-write_cells (write_cells mem w first) 0 second)

-- What a call of `try_write` on `s` does, as the byte queue tells it.
abbrev pub Writes : SpscBuffer → List ℕ → Option (Bool × SpscBuffer) → Type 0
Writes s bytes r =
    (s' : SpscBuffer) × (r ≡ some (ByteQueue.fits capacity (contents s) bytes, s'))
    × IsValid s'
    × (contents s' ≡ ByteQueue.write capacity (contents s) bytes)

module _ {s : SpscBuffer} (bytes : List ℕ) (v : IsValid s) where
  abbrev held : ℕ
  held = available s.writer s.reader

  abbrev first_part : ℕ
  first_part = buffer_size - s.writer

  facts :
      (held ≤ capacity)
      × ((s.reader + held) % buffer_size ≡ s.writer)
      × (held ≡ (s.writer + buffer_size - s.reader) % buffer_size)
  facts = available_lem s.writer s.reader v.writer_in v.reader_in

  pub write_full : capacity < held + length bytes → try_write s bytes ≡ some (false, s)
  unfolding try_write
  write_full h = ground (arith, facts)

  pub write_flat :
      held + length bytes ≤ capacity
      → s.writer + length bytes < buffer_size
      → try_write s bytes
        ≡ some (
          true,
          record s {
            buffer = write_cells s.buffer s.writer bytes;
            writer = s.writer + length bytes;
          },
        )
  unfolding try_write
  write_flat h lt = ground (arith, facts, copy_in_lem buffer_size s.buffer s.writer bytes)

  pub write_split :
      held + length bytes ≤ capacity
      → buffer_size ≤ s.writer + length bytes
      → try_write s bytes
        ≡ some (
          true,
          record s {
            buffer =
                write_cells
                  (write_cells s.buffer s.writer (take first_part bytes))
                  0
                  (drop first_part bytes);
            writer = length bytes - first_part;
          },
        )
  unfolding try_write
  write_split h le = ground (
    arith,
    facts,
    length-take first_part bytes,
    length-drop first_part bytes,
    copy_in_lem buffer_size s.buffer s.writer (take first_part bytes),
    copy_in_lem buffer_size (write_cells s.buffer s.writer (take first_part bytes)) 0
        (drop first_part bytes),
  )

  -- The state after a write that wraps round the end, its new distance and contents.
  held_after :
      (w' : ℕ)
      → held + length bytes ≤ capacity
      → w' ≡ (s.writer + length bytes) % buffer_size
      → available w' s.reader ≡ held + length bytes
  held_after w' h e = omega (arith, facts, available_lem w' s.reader (omega arith) v.reader_in)

  spec_full : capacity < held + length bytes → (ByteQueue.fits capacity (contents s) bytes ≡ false)
  spec_full h = rw (length-contents s) (lt→leb (held + length bytes) capacity h)

  spec_fits : held + length bytes ≤ capacity → (ByteQueue.fits capacity (contents s) bytes ≡ true)
  spec_fits h = rw (length-contents s) (le→leb (held + length bytes) capacity h)

  accepted :
      (mem : ℕ → ℕ) (w' : ℕ)
      → held + length bytes ≤ capacity
      → w' ≡ (s.writer + length bytes) % buffer_size
      → try_write s bytes ≡ some (true, record s { buffer = mem; writer = w' })
      → window buffer_size mem s.reader (held + length bytes) ≡ contents s ++ bytes
      → Writes s bytes (try_write s bytes)
  accepted mem w' h e run held_bytes = (
    record s { buffer = mem; writer = w' },
    rw (spec_fits h) run,
    record { reader_in = v.reader_in; writer_in = omega arith },
    rw (spec_fits h, held_after w' h e) held_bytes,
  )

  flat :
      held + length bytes ≤ capacity
      → s.writer + length bytes < buffer_size
      → Writes s bytes (try_write s bytes)
  flat h lt = accepted _ _ h (omega arith) (write_flat h lt) (
      append_flat s.buffer s.reader held s.writer facts.1 v.reader_in bytes (omega arith)
        (omega arith))

  split :
      held + length bytes ≤ capacity
      → buffer_size ≤ s.writer + length bytes
      → Writes s bytes (try_write s bytes)
  split h le =
      accepted mem (length bytes - first_part) h (omega (arith, facts)) (write_split h le) (
        ap (window buffer_size mem s.reader) lengths
        ∙ append_split s.buffer s.reader held s.writer facts.1 v.reader_in front back
            (omega (arith, length-take first_part bytes)) (omega (arith, lengths))
        ∙ append_assoc (contents s) front back
        ∙ ap (λ r. contents s ++ r) (take-append-drop first_part bytes))
    where
      front : List ℕ
      front = take first_part bytes

      back : List ℕ
      back = drop first_part bytes

      mem : ℕ → ℕ
      mem = write_cells (write_cells s.buffer s.writer front) 0 back

      lengths : held + length bytes ≡ held + length front + length back
      lengths = omega (arith, length-take first_part bytes, length-drop first_part bytes)

  -- On a well-formed buffer `try_write` never leaves the array, keeps the buffer well-formed, and
  -- does what the byte queue does: it takes all the bytes if they fit and returns true, and
  -- otherwise returns false with the contents unchanged.
  pub try_write_refines : Writes s bytes (try_write s bytes)
  try_write_refines = elim (dec_le (held + length bytes) capacity) [
    | yes h ↦ elim (dec_lt (s.writer + length bytes) buffer_size) [
      | yes lt ↦ flat h lt
      | no ge ↦ split h (omega arith)
    ]
    | no big ↦ (
      s,
      rw (spec_full (omega arith)) (write_full (omega arith)),
      v,
      rw (spec_full (omega arith)),
    )
  ]
