-- ===== src/SpscBuffer/Contents.antt =====
-- The bytes that an `SPSCBuffer` holds, and its well-formedness.
use lock_free_queues.Prelude.{ℕ, ◌+◌, ◌-◌, ◌%◌, ◌≤◌, ◌<◌, ◌≡◌, List, length, arith}
use lock_free_queues.Memory.Window.{window, length-window}
use lock_free_queues.SpscBuffer.{SpscBuffer, buffer_size, available}

pub record IsValid (s : SpscBuffer) : Type 0 where
  pub reader_in : s.reader < buffer_size
  pub writer_in : s.writer < buffer_size

-- Oldest first.
abbrev pub contents : SpscBuffer → List ℕ
contents s = window buffer_size s.buffer s.reader (available s.writer s.reader)

-- One cell always stays free, so that a full buffer differs from an empty one.
abbrev pub capacity : ℕ
capacity = buffer_size - 1

-- No step of `available` wraps: it is the distance from `reader` to `writer` round the ring.
pub available_lem :
    (w r : ℕ)
    → w < buffer_size
    → r < buffer_size
    → (available w r ≤ capacity)
      × ((r + available w r) % buffer_size ≡ w)
      × (available w r ≡ (w + buffer_size - r) % buffer_size)
unfolding available
available_lem w r hw hr = ground arith

pub length-contents : (s : SpscBuffer) → length (contents s) ≡ available s.writer s.reader
length-contents s = length-window buffer_size s.buffer s.reader (available s.writer s.reader)
