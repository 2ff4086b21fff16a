-- ===== src/SpscBuffer/Threads/Address.antt =====
-- The addresses of the two copies, and the new positions, are those of the ring.
use lock_free_queues.Prelude.{ℕ, ◌+◌, ◌-◌, ◌%◌, ◌≤◌, ◌<◌, ◌≡◌, ◌≢◌, arith}
use lock_free_queues.SpscBuffer.{buffer_size, available}
use lock_free_queues.SpscBuffer.Contents.{capacity, available_lem}
use lock_free_queues.SpscBuffer.Threads.{write_at, new_writer, read_at, new_reader}

pub write_at_lem :
    (n w size k : ℕ)
    → w ≡ n % buffer_size
    → size ≤ capacity
    → k < size
    → write_at w size k ≡ (n + k) % buffer_size
unfolding write_at
write_at_lem n w size k e le lt = ground arith

pub new_writer_lem :
    (n w size : ℕ)
    → w ≡ n % buffer_size
    → size ≤ capacity
    → new_writer w size ≡ (n + size) % buffer_size
unfolding new_writer
new_writer_lem n w size e le = ground arith

pub read_at_lem :
    (p r n k : ℕ)
    → r ≡ p % buffer_size
    → n ≤ capacity
    → k < n
    → read_at r n k ≡ (p + k) % buffer_size
unfolding read_at
read_at_lem p r n k e le lt = ground arith

pub new_reader_lem :
    (p r n : ℕ) → r ≡ p % buffer_size → n ≤ capacity → new_reader r n ≡ (p + n) % buffer_size
unfolding new_reader
new_reader_lem p r n e le = ground arith

-- What is held is what was written and not read.
pub available-held :
    (n p : ℕ) → p ≤ n → n ≤ p + capacity → available (n % buffer_size) (p % buffer_size) ≡ n - p
available-held n p le room =
    omega (arith, available_lem (n % buffer_size) (p % buffer_size) (omega arith) (omega arith))

-- The cells that are written are none of those that hold bytes.
pub apart :
    (n p size k i : ℕ)
    → n + size ≤ p + capacity
    → k < size
    → p ≤ i
    → i < n
    → (n + k) % buffer_size ≢ i % buffer_size
apart n p size k i room lt lo hi same = absurd (omega arith)
