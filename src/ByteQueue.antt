-- ===== src/ByteQueue.antt =====
-- What the byte buffers promise: a FIFO of at most `capacity` bytes, oldest first. A write goes in
-- whole or not at all; a read takes as many bytes as there are and as fit.
use lock_free_queues.Prelude.{ℕ, ◌+◌, List, ◌++◌, Bool, leb, if◌then◌else◌, min, length}

abbrev pub fits : ℕ → List ℕ → List ℕ → Bool
fits capacity q bytes = leb (length q + length bytes) capacity

abbrev pub write : ℕ → List ℕ → List ℕ → List ℕ
write capacity q bytes = if fits capacity q bytes then q ++ bytes else q

-- How many bytes a read into a span of `room` bytes takes.
abbrev pub count : ℕ → List ℕ → ℕ
count room q = min (length q) room
