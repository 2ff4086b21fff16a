-- ===== src/SpscBuffer/Threads/Spec.antt =====
-- What the callers of the two threads may see: the calls of one bounded byte queue.
use lock_free_queues.Prelude.{ℕ, ◌+◌, ◌≤◌, ◌<◌, ◌≡◌, sym, ◌∙◌, List, [], ◌++◌, append-nil, length}
use lock_free_queues.SpscBuffer.Contents.{capacity}
use lock_free_queues.SpscBuffer.Threads.{Event, silent, wrote, refused, read, missed}

-- What a step does to the queue that holds `xs`. A write is refused only if it does not fit, and a
-- read returns nothing only for an empty span or from an empty queue.
abbrev pub Does : List ℕ → Event → List ℕ → Type 0
Does xs silent ys = ys ≡ xs
Does xs (wrote bytes) ys = (length xs + length bytes ≤ capacity) × (ys ≡ xs ++ bytes)
Does xs (refused size) ys = (capacity < length xs + size) × (ys ≡ xs)
Does xs (read room bytes) ys =
    (xs ≡ bytes ++ ys) × (length bytes ≤ room) × (0 < room → 0 < length bytes)
Does xs missed ys = (xs ≡ []) × (ys ≡ [])

abbrev pub bytes_in : Event → List ℕ
bytes_in (wrote bytes) = bytes
bytes_in _ = []

abbrev pub bytes_out : Event → List ℕ
bytes_out (read room bytes) = bytes
bytes_out _ = []

pub Does-Balanced :
    (e : Event) (xs ys : List ℕ) → Does xs e ys → xs ++ bytes_in e ≡ bytes_out e ++ ys
Does-Balanced silent xs ys d = append-nil xs ∙ sym d
Does-Balanced (wrote bytes) xs ys d = sym d.1
Does-Balanced (refused size) xs ys d = append-nil xs ∙ sym d.1
Does-Balanced (read room bytes) xs ys d = append-nil xs ∙ d.0
Does-Balanced missed xs ys d = append-nil xs ∙ d.0 ∙ sym d.1
