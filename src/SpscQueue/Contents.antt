-- ===== src/SpscQueue/Contents.antt =====
-- The objects that an `SPSCQueue` holds.
use lock_free_queues.Prelude.{ℕ, ◌+◌, ◌-◌, ◌%◌, ◌≤◌, ◌<◌, ◌≡◌, List, map, arith, length, false, ltb}
use lock_free_queues.Prelude.Words.{word_mod, bit_and-mask}
use lock_free_queues.Memory.Window.{window}
use lock_free_queues.SpscQueue.Objects.{Element, raw, live}
use lock_free_queues.SpscQueue.{SpscQueue, buffer_size_slots, wrap, used, is_full}

-- One slot always stays free.
abbrev pub capacity : ℕ
capacity = buffer_size_slots - 1

-- The mask is the remainder by the number of slots, so an index is always in the array.
pub wrap_lem : (i : ℕ) → wrap i ≡ i % buffer_size_slots
unfolding wrap
wrap_lem i = bit_and-mask 17 i

-- The queue holds the objects `xs`, oldest first. The slots from the oldest object on are live;
-- of a type with lifetimes the others are raw.
pub record Holds {ℓ} {T : Type ℓ} (e : Element T) (q : SpscQueue T) (xs : List T) : Type ℓ where
  pub reader_in : q.reader < word_mod
  pub writer_at : q.writer ≡ (q.reader + length xs) % word_mod
  pub room : length xs ≤ capacity
  pub cells : window buffer_size_slots q.buffer q.reader (length xs) ≡ map live xs
  pub free :
      (k : ℕ)
      → e.trivially_copyable ≡ false
      → length xs ≤ k
      → k < buffer_size_slots
      → q.buffer ((q.reader + k) % buffer_size_slots) ≡ raw

-- The difference of the counters is the number of objects, also after they have wrapped.
pub used_lem : (w r n : ℕ) → r < word_mod → w ≡ (r + n) % word_mod → n ≤ capacity → used w r ≡ n
unfolding used
used_lem w r n h e le = omega arith

pub is_full_lem :
    (w r n : ℕ)
    → r < word_mod
    → w ≡ (r + n) % word_mod
    → n ≤ capacity
    → is_full w r ≡ ltb capacity (n + 1)
unfolding is_full
is_full_lem w r n h e le = ground (arith, used_lem w r n)
