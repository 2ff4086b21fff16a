-- ===== src/SpmcQueue.antt =====
-- `SPMCQueue<T>` of include/spmc_queue_trivially_copiable.hpp, one shared access at a time: the
-- producer's `push`, and `Consumer::pop` of any number of consumers.
pub mod System
pub mod Laps
pub mod Invariant
pub mod Slots
pub mod Push
pub mod Seqlock
pub mod Pop
pub mod Delivery
pub mod Progress
pub mod Lone
pub mod Outcome
pub mod Calls
pub mod Shown
pub mod Reads
pub mod Refines
mod Tests
use Prim.Native.Nat.{bit_and}
use lock_free_queues.Prelude.{
  ℕ, zero, suc, ◌+◌, ◌-◌, ◌*◌, ◌/◌, ◌^◌, ◌%◌, List, [], ◌∷◌, ◌++◌, Bool, true, false, ltb, ◌==◌,
  if◌then◌else◌, update, length, not,
}
use lock_free_queues.Prelude.Words.{add64, mul64}

-- The slots, `version` and `data`, and the atomic `writer`. An object of the trivially copyable
-- type `T` is its words, since the copies of an object are not atomic.
pub record Shared (A : Type 0) : Type 0 where
  pub writer : ℕ
  pub version : ℕ → ℕ
  pub cells : ℕ → ℕ → A

-- Where the producer stands in `push`, with the local variables that are live there.
pub data PushPc : Type 0 where
  ready : PushPc
  loaded : (w : ℕ) → PushPc
  versioned : (w slot_ver : ℕ) → PushPc
  writing : (w slot_ver word : ℕ) → PushPc
  stored : (w : ℕ) → PushPc

-- Where a consumer stands. `making` is `make_consumer` before its load, and `copying` holds the
-- words of `temp` read so far.
pub data PopPc (A : Type 0) : Type 0 where
  making : PopPc A
  waiting : PopPc A
  copying : (temp : List A) → PopPc A
  aborted : PopPc A

-- `class Consumer`. The last three fields record what happened: the first index that the consumer
-- reads, the objects that its calls of `pop` delivered, and how many of them returned false.
pub record Consumer (A : Type 0) : Type 0 where
  pub reader : ℕ
  pub pc : PopPc A
  pub start : ℕ
  pub got : List (List A)
  pub misses : ℕ

-- `buffer_size` is 2^bits slots, as its static_assert demands.
module _ (bits : ℕ) where
  abbrev pub buffer_size : ℕ
  buffer_size = 2 ^ bits

  unfoldable pub wrap : ℕ → ℕ
  wrap i = bit_and i (buffer_size - 1)

  unfoldable pub expected_version : ℕ → ℕ
  expected_version reader = let gen = reader / 2 ^ bits in mul64 2 (add64 gen 1)

abbrev pub set_version : {A : Type 0} → Shared A → ℕ → ℕ → Shared A
set_version m i v = record m { version = update m.version i v }

abbrev pub set_word : {A : Type 0} → Shared A → ℕ → ℕ → A → Shared A
set_word m i k x = record m { cells = update m.cells i (update (m.cells i) k x) }

-- UNEXPECTED(condition): the thread aborts, or goes on with the rest.
abbrev pub unexpected : {A : Type 0} → Bool → Consumer A → Consumer A → Consumer A
unexpected condition c rest = if condition then record c { pc = aborted } else rest

-- `width` is the number of words of a `T`.
module _ (bits width : ℕ) {A : Type 0} where
  -- `push(val)`, one shared access for each step.
  unfoldable pub push_step : (ℕ → A) → Shared A → PushPc → Shared A × PushPc
  push_step val m ready = (m, loaded m.writer)
  push_step val m (loaded w) = (m, versioned w (m.version (wrap bits w)))
  push_step val m (versioned w v) = (set_version m (wrap bits w) (add64 v 1), writing w v 0)
  push_step val m (writing w v k) =
      if ltb k width
      then (set_word m (wrap bits w) k (val k), writing w v (k + 1))
      else (set_version m (wrap bits w) (add64 v 2), stored w)
  push_step val m (stored w) = (record m { writer = add64 w 1 }, ready)

  -- The test of `pop` on the first load of the version.
  unfoldable pub check : Consumer A → ℕ → Consumer A
  check c v1 =
      let expected = expected_version bits c.reader in
      unexpected (ltb expected v1) c (
        if ltb v1 expected
        then record c { misses = c.misses + 1 }
        else record c { pc = copying [] })

  -- The test on the second load, and the delivery.
  unfoldable pub recheck : Consumer A → List A → ℕ → Consumer A
  recheck c temp v2 =
      unexpected (not (v2 == expected_version bits c.reader)) c
        (record c { reader = add64 c.reader 1; pc = waiting; got = c.got ++ (temp ∷ []) })

  -- `make_consumer()`, and then `pop` again and again.
  unfoldable pub pop_step : Shared A → Consumer A → PopPc A → Consumer A
  pop_step m c making = record c { reader = m.writer; pc = waiting; start = m.writer; got = [] }
  pop_step m c waiting = check c (m.version (wrap bits c.reader))
  pop_step m c (copying temp) =
      if ltb (length temp) width
      then record c { pc = copying (temp ++ (m.cells (wrap bits c.reader) (length temp) ∷ [])) }
      else recheck c temp (m.version (wrap bits c.reader))
  pop_step m c aborted = c

  -- A consumer that runs while the shared memory stays as it is.
  unfoldable pub pop_alone : ℕ → Shared A → Consumer A → Consumer A
  pop_alone zero m c = c
  pop_alone (suc steps) m c = pop_alone steps m (pop_step m c c.pc)
