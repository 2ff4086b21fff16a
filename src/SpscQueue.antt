-- ===== src/SpscQueue.antt =====
-- `SPSCQueue<T>` of include/spsc_queue.hpp: a ring of 64-byte slots, each with room for one object
-- of type `T`. Each call is run as a whole here.
pub mod Objects
pub mod Contents
pub mod Push
pub mod Pop
pub mod Destroy
pub mod Stream
pub mod Threads
mod Tests
use Prim.Native.Nat.{bit_and}
use lock_free_queues.Prelude.{
  ℕ, zero, suc, ◌-◌, ◌*◌, ◌/◌, Option, none, some, Bool, true, false, ltb, ◌==◌, if◌then◌else◌,
  ◌>>=◌, update,
}
use lock_free_queues.Prelude.Words.{add64, sub64}
use lock_free_queues.SpscQueue.Objects.{Element, Slot, raw, live}

abbrev pub buffer_size_bytes : ℕ
buffer_size_bytes = 8 * 1024 * 1024

abbrev pub buffer_size_slots : ℕ
buffer_size_slots = buffer_size_bytes / 64

abbrev pub wrap_mask : ℕ
wrap_mask = buffer_size_slots - 1

unfoldable pub wrap : ℕ → ℕ
wrap i = bit_and i wrap_mask

-- `reader` and `writer` count the pops and pushes, modulo 2^64.
pub record SpscQueue {ℓ} (T : Type ℓ) : Type ℓ where
  pub buffer : ℕ → Slot T
  pub reader : ℕ
  pub writer : ℕ

unfoldable pub init {ℓ} : (T : Type ℓ) → SpscQueue T
init T = record { buffer = λ _. raw; reader = 0; writer = 0 }

unfoldable pub used : ℕ → ℕ → ℕ
used writer reader = sub64 writer reader

-- The test before either push.
unfoldable pub is_full : ℕ → ℕ → Bool
is_full writer reader =
    let avail = used writer reader in
    let free_space = sub64 (buffer_size_slots - 1) avail in ltb free_space 1

-- `none` stands for the loss of an object, or for the use of one that is not there.
module _ {ℓ} {T : Type ℓ} (e : Element T) where
  -- A slot after placement new.
  unfoldable pub construct : Slot T → T → Option (Slot T)
  construct raw obj = some (live obj)
  construct (live old) obj = none

  unfoldable pub try_push : SpscQueue T → T → Option (Bool × SpscQueue T)
  try_push q x =
      let i = wrap q.writer in
      let stored =
        if e.trivially_copyable then some (live x) else construct (q.buffer i) (e.copy_new x) in
      if is_full q.writer q.reader then some (false, q) else do
        s ← stored
        some (true, record q { buffer = update q.buffer i s; writer = add64 q.writer 1 })

  -- With what is left of the argument.
  unfoldable pub try_push_move : SpscQueue T → T → Option (Bool × T × SpscQueue T)
  try_push_move q x =
      let i = wrap q.writer in
      let left = if e.trivially_copyable then x else (e.move_new x).1 in
      let stored =
        if e.trivially_copyable then some (live x) else construct (q.buffer i) (e.move_new x).0 in
      if is_full q.writer q.reader then some (false, x, q) else do
        s ← stored
        some (true, left, record q { buffer = update q.buffer i s; writer = add64 q.writer 1 })

  -- The slot and the destination after `memcpy`, or after the move and the destructor.
  unfoldable pub take_out : Slot T → T → Option (T × Slot T)
  take_out raw dst = none
  take_out (live x) dst =
      if e.trivially_copyable then some (x, live x) else some ((e.move_assign dst x).0, raw)

  -- With the destination afterwards.
  unfoldable pub try_pop : SpscQueue T → T → Option (Bool × T × SpscQueue T)
  try_pop q dst =
      let i = wrap q.reader in
      if q.reader == q.writer then some (false, dst, q) else do
        (dst', s) ← take_out (q.buffer i) dst
        some (true, dst', record q { buffer = update q.buffer i s; reader = add64 q.reader 1 })

  -- `ptr->~T()`
  unfoldable pub end_life : Slot T → Option (Slot T)
  end_life raw = none
  end_life (live x) = some raw

  -- The loop of the destructor. It takes at most 2^64 rounds; `none` also if the fuel runs out.
  unfoldable pub destroy_from : ℕ → ℕ → ℕ → (ℕ → Slot T) → Option (ℕ → Slot T)
  destroy_from zero writer reader mem = none
  destroy_from (suc fuel) writer reader mem = elim (reader == writer) [
    | true ↦ some mem
    | false ↦ end_life (mem (wrap reader)) >>= λ s.
        destroy_from fuel writer (add64 reader 1) (update mem (wrap reader) s)
  ]

  -- `~SPSCQueue`: the slots as the array is freed.
  unfoldable pub destroy : ℕ → SpscQueue T → Option (ℕ → Slot T)
  destroy fuel q =
      if e.trivially_destructible
      then some q.buffer
      else destroy_from fuel q.writer q.reader q.buffer
