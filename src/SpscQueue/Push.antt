-- ===== src/SpscQueue/Push.antt =====
-- Both overloads of `SPSCQueue::try_push` against the specification.
use lock_free_queues.Prelude.{
  ℕ, ◌+◌, ◌%◌, ◌<◌, ◌≡◌, ◌≢◌, refl, sym, ap, ap₂, ◌∙◌, List, [], ◌∷◌, ◌++◌, map, map-append, some,
  Bool, true, not, ◌&&◌, false, arith, ltb, lt→ltb, le→ltb, dec_lt, Bool-cases, inl, inr, length,
  length-append, if◌then◌else◌, update, update_self, update_ne,
}
use lock_free_queues.Prelude.Words.{add64}
use lock_free_queues.Memory.Window.{window, window_congr, window-add}
use lock_free_queues.ObjectQueue
use lock_free_queues.SpscQueue.Objects.{Element, IsRegular, raw, live}
use lock_free_queues.SpscQueue.{
  SpscQueue, buffer_size_slots, wrap, is_full, construct, try_push, try_push_move,
}
use lock_free_queues.SpscQueue.Contents.{Holds, capacity, wrap_lem, is_full_lem}

module _ {ℓ} {T : Type ℓ} {e : Element T} {q : SpscQueue T} {xs : List T} (h : Holds e q xs)
    (x : T) where
  -- The queue after a successful push.
  abbrev pushed : SpscQueue T
  pushed = record q { buffer = update q.buffer (wrap q.writer) (live x); writer = add64 q.writer 1 }

  index : wrap q.writer ≡ (q.reader + length xs) % buffer_size_slots
  index = omega (arith, wrap_lem q.writer, h.writer_at)

  slot_free : e.trivially_copyable ≡ false → q.buffer (wrap q.writer) ≡ raw
  slot_free nt = ap q.buffer index ∙ h.free (length xs) nt (omega arith) (omega (arith, h.room))

  grown : length (xs ++ (x ∷ [])) ≡ length xs + 1
  grown = omega (arith, length-append xs (x ∷ []))

  other :
      (k : ℕ)
      → k ≢ length xs
      → k < buffer_size_slots
      → pushed.buffer ((q.reader + k) % buffer_size_slots)
        ≡ q.buffer ((q.reader + k) % buffer_size_slots)
  other k ne lt = update_ne q.buffer (wrap q.writer) (live x) (omega (arith, index, h.room))

  cells_after :
      length xs < capacity
      → window buffer_size_slots pushed.buffer q.reader (length (xs ++ (x ∷ [])))
        ≡ map live (xs ++ (x ∷ []))
  cells_after room =
      ap (window buffer_size_slots pushed.buffer q.reader) grown
      ∙ window-add buffer_size_slots pushed.buffer q.reader (length xs) 1
      ∙ ap₂ ◌++◌
          (window_congr buffer_size_slots pushed.buffer q.buffer q.reader q.reader (length xs)
              (λ i lt. other i (omega arith) (omega (arith, h.room)))
            ∙ h.cells)
          (ap (λ s. s ∷ []) (update_self q.buffer (wrap q.writer) (live x) index))
      ∙ sym (map-append live xs (x ∷ []))

  Holds-pushed : length xs < capacity → Holds e pushed (xs ++ (x ∷ []))
  Holds-pushed room = record {
    reader_in = h.reader_in;
    writer_at = omega (arith, grown, h.writer_at);
    room = omega (arith, grown);
    cells = cells_after room;
    free = λ k nt le lt. other k (omega (arith, grown)) lt ∙ h.free k nt (omega (arith, grown)) lt;
  }

  stored :
      (obj : T)
      → obj ≡ x
      → (if e.trivially_copyable then some (live x) else construct e (q.buffer (wrap q.writer)) obj)
        ≡ some (live x)
  unfolding construct
  stored obj same = elim (Bool-cases e.trivially_copyable) [
    | inl triv ↦ rw triv
    | inr nt ↦ rw (nt, slot_free nt) (ap (λ y. some (live y)) same)
  ]

  full : is_full q.writer q.reader ≡ ltb capacity (length xs + 1)
  full = is_full_lem q.writer q.reader (length xs) h.reader_in h.writer_at h.room

  -- For a regular element type, `try_push(const T&)` on a queue that holds `xs` loses no object
  -- and uses none that is not there. It appends a copy and returns true while fewer than
  -- `capacity` objects are held, and otherwise returns false with the objects unchanged.
  pub try_push_refines :
      IsRegular e
      → (q' : SpscQueue T) × (try_push e q x ≡ some (ObjectQueue.accepts capacity xs, q'))
        × Holds e q' (ObjectQueue.push capacity xs x)
  unfolding try_push
  try_push_refines law = elim (dec_lt (length xs) capacity) [
    | yes room ↦ (
      pushed,
      rw
          (
            full,
            le→ltb capacity (length xs + 1) (omega arith),
            lt→ltb _ _ room,
            stored (e.copy_new x) (law.copies x),
          )
          refl,
      rw (lt→ltb _ _ room) (Holds-pushed room),
    )
    | no none_left ↦ (
      q,
      rw
          (
            full,
            lt→ltb capacity (length xs + 1) (omega arith),
            le→ltb (length xs) capacity (omega arith),
          )
          refl,
      rw (le→ltb (length xs) capacity (omega arith)) h,
    )
  ]

  -- What is left of the argument of `try_push(T&&)`: it is moved from only if it is taken.
  abbrev pub left_over : T
  left_over =
      if ObjectQueue.accepts capacity xs && not e.trivially_copyable then (e.move_new x).1 else x

  -- For a regular element type, `try_push(T&&)` on a queue that holds `xs` loses no object and
  -- uses none that is not there. It appends the moved value and returns true while fewer than
  -- `capacity` objects are held, and otherwise returns false with the objects unchanged; it moves
  -- from its argument only if it takes it.
  pub try_push_move_refines :
      IsRegular e
      → (q' : SpscQueue T) × (try_push_move e q x
          ≡ some (ObjectQueue.accepts capacity xs, left_over, q'))
        × Holds e q' (ObjectQueue.push capacity xs x)
  unfolding try_push_move
  try_push_move_refines law = elim (dec_lt (length xs) capacity) [
    | yes room ↦ (
      pushed,
      rw
          (
            full,
            le→ltb capacity (length xs + 1) (omega arith),
            lt→ltb _ _ room,
            stored (e.move_new x).0 (law.moves x),
          )
          (ap (λ left. some (true, left, pushed)) (taken e.trivially_copyable)),
      rw (lt→ltb _ _ room) (Holds-pushed room),
    )
    | no none_left ↦ (
      q,
      rw
          (
            full,
            lt→ltb capacity (length xs + 1) (omega arith),
            le→ltb (length xs) capacity (omega arith),
          )
          refl,
      rw (le→ltb (length xs) capacity (omega arith)) h,
    )
  ]
    where
      taken :
          (b : Bool) → (if b then x else (e.move_new x).1) ≡ (if not b then (e.move_new x).1 else x)
      taken true = refl
      taken false = refl
