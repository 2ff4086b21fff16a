-- ===== src/SpscQueue/Pop.antt =====
-- `SPSCQueue::try_pop`, and the end of an object, against the specification.
use lock_free_queues.Prelude.{
  ℕ, suc, ◌+◌, ◌%◌, ◌≤◌, ◌<◌, ◌≡◌, refl, ap, ◌∙◌, List, [], ◌∷◌, map, some, true, false, arith,
  dec_lt, Bool-cases, inl, inr, length, if◌then◌else◌, update, update_self, update_ne, ◌==◌, ne→==,
  ==_iff,
}
use lock_free_queues.Prelude.Words.{add64}
use lock_free_queues.Memory.Window.{window, window_congr}
use lock_free_queues.SpscQueue.Objects.{Element, IsRegular, Slot, raw, live}
use lock_free_queues.SpscQueue.{SpscQueue, buffer_size_slots, wrap, take_out, try_pop}
use lock_free_queues.SpscQueue.Contents.{Holds, wrap_lem}

cons_parts {ℓ} : {A : Type ℓ} {a b : A} {l m : List A} → a ∷ l ≡ b ∷ m → (a ≡ b) × (l ≡ m)
cons_parts e = (cc, cc)

module _ {ℓ} {T : Type ℓ} {e : Element T} {q : SpscQueue T} {x : T} {xs : List T}
    (h : Holds e q (x ∷ xs)) where
  -- The slot after the pop: of a type with lifetimes it is raw again.
  abbrev pub left : Slot T
  left = if e.trivially_copyable then live x else raw

  abbrev pub popped : SpscQueue T
  popped = record q { buffer = update q.buffer (wrap q.reader) left; reader = add64 q.reader 1 }

  pub oldest : q.buffer (wrap q.reader) ≡ live x
  oldest = ap q.buffer (wrap_lem q.reader) ∙ (cons_parts h.cells).0

  other :
      (k : ℕ)
      → suc k < buffer_size_slots
      → popped.buffer ((popped.reader + k) % buffer_size_slots)
        ≡ q.buffer ((q.reader + suc k) % buffer_size_slots)
  other k lt =
      update_ne q.buffer (wrap q.reader) left (omega (arith, wrap_lem q.reader))
      ∙ ap q.buffer (omega arith)

  cells_after : window buffer_size_slots popped.buffer popped.reader (length xs) ≡ map live xs
  cells_after =
      window_congr buffer_size_slots popped.buffer q.buffer popped.reader (q.reader + 1) (length xs)
        (λ i lt. other i (omega (arith, h.room)) ∙ ap q.buffer (omega arith))
      ∙ (cons_parts h.cells).1

  free_after :
      (k : ℕ)
      → e.trivially_copyable ≡ false
      → length xs ≤ k
      → k < buffer_size_slots
      → popped.buffer ((popped.reader + k) % buffer_size_slots) ≡ raw
  free_after k nt le lt = elim (dec_lt (suc k) buffer_size_slots) [
    | yes below ↦ other k below ∙ h.free (suc k) nt (omega arith) below
    | no last ↦ update_self q.buffer (wrap q.reader) left (omega (arith, wrap_lem q.reader)) ∙ rw nt
  ]

  pub Holds-popped : Holds e popped xs
  Holds-popped = record {
    reader_in = omega arith;
    writer_at = omega (arith, h.writer_at);
    room = omega (arith, h.room);
    cells = cells_after;
    free = free_after;
  }

  taken : (dst : T) → IsRegular e → take_out e (q.buffer (wrap q.reader)) dst ≡ some (x, left)
  unfolding take_out
  taken dst law = elim (Bool-cases e.trivially_copyable) [
    | inl triv ↦ rw (oldest, triv)
    | inr nt ↦ rw (oldest, nt) (ap (λ y. some (y, raw)) (law.assigns dst x))
  ]

  pub not_empty : (q.reader == q.writer) ≡ false
  not_empty = ne→== q.reader q.writer (omega (arith, h.writer_at, h.room, h.reader_in))

module _ {ℓ} {T : Type ℓ} (e : Element T) (q : SpscQueue T) (dst : T) where
  -- What a call of `try_pop` on a queue that holds `xs` does.
  abbrev pub Pops : List T → Type ℓ
  Pops [] = try_pop e q dst ≡ some (false, dst, q)
  Pops (x ∷ xs) = (q' : SpscQueue T) × (try_pop e q dst ≡ some (true, x, q')) × Holds e q' xs

-- For a regular element type, `try_pop` on a queue that holds `xs` loses no object and uses none
-- that is not there. It returns the oldest object and true, or, of an empty queue, false with
-- destination and queue unchanged.
pub try_pop_refines {ℓ} :
    {T : Type ℓ} {e : Element T} {q : SpscQueue T} (dst : T) (xs : List T)
    → IsRegular e
    → Holds e q xs
    → Pops e q dst xs
unfolding try_pop
try_pop_refines {q = q} dst [] law h =
    rw ((==_iff q.reader q.writer).1 (omega (arith, h.writer_at, h.reader_in)))
try_pop_refines dst (x ∷ xs) law h =
    (popped h, rw (not_empty h, taken h dst law) refl, Holds-popped h)
