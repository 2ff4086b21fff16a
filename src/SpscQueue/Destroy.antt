-- ===== src/SpscQueue/Destroy.antt =====
-- `~SPSCQueue` on a queue that holds objects.
use lock_free_queues.Prelude.{
  ℕ, zero, suc, ◌+◌, ◌-◌, ◌%◌, ◌<◌, ◌≡◌, refl, sym, ap, ◌∙◌, List, [], ◌∷◌, some, Bool, false,
  arith, Bool-cases, inl, inr, length, if◌then◌else◌, update, ==_iff,
}
use mathlib.Core.Bool.{false≢true}
use lock_free_queues.Prelude.Words.{add64}
use lock_free_queues.SpscQueue.Objects.{Element, IsRegular, Slot, raw, live}
use lock_free_queues.SpscQueue.{SpscQueue, buffer_size_slots, wrap, end_life, destroy_from, destroy}
use lock_free_queues.SpscQueue.Contents.{Holds}
use lock_free_queues.SpscQueue.Pop.{oldest, not_empty, popped, Holds-popped}

abbrev pub AllRaw {ℓ} : {T : Type ℓ} → (ℕ → Slot T) → Type ℓ
AllRaw mem = (i : ℕ) → i < buffer_size_slots → mem i ≡ raw

module _ {ℓ} {T : Type ℓ} {e : Element T} (nt : e.trivially_copyable ≡ false) where
  AllRaw-empty : {q : SpscQueue T} → Holds e q [] → AllRaw q.buffer
  AllRaw-empty {q} h i lt =
      ap q.buffer (omega arith)
      ∙ h.free ((i + buffer_size_slots - q.reader % buffer_size_slots) % buffer_size_slots) nt
          (omega arith) (omega arith)

  one_round :
      (fuel : ℕ) {q : SpscQueue T} {x : T} {xs : List T} (h : Holds e q (x ∷ xs))
      → destroy_from e (suc fuel) q.writer q.reader q.buffer
        ≡ destroy_from e fuel (popped h).writer (popped h).reader (popped h).buffer
  unfolding destroy_from end_life
  one_round fuel {q} {x} h =
      rw (not_empty h, destroy_from)
        (rw (oldest h, end_life)
          (ap
            (λ (b : Bool).
              destroy_from e fuel q.writer (add64 q.reader 1)
                (update q.buffer (wrap q.reader) (if b then live x else raw)))
            (sym nt)))

  -- Each round ends the life of the oldest object; the fuel is one round more than the objects.
  destroy_from_all :
      (fuel : ℕ) (xs : List T) (q : SpscQueue T)
      → Holds e q xs
      → length xs < fuel
      → (mem : ℕ → Slot T) × (destroy_from e fuel q.writer q.reader q.buffer ≡ some mem)
        × AllRaw mem
  unfolding destroy_from
  destroy_from_all zero xs q h lt = absurd (omega arith)
  destroy_from_all (suc fuel) [] q h lt = (
    q.buffer,
    rw ((==_iff q.reader q.writer).1 (omega (arith, h.writer_at, h.reader_in)), destroy_from) refl,
    AllRaw-empty h,
  )
  destroy_from_all (suc fuel) (x ∷ xs) q h lt =
      let (mem, run, all) = destroy_from_all fuel xs (popped h) (Holds-popped h) (omega arith) in
      (mem, one_round fuel h ∙ run, all)

-- The destructor of a queue that holds `xs`, of a regular element type with a destructor of its
-- own, comes to an end in at most as many rounds as there are objects, destroys no object twice,
-- and leaves no object alive; the fuel is more than the objects held.
pub destroy_lem {ℓ} :
    {T : Type ℓ} {e : Element T} {q : SpscQueue T} {xs : List T} (fuel : ℕ)
    → IsRegular e
    → e.trivially_destructible ≡ false
    → Holds e q xs
    → length xs < fuel
    → (mem : ℕ → Slot T) × (destroy e fuel q ≡ some mem) × AllRaw mem
unfolding destroy
destroy_lem {e = e} {q = q} {xs = xs} fuel law nd h lt =
    let (mem, run, all) = destroy_from_all nt fuel xs q h lt in
    (
      mem,
      ap (λ (b : Bool). if b then some q.buffer else destroy_from e fuel q.writer q.reader q.buffer)
            nd
          ∙ run,
      all,
    )
  where
    nt : e.trivially_copyable ≡ false
    nt = elim (Bool-cases e.trivially_copyable) [
      | inl triv ↦ absurd (false≢true (sym nd ∙ law.trivial triv))
      | inr other ↦ other
    ]
