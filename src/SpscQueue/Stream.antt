-- ===== src/SpscQueue/Stream.antt =====
-- Any sequence of calls on an `SPSCQueue`.
use lock_free_queues.Prelude.{
  ◌≡◌, refl, sym, ap, ◌∙◌, List, [], ◌∷◌, ◌++◌, Option, some, Bool, true, false, ◌>>=◌,
  if◌then◌else◌, append-nil, append_assoc,
}
use lock_free_queues.ObjectQueue
use lock_free_queues.SpscQueue.Objects.{Element, IsRegular}
use lock_free_queues.SpscQueue.{SpscQueue, try_push, try_push_move, try_pop}
use lock_free_queues.SpscQueue.Contents.{Holds, capacity}
use lock_free_queues.SpscQueue.Push.{try_push_refines, try_push_move_refines}
use lock_free_queues.SpscQueue.Pop.{try_pop_refines}

pub data Call {ℓ} (T : Type ℓ) : Type ℓ where
  push : (x : T) → Call T
  push_move : (x : T) → Call T
  pop : (dst : T) → Call T

module _ {ℓ} {T : Type ℓ} (e : Element T) where
  -- The object that a call accepted, and the one that it delivered.
  unfoldable pub call : Call T → SpscQueue T → Option (List T × List T × SpscQueue T)
  call (push x) q = do (done, q') ← try_push e q x; some (if done then x ∷ [] else [], [], q')
  call (push_move x) q = do
    (done, left, q') ← try_push_move e q x
    some (if done then x ∷ [] else [], [], q')
  call (pop dst) q = do
    (done, dst', q') ← try_pop e q dst
    some ([], if done then dst' ∷ [] else [], q')

  unfoldable pub run : List (Call T) → SpscQueue T → Option (List T × List T × SpscQueue T)
  unfolding call
  run [] q = some ([], [], q)
  run (c ∷ cs) q = do (a, d, q₁) ← call c q; (a', d', q₂) ← run cs q₁; some (a ++ a', d ++ d', q₂)

  -- From a queue that holds `xs`: what went in on top of them is what came out and is held still.
  abbrev pub Balanced : List T → Option (List T × List T × SpscQueue T) → Type ℓ
  Balanced xs r =
      (a : List T) × (d : List T) × (q' : SpscQueue T) × (ys : List T) × (r ≡ some (a, d, q'))
      × Holds e q' ys
      × (xs ++ a ≡ d ++ ys)

module _ {ℓ} {T : Type ℓ} {e : Element T} (law : IsRegular e) where
  put :
      (b : Bool) (xs : List T) (x : T)
      → xs ++ (if b then x ∷ [] else []) ≡ (if b then xs ++ (x ∷ []) else xs)
  put true xs x = refl
  put false xs x = append-nil xs

  pop-Balanced :
      (xs : List T) (dst : T) {q : SpscQueue T} → Holds e q xs → Balanced e xs (call e (pop dst) q)
  unfolding call
  pop-Balanced [] dst {q} h = ([], [], q, [], rw (try_pop_refines dst [] law h) refl, h, refl)
  pop-Balanced (x ∷ xs) dst {q} h =
      let (q', ok, h') = try_pop_refines dst (x ∷ xs) law h in
      ([], x ∷ [], q', xs, rw ok refl, h', append-nil (x ∷ xs))

  call-Balanced :
      (c : Call T) (xs : List T) {q : SpscQueue T} → Holds e q xs → Balanced e xs (call e c q)
  unfolding call
  call-Balanced (push x) xs {q} h =
      let (q', ok, h') = try_push_refines h x law in
      (
        if ObjectQueue.accepts capacity xs then x ∷ [] else [],
        [],
        q',
        ObjectQueue.push capacity xs x,
        rw ok refl,
        h',
        put (ObjectQueue.accepts capacity xs) xs x,
      )
  call-Balanced (push_move x) xs {q} h =
      let (q', ok, h') = try_push_move_refines h x law in
      (
        if ObjectQueue.accepts capacity xs then x ∷ [] else [],
        [],
        q',
        ObjectQueue.push capacity xs x,
        rw ok refl,
        h',
        put (ObjectQueue.accepts capacity xs) xs x,
      )
  call-Balanced (pop dst) xs {q} h = pop-Balanced xs dst h

  -- For a regular element type, every sequence of calls on a queue that holds `xs` runs without
  -- losing an object or using one that is not there, and the objects delivered are those held and
  -- accepted, in order, up to the ones still held.
  pub run_objects-Balanced :
      (cs : List (Call T)) (xs : List T) {q : SpscQueue T}
      → Holds e q xs
      → Balanced e xs (run e cs q)
  unfolding run
  run_objects-Balanced [] xs {q} h = ([], [], q, xs, refl, h, append-nil xs)
  run_objects-Balanced (c ∷ cs) xs {q} h =
      let (a, d, q₁, ys, ok₁, h₁, e₁) = call-Balanced c xs h in
      let (a', d', q₂, zs, ok₂, h₂, e₂) = run_objects-Balanced cs ys h₁ in
      (
        a ++ a',
        d ++ d',
        q₂,
        zs,
        rw (ok₁, ok₂) refl,
        h₂,
        sym (append_assoc xs a a')
            ∙ ap (λ r. r ++ a') e₁
            ∙ append_assoc d ys a'
            ∙ ap (λ r. d ++ r) e₂
            ∙ sym (append_assoc d d' zs),
      )
