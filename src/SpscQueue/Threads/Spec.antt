-- ===== src/SpscQueue/Threads/Spec.antt =====
-- What the callers of the two threads may see: the calls of one bounded FIFO queue.
use lock_free_queues.Prelude.{
  ℕ, ◌≡◌, sym, ap, ◌∙◌, List, [], ◌∷◌, ◌++◌, append-nil, true, false, if◌then◌else◌,
}
use lock_free_queues.ObjectQueue
use lock_free_queues.SpscQueue.Threads.{Event, silent, pushed, refused, popped, missed}

module _ {A : Type 0} where
  abbrev pub pushed_object : Event A → List (List A)
  pushed_object (pushed x) = x ∷ []
  pushed_object _ = []

  abbrev pub popped_object : Event A → List (List A)
  popped_object (popped x) = x ∷ []
  popped_object _ = []

module _ {A : Type 0} (capacity : ℕ) where
  -- What a step does to the queue that holds `xs`. A push is refused only of a full queue, and a
  -- pop comes back empty only from an empty one.
  abbrev pub Does : List (List A) → Event A → List (List A) → Type 0
  Does xs silent ys = ys ≡ xs
  Does xs (pushed x) ys =
      (ObjectQueue.accepts capacity xs ≡ true) × (ys ≡ ObjectQueue.push capacity xs x)
  Does xs refused ys = (ObjectQueue.accepts capacity xs ≡ false) × (ys ≡ xs)
  Does xs (popped x) ys = xs ≡ x ∷ ys
  Does xs missed ys = (xs ≡ []) × (ys ≡ [])

  pub Does-Balanced :
      (e : Event A) (xs ys : List (List A))
      → Does xs e ys
      → xs ++ pushed_object e ≡ popped_object e ++ ys
  Does-Balanced silent xs ys d = append-nil xs ∙ sym d
  Does-Balanced (pushed x) xs ys d = sym (d.1 ∙ ap (λ b. if b then xs ++ (x ∷ []) else xs) d.0)
  Does-Balanced refused xs ys d = append-nil xs ∙ sym d.1
  Does-Balanced (popped x) xs ys d = append-nil xs ∙ d
  Does-Balanced missed xs ys d = append-nil xs ∙ d.0 ∙ sym d.1
