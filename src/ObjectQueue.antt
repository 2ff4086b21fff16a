-- ===== src/ObjectQueue.antt =====
-- What the object queue promises: a FIFO of at most `capacity` objects, oldest first.
use lock_free_queues.Prelude.{ℕ, List, [], ◌∷◌, ◌++◌, Bool, ltb, if◌then◌else◌, length}

abbrev pub accepts {ℓ} : {T : Type ℓ} → ℕ → List T → Bool
accepts capacity xs = ltb (length xs) capacity

abbrev pub push {ℓ} : {T : Type ℓ} → ℕ → List T → T → List T
push capacity xs x = if accepts capacity xs then xs ++ (x ∷ []) else xs
