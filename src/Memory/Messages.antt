-- ===== src/Memory/Messages.antt =====
-- Objects that are copied word by word, and the sequence of the objects that a producer sends.
use lock_free_queues.Prelude.{
  ℕ, zero, suc, ◌+◌, ◌≡◌, refl, ap, ◌∙◌, List, [], ◌∷◌, ◌++◌, arith, length,
}
use lock_free_queues.Memory.Copy.{read_cells}

pub read_cells-zero {ℓ} : {A : Type ℓ} (mem : ℕ → A) (off : ℕ) → read_cells mem off 0 ≡ []
unfolding read_cells
read_cells-zero mem off = refl

-- One more cell at the end.
pub read_cells-suc {ℓ} :
    {A : Type ℓ} (mem : ℕ → A) (off n : ℕ)
    → read_cells mem off (suc n) ≡ read_cells mem off n ++ (mem (off + n) ∷ [])
unfolding read_cells
read_cells-suc mem off zero = ap (λ a. mem a ∷ []) (omega arith)
read_cells-suc mem off (suc n) =
    ap (λ r. mem off ∷ r)
      (read_cells-suc mem (off + 1) n
        ∙ ap (λ a. read_cells mem (off + 1) n ++ (mem a ∷ [])) (omega arith))

-- Message `n` has the words `msg n 0`, ..., `msg n (width - 1)`.
module _ (width : ℕ) {A : Type 0} (msg : ℕ → ℕ → A) where
  -- The messages from the `from`-th on, `n` of them.
  abbrev pub objects : ℕ → ℕ → List (List A)
  objects from zero = []
  objects from (suc n) = read_cells (msg from) 0 width ∷ objects (from + 1) n

  pub objects-suc :
      (from n : ℕ)
      → objects from (suc n) ≡ objects from n ++ (read_cells (msg (from + n)) 0 width ∷ [])
  objects-suc from zero = ap (λ i. read_cells (msg i) 0 width ∷ []) (omega arith)
  objects-suc from (suc n) =
      ap (λ r. read_cells (msg from) 0 width ∷ r)
        (objects-suc (from + 1) n
          ∙ ap (λ i. objects (from + 1) n ++ (read_cells (msg i) 0 width ∷ [])) (omega arith))

  pub length-objects : (from n : ℕ) → length (objects from n) ≡ n
  length-objects from zero = refl
  length-objects from (suc n) = ap suc (length-objects (from + 1) n)
