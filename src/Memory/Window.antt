-- ===== src/Memory/Window.antt =====
-- The cells of a ring in order: `n` of them from index `h` on, going round at `size`.
use lock_free_queues.Prelude.{
  ℕ, zero, suc, ◌+◌, ◌%◌, ◌<◌, ◌≡◌, refl, ap, ap₂, ◌∙◌, List, [], ◌∷◌, ◌++◌, arith, length,
}
use lock_free_queues.Memory.Copy.{read_cells}

module _ {ℓ} {A : Type ℓ} (size : ℕ) where
  abbrev pub window : (ℕ → A) → ℕ → ℕ → List A
  window mem h zero = []
  window mem h (suc n) = mem (h % size) ∷ window mem (h + 1) n

  pub length-window : (mem : ℕ → A) (h n : ℕ) → length (window mem h n) ≡ n
  length-window mem h zero = refl
  length-window mem h (suc n) = ap suc (length-window mem (h + 1) n)

  at_eq : (f : ℕ → A) {a b : ℕ} → a ≡ b → f (a % size) ≡ f (b % size)
  at_eq f e = ap (λ t. f (t % size)) e

  -- Two windows that agree cell by cell.
  pub window_congr :
      (f g : ℕ → A) (h k n : ℕ)
      → ((i : ℕ) → i < n → f ((h + i) % size) ≡ g ((k + i) % size))
      → window f h n ≡ window g k n
  window_congr f g h k zero e = refl
  window_congr f g h k (suc n) e =
      ap₂ ◌∷◌ (at_eq f (omega arith) ∙ e 0 (omega arith) ∙ at_eq g (omega arith)) (
        window_congr f g (h + 1) (k + 1) n
          λ i lt. at_eq f (omega arith) ∙ e (i + 1) (omega arith) ∙ at_eq g (omega arith))

  -- A window is a shorter one and the rest.
  pub window-add :
      (mem : ℕ → A) (h m n : ℕ) → window mem h (m + n) ≡ window mem h m ++ window mem (h + m) n
  window-add mem h zero n = ap₂ (λ a b. window mem a b) (omega arith) (omega arith)
  window-add mem h (suc m) n =
      ap (window mem h) (grow m)
      ∙ ap (λ r. mem (h % size) ∷ r)
          (window-add mem (h + 1) m n
            ∙ ap (λ a. window mem (h + 1) m ++ window mem a n) (omega arith))
    where
      grow : (k : ℕ) → suc k + n ≡ suc (k + n)
      grow k = omega arith

  -- A window that does not go round the end of the ring is a flat range of cells.
  pub window-eq_cells :
      (mem : ℕ → A) (h off n : ℕ)
      → ((i : ℕ) → i < n → (h + i) % size ≡ off + i)
      → window mem h n ≡ read_cells mem off n
  unfolding read_cells
  window-eq_cells mem h off zero e = refl
  window-eq_cells mem h off (suc n) e =
      ap₂ ◌∷◌ (ap mem (head (e 0 (omega arith))))
        (window-eq_cells mem (h + 1) (off + 1) n λ i lt. step i (e (i + 1) (omega arith)))
    where
      head : (h + 0) % size ≡ off + 0 → h % size ≡ off
      head q = ap (λ t. t % size) (omega arith) ∙ q ∙ omega arith

      step : (i : ℕ) → (h + (i + 1)) % size ≡ off + (i + 1) → (h + 1 + i) % size ≡ off + 1 + i
      step i q = ap (λ t. t % size) (omega arith) ∙ q ∙ omega arith
