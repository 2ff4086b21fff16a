-- ===== src/SpscBuffer/Threads/Fill.antt =====
-- A thread of src/spsc_buffer.cpp that is not interrupted, and the bytes that it stores.
use lock_free_queues.Prelude.{
  ℕ, zero, suc, ◌+◌, ◌<◌, ◌≡◌, refl, sym, ap, ap₂, ◌∙◌, fun_ext, arith, List, [], ◌∷◌, inl, update,
  update_self, update_ne, ℕ_discrete,
}
use lock_free_queues.SpscBuffer.{SpscBuffer}
use lock_free_queues.SpscBuffer.Threads.{Event, silent}
use lock_free_queues.Memory.Copy.{write_cells, write_cells-outside, read_cells}

-- Goes on after a step that no caller sees.
abbrev pub next :
    {P : Type 0}
    → SpscBuffer × P × Event
    → (SpscBuffer → P → SpscBuffer × P × Event)
    → SpscBuffer × P × Event
next (m, pc, silent) go = go m pc
next (m, pc, e) go = (m, pc, e)

write_cells_congr :
    (mem mem' : ℕ → ℕ) (off : ℕ) (xs : List ℕ) (j : ℕ)
    → mem j ≡ mem' j
    → write_cells mem off xs j ≡ write_cells mem' off xs j
unfolding write_cells
write_cells_congr mem mem' off [] j e = e
write_cells_congr mem mem' off (x ∷ xs) j e =
    ground (arith, write_cells_congr mem mem' (off + 1) xs j e)

-- The first byte of a copy may be stored first.
first_byte :
    (mem : ℕ → ℕ) (off x : ℕ) (xs : List ℕ)
    → write_cells (update mem off x) (off + 1) xs ≡ write_cells mem off (x ∷ xs)
unfolding write_cells
first_byte mem off x xs = fun_ext λ j. elim (ℕ_discrete off j) [
  | yes e ↦
      write_cells-outside (update mem off x) (off + 1) xs j (inl (omega arith))
      ∙ update_self mem off x e
      ∙ sym (update_self (write_cells mem (off + 1) xs) off x e)
  | no ne ↦
      write_cells_congr (update mem off x) mem (off + 1) xs j (update_ne mem off x ne)
      ∙ sym (update_ne (write_cells mem (off + 1) xs) off x ne)
]

module _ (val : ℕ → ℕ) where
  -- Bytes `k`, ..., `k + rest - 1` go to the addresses `at`.
  unfoldable pub fill : (ℕ → ℕ) → (ℕ → ℕ) → ℕ → ℕ → ℕ → ℕ
  fill at mem k zero = mem
  fill at mem k (suc rest) = fill at (update mem (at k) (val k)) (k + 1) rest

  pub fill_flat :
      (at mem : ℕ → ℕ) (off k rest : ℕ)
      → ((i : ℕ) → i < rest → at (k + i) ≡ off + i)
      → fill at mem k rest ≡ write_cells mem off (read_cells val k rest)
  unfolding fill write_cells read_cells
  fill_flat at mem off k zero here = refl
  fill_flat at mem off k (suc rest) here =
      fill_flat at (update mem (at k) (val k)) (off + 1) (k + 1) rest
        (λ i lt. ap at (omega arith) ∙ here (suc i) (omega arith) ∙ omega arith)
      ∙ ap (λ a. write_cells (update mem a (val k)) (off + 1) (read_cells val (k + 1) rest))
          (ap at (omega arith) ∙ here 0 (omega arith) ∙ omega arith)
      ∙ first_byte mem off (val k) (read_cells val (k + 1) rest)

  pub fill-add :
      (at mem : ℕ → ℕ) (k m rest : ℕ)
      → fill at mem k (m + rest) ≡ fill at (fill at mem k m) (k + m) rest
  unfolding fill
  fill-add at mem k zero rest =
      ap₂ (fill at mem) {x = k} {y = k + 0} {u = 0 + rest} {v = rest} (omega arith) (omega arith)
  fill-add at mem k (suc m) rest =
      ap (fill at mem k) {x = suc m + rest} {y = suc (m + rest)} (omega arith)
      ∙ fill-add at (update mem (at k) (val k)) (k + 1) m rest
      ∙ ap (λ i. fill at (fill at (update mem (at k) (val k)) (k + 1) m) i rest) {x = k + 1 + m}
          {y = k + suc m} (omega arith)
