-- ===== src/Memory/Copy.antt =====
-- `std::memcpy` between a ring's storage and a flat span. A copy that leaves its array faults.
use lock_free_queues.Prelude.{
  ℕ, zero, suc, ◌+◌, ◌≤◌, ◌<◌, ◌≡◌, refl, ap, ap₂, ◌∙◌, List, [], ◌∷◌, ◌++◌, Option, none, some,
  arith, leb, sym, append_assoc, take-append, drop-append, drop-drop, length-append, length-drop,
  le→leb, if◌then◌else◌, update, length, take, drop, ◌⊎◌,
}

module _ {ℓ} {A : Type ℓ} where
  -- The cells from `off` on become those of the list.
  unfoldable pub write_cells : (ℕ → A) → ℕ → List A → ℕ → A
  write_cells mem off [] = mem
  write_cells mem off (x ∷ xs) = update (write_cells mem (off + 1) xs) off x

  -- The `n` cells from `off` on.
  unfoldable pub read_cells : (ℕ → A) → ℕ → ℕ → List A
  read_cells mem off zero = []
  read_cells mem off (suc n) = mem off ∷ read_cells mem (off + 1) n

  -- memcpy(mem + off, xs, n) into an array of `size` cells, and memcpy(dst, mem + off, n) out.
  unfoldable pub copy_in : ℕ → (ℕ → A) → ℕ → List A → Option (ℕ → A)
  unfolding write_cells
  copy_in size mem off xs =
      if leb (off + length xs) size then some (write_cells mem off xs) else none

  unfoldable pub copy_out : ℕ → (ℕ → A) → ℕ → ℕ → Option (List A)
  unfolding read_cells
  copy_out size mem off n = if leb (off + n) size then some (read_cells mem off n) else none

  -- memcpy(dst + off, xs, n) for a flat destination span.
  unfoldable pub copy_to : List A → ℕ → List A → Option (List A)
  copy_to dst off xs =
      if leb (off + length xs) (length dst)
      then some (take off dst ++ (xs ++ drop (off + length xs) dst))
      else none

  pub write_cells-outside :
      (mem : ℕ → A) (off : ℕ) (xs : List A) (j : ℕ)
      → (j < off) ⊎ (off + length xs ≤ j)
      → write_cells mem off xs j ≡ mem j
  unfolding write_cells
  write_cells-outside mem off [] j h = refl
  write_cells-outside mem off (x ∷ xs) j h = ground (arith, write_cells-outside mem (off + 1) xs j)

  pub length-read_cells : (mem : ℕ → A) (off n : ℕ) → length (read_cells mem off n) ≡ n
  unfolding read_cells
  length-read_cells mem off zero = refl
  length-read_cells mem off (suc n) = ap suc (length-read_cells mem (off + 1) n)

  -- The first cells, and those behind them.
  pub read_cells-add :
      (mem : ℕ → A) (off m n : ℕ)
      → read_cells mem off (m + n) ≡ read_cells mem off m ++ read_cells mem (off + m) n
  unfolding read_cells
  read_cells-add mem off zero n = ap₂ (read_cells mem) (omega arith) (omega arith)
  read_cells-add mem off (suc m) n =
      ap (read_cells mem off) {y = suc (m + n)} (omega arith)
      ∙ ap (λ r. mem off ∷ r)
          (read_cells-add mem (off + 1) m n
            ∙ ap (λ i. read_cells mem (off + 1) m ++ read_cells mem i n) (omega arith))

  shift_from :
      (mem : ℕ → A) (base off n : ℕ)
      → read_cells (λ k. mem (base + k)) off n ≡ read_cells mem (base + off) n
  unfolding read_cells
  shift_from mem base off zero = refl
  shift_from mem base off (suc n) =
      ap (λ r. mem (base + off) ∷ r)
        (shift_from mem base (off + 1) n ∙ ap (λ i. read_cells mem i n) (omega arith))

  pub read_cells_shift :
      (mem : ℕ → A) (base n : ℕ) → read_cells (λ k. mem (base + k)) 0 n ≡ read_cells mem base n
  read_cells_shift mem base n = shift_from mem base 0 n ∙ ap (λ i. read_cells mem i n) (omega arith)

  pub read_cells_congr :
      (f g : ℕ → A) (off n : ℕ)
      → ((i : ℕ) → off ≤ i → i < off + n → f i ≡ g i)
      → read_cells f off n ≡ read_cells g off n
  unfolding read_cells
  read_cells_congr f g off zero e = refl
  read_cells_congr f g off (suc n) e =
      ap₂ ◌∷◌ (e off (omega arith) (omega arith))
        (read_cells_congr f g (off + 1) n λ i h lt. e i (omega arith) (omega arith))

  -- What was written is read back.
  pub read-write_cells :
      (mem : ℕ → A) (off : ℕ) (xs : List A)
      → read_cells (write_cells mem off xs) off (length xs) ≡ xs
  unfolding read_cells write_cells
  read-write_cells mem off [] = refl
  read-write_cells mem off (x ∷ xs) = ap₂ ◌∷◌ (ground arith) (
      read_cells_congr _ (write_cells mem (off + 1) xs) (off + 1) (length xs)
        (λ i h lt. ground arith)
      ∙ read-write_cells mem (off + 1) xs)

  pub copy_in_lem :
      (size : ℕ) (mem : ℕ → A) (off : ℕ) (xs : List A)
      → off + length xs ≤ size
      → copy_in size mem off xs ≡ some (write_cells mem off xs)
  unfolding copy_in
  copy_in_lem size mem off xs h = rw (le→leb (off + length xs) size h)

  pub copy_out_lem :
      (size : ℕ) (mem : ℕ → A) (off n : ℕ)
      → off + n ≤ size
      → copy_out size mem off n ≡ some (read_cells mem off n)
  unfolding copy_out
  copy_out_lem size mem off n h = rw (le→leb (off + n) size h)

  pub copy_to_lem :
      (dst : List A) (off : ℕ) (xs : List A)
      → off + length xs ≤ length dst
      → copy_to dst off xs ≡ some (take off dst ++ (xs ++ drop (off + length xs) dst))
  unfolding copy_to
  copy_to_lem dst off xs h = rw (le→leb (off + length xs) (length dst) h)

  -- The first copy into a span, and one that goes on where the first stopped.
  pub copy_to_start :
      (dst xs : List A) (n : ℕ)
      → length xs ≡ n
      → n ≤ length dst
      → copy_to dst 0 xs ≡ some (xs ++ drop n dst)
  copy_to_start dst xs n e h =
      copy_to_lem dst 0 xs (omega arith) ∙ ap (λ k. some (xs ++ drop k dst)) (omega arith)

  pub copy_to_next :
      (dst xs ys : List A) (m n : ℕ)
      → length xs ≡ m
      → length ys ≡ n
      → m + n ≤ length dst
      → copy_to (xs ++ drop m dst) m ys ≡ some ((xs ++ ys) ++ drop (m + n) dst)
  copy_to_next dst xs ys m n e f h =
      copy_to_lem (xs ++ drop m dst) m ys
        (omega (arith, length-append xs (drop m dst), length-drop m dst))
      ∙ ap some (
          ap₂ ◌++◌ (take-append xs (drop m dst) m (omega arith)) (ap (λ r. ys ++ r) rest)
          ∙ sym (append_assoc xs ys (drop (m + n) dst)))
    where
      rest : drop (m + length ys) (xs ++ drop m dst) ≡ drop (m + n) dst
      rest =
          sym (drop-drop m (length ys) (xs ++ drop m dst))
          ∙ ap (drop (length ys)) (drop-append xs (drop m dst) m (omega arith))
          ∙ drop-drop m (length ys) dst
          ∙ ap (λ k. drop (m + k) dst) f
