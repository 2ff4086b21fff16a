-- ===== src/SpscBuffer/RoundTrip.antt =====
-- A call of `SPSCBuffer::try_write` and then one of `read`.
use lock_free_queues.Prelude.{
  ℕ, zero, suc, ◌+◌, ◌≤◌, ◌≡◌, refl, ap, ap₂, ◌∙◌, List, [], ◌∷◌, ◌++◌, some, true, arith, length,
  take, drop, le→leb, length-append, min, if◌then◌else◌,
}
use lock_free_queues.ByteQueue
use lock_free_queues.SpscBuffer.{SpscBuffer, read, try_write}
use lock_free_queues.SpscBuffer.Contents.{IsValid, contents, capacity}
use lock_free_queues.SpscBuffer.Write.{try_write_refines}
use lock_free_queues.SpscBuffer.Read.{read_refines}

take-whole : (k : ℕ) (xs : List ℕ) → length xs ≡ k → take k xs ≡ xs
take-whole zero [] e = refl
take-whole zero (x ∷ xs) e = absurd (omega arith)
take-whole (suc k) [] e = refl
take-whole (suc k) (x ∷ xs) e = ap (λ r. x ∷ r) (take-whole k xs (omega arith))

drop-whole : (k : ℕ) (xs : List ℕ) → length xs ≡ k → drop k xs ≡ []
drop-whole zero [] e = refl
drop-whole zero (x ∷ xs) e = absurd (omega arith)
drop-whole (suc k) [] e = refl
drop-whole (suc k) (x ∷ xs) e = drop-whole k xs (omega arith)

module _ {s : SpscBuffer} (bytes dst : List ℕ) (v : IsValid s) where
  -- What is in the buffer after the write.
  abbrev pub whole : List ℕ
  whole = contents s ++ bytes

  -- If the bytes fit into a well-formed buffer, and a span has room for what it holds then, then
  -- `try_write` returns true and a `read` into the span gives back what was held and then these
  -- bytes, exactly, in front of the rest of the span, and leaves the buffer empty and well-formed.
  pub write_then_read :
      length (contents s) + length bytes ≤ capacity
      → length (contents s) + length bytes ≤ length dst
      → (s' s'' : SpscBuffer) × (try_write s bytes ≡ some (true, s'))
        × (read s' dst ≡ some (length whole, whole ++ drop (length whole) dst, s''))
        × IsValid s''
        × (contents s'' ≡ [])
  write_then_read fit room =
      let (s', wrote, v', held) = try_write_refines bytes v in
      let (s'', took, v'', left) = read_refines dst v' in
      let fits : ByteQueue.fits capacity (contents s) bytes ≡ true = le→leb _ _ fit in
      let now : contents s' ≡ whole =
        held ∙ ap (λ b. if b then contents s ++ bytes else contents s) fits in
      let all : ByteQueue.count (length dst) (contents s') ≡ length whole =
        ap (λ xs. min (length xs) (length dst)) now
        ∙ omega (arith, length-append (contents s) bytes) in
      (
        s',
        s'',
        wrote ∙ ap (λ b. some (b, s')) fits,
        took
            ∙ ap₂ (λ k xs. some (k, take k xs ++ drop k dst, s'')) all now
            ∙ ap (λ xs. some (length whole, xs ++ drop (length whole) dst, s''))
                (take-whole (length whole) whole refl),
        v'',
        left ∙ ap₂ drop all now ∙ drop-whole (length whole) whole refl,
      )
