-- ===== src/SpscBuffer/Stream.antt =====
-- Any sequence of calls on an `SPSCBuffer`.
use lock_free_queues.Prelude.{
  ℕ, ◌≡◌, refl, sym, ap, ◌∙◌, List, [], ◌∷◌, ◌++◌, Option, some, Bool, true, false, ◌>>=◌,
  if◌then◌else◌, take, drop, take-append, take-append-drop, append-nil, append_assoc, arith, length,
  length-take,
}
use lock_free_queues.ByteQueue
use lock_free_queues.SpscBuffer.{SpscBuffer, try_write, read}
use lock_free_queues.SpscBuffer.Contents.{IsValid, contents, capacity}
use lock_free_queues.SpscBuffer.Write.{try_write_refines}
use lock_free_queues.SpscBuffer.Read.{read_refines}

pub data Call : Type 0 where
  writes : (bytes : List ℕ) → Call
  reads : (dst : List ℕ) → Call

-- The bytes that a call accepted, and those that it delivered.
unfoldable pub call : Call → SpscBuffer → Option (List ℕ × List ℕ × SpscBuffer)
call (writes bytes) s = do (done, s') ← try_write s bytes; some (if done then bytes else [], [], s')
call (reads dst) s = do (n, dst', s') ← read s dst; some ([], take n dst', s')

unfoldable pub run : List Call → SpscBuffer → Option (List ℕ × List ℕ × SpscBuffer)
unfolding call
run [] s = some ([], [], s)
run (c ∷ cs) s = do (a, d, s₁) ← call c s; (a', d', s₂) ← run cs s₁; some (a ++ a', d ++ d', s₂)

-- What went in on top of what was held is what came out and what is held still.
abbrev pub Balanced : SpscBuffer → Option (List ℕ × List ℕ × SpscBuffer) → Type 0
Balanced s r =
    (a : List ℕ) × (d : List ℕ) × (s' : SpscBuffer) × (r ≡ some (a, d, s'))
    × IsValid s'
    × (contents s ++ a ≡ d ++ contents s')

call-Balanced : (c : Call) {s : SpscBuffer} → IsValid s → Balanced s (call c s)
unfolding call
call-Balanced (writes bytes) {s} v =
    let (s', run_ok, v', held) = try_write_refines bytes v in
    (
      if ByteQueue.fits capacity (contents s) bytes then bytes else [],
      [],
      s',
      rw run_ok refl,
      v',
      sym (held ∙ put (ByteQueue.fits capacity (contents s) bytes)),
    )
  where
    put :
        (b : Bool)
        → (if b then contents s ++ bytes else contents s) ≡ contents s ++ (if b then bytes else [])
    put true = refl
    put false = sym (append-nil (contents s))
call-Balanced (reads dst) {s} v =
    let (s', run_ok, v', held) = read_refines dst v in
    (
      [],
      take n (contents s),
      s',
      rw run_ok (ap (λ d. some ([], d, s')) front),
      v',
      append-nil (contents s)
          ∙ sym (ap (λ r. take n (contents s) ++ r) held ∙ take-append-drop n (contents s)),
    )
  where
    n : ℕ
    n = ByteQueue.count (length dst) (contents s)

    front : take n (take n (contents s) ++ drop n dst) ≡ take n (contents s)
    front =
        take-append (take n (contents s)) (drop n dst) n (omega (arith, length-take n (contents s)))

-- Every sequence of calls from a well-formed buffer runs without a fault, and the bytes delivered
-- are those held and accepted, in order, up to the ones still held.
pub run_bytes-Balanced : (cs : List Call) {s : SpscBuffer} → IsValid s → Balanced s (run cs s)
unfolding run
run_bytes-Balanced [] {s} v = ([], [], s, refl, v, append-nil (contents s))
run_bytes-Balanced (c ∷ cs) {s} v =
    let (a, d, s₁, ok₁, v₁, e₁) = call-Balanced c v in
    let (a', d', s₂, ok₂, v₂, e₂) = run_bytes-Balanced cs v₁ in
    (
      a ++ a',
      d ++ d',
      s₂,
      rw (ok₁, ok₂) refl,
      v₂,
      sym (append_assoc (contents s) a a')
          ∙ ap (λ r. r ++ a') e₁
          ∙ append_assoc d (contents s₁) a'
          ∙ ap (λ r. d ++ r) e₂
          ∙ sym (append_assoc d d' (contents s₂)),
    )
