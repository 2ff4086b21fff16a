-- ===== src/Bench/BurstThreads/Meter.antt =====
-- A number for how far the threads of the burst benchmark have come.
use lock_free_queues.Prelude.{
  ap, ◌∙◌, ℕ, zero, suc, ◌+◌, ◌*◌, ◌≤◌, ◌<◌, ◌≡◌, ◌≢◌, refl, arith, List, [], ◌∷◌, length,
  length-append, ltb, ltb→lt, lt→ltb, le→ltb, ◌==◌, Bool-cases, inl, inr, dec_lt, ℕ_discrete, subst,
}
use lock_free_queues.Prelude.Words.{mul_split, add64}
use lock_free_queues.SpmcQueue.{
  Shared, PushPc, ready, loaded, versioned, writing, stored, PopPc, making, waiting, copying,
  aborted, Consumer, push_step, pop_step, check, recheck, expected_version, wrap,
}
use lock_free_queues.SpmcQueue.System.{count_push}
use lock_free_queues.SpmcQueue.Invariant.{bound, PushFacts}
use lock_free_queues.Bench.BurstThreads.{Place, at_start, working, at_end, finished}

-- The moves of a thread between its places.
abbrev pub spot : ℕ → Place → ℕ
spot epochs (at_start e) = 3 * e
spot epochs (working e i) = 3 * e + 1
spot epochs (at_end e) = 3 * e + 2
spot epochs finished = 3 * epochs

module _ (width : ℕ) where
  -- The accesses of the call that a thread is in.
  abbrev pub push_done : PushPc → ℕ
  push_done ready = 0
  push_done (loaded w) = 1
  push_done (versioned w v) = 2
  push_done (writing w v k) = 3 + k
  push_done (stored w) = width + 4

  abbrev pub pop_done : {A : Type 0} → PopPc A → ℕ
  pop_done (copying temp) = 1 + length temp
  pop_done _ = 0

  abbrev pub push_meter : PushPc → ℕ → ℕ
  push_meter pc k = (width + 5) * k + push_done pc

  abbrev pub pop_meter : {A : Type 0} → Consumer A → ℕ
  pop_meter c = (width + 2) * c.reader + pop_done c.pc

module _ (bits width : ℕ) {A : Type 0} where
  -- Each access of `push` counts.
  pub push_step-meter :
      (msg : ℕ → ℕ → A) (val : ℕ → A) (mem : Shared A) (n k : ℕ) (pc : PushPc)
      → PushFacts bits width msg n mem pc
      → push_meter width (push_step bits width val mem pc).1 (count_push pc k)
        ≡ push_meter width pc k + 1
  unfolding push_step
  push_step-meter msg val mem n k ready f = omega arith
  push_step-meter msg val mem n k (loaded w) f = omega arith
  push_step-meter msg val mem n k (versioned w v) f = omega arith
  push_step-meter msg val mem n k (writing w v i) f = elim (dec_lt i width) [
    | yes more ↦ rw (lt→ltb i width more) (omega arith)
    | no over ↦ rw (le→ltb i width (omega arith)) (omega (arith, f.3))
  ]
  push_step-meter msg val mem n k (stored w) f =
      omega (arith, mul_split (width + 5) k 1 (k + 1) refl)

  -- An access of `pop` that does not abort loses nothing, and counts if the object is there.
  abbrev pub Moves : Shared A → Consumer A → Consumer A → Type 0
  Moves mem c c' =
      c'.pc ≢ aborted
      → (pop_meter width c ≤ pop_meter width c')
        × (expected_version bits c.reader ≤ mem.version (wrap bits c.reader)
            → pop_meter width c' ≡ pop_meter width c + 1)

  check-Moves :
      (mem : Shared A) (c : Consumer A)
      → c.pc ≡ waiting
      → Moves mem c (check bits width c (mem.version (wrap bits c.reader)))
  unfolding check
  check-Moves mem c idle =
      let v = mem.version (wrap bits c.reader) in
      let e = expected_version bits c.reader in
      elim (Bool-cases (ltb e v)) [
        | inl late ↦ rw late (λ alive. absurd (alive refl))
        | inr fine ↦ elim (Bool-cases (ltb v e)) [
          | inl early ↦
              rw (fine, early)
                (λ alive. (omega arith, λ there. absurd (omega (arith, ltb→lt v e early))))
          | inr now ↦ rw (fine, now, idle) (λ alive. (omega arith, λ there. omega arith))
        ]
      ]

  recheck-Moves :
      (mem : Shared A) (c : Consumer A) (temp : List A)
      → c.pc ≡ copying temp
      → c.reader < bound
      → length temp ≡ width
      → Moves mem c (recheck bits width c temp (mem.version (wrap bits c.reader)))
  unfolding recheck
  recheck-Moves mem c temp at small full =
      let v = mem.version (wrap bits c.reader) in
      let e = expected_version bits c.reader in
      elim (Bool-cases (v == e)) [
        | inl same ↦
            rw (same, at)
              (λ alive.
                let up = mul_split (width + 2) c.reader 1 (add64 c.reader 1) (omega arith) in
                (omega (arith, up), λ there. omega (arith, up)))
        | inr changed ↦ rw changed (λ alive. absurd (alive refl))
      ]

  pub pop_step-Moves :
      (mem : Shared A) (c : Consumer A) (p : PopPc A)
      → c.pc ≡ p
      → c.pc ≢ making
      → c.pc ≢ aborted
      → c.reader < bound
      → ((temp : List A) → c.pc ≡ copying temp → length temp ≤ width)
      → Moves mem c (pop_step bits width mem c p)
  unfolding pop_step
  pop_step-Moves mem c making e made well small short = absurd (made e)
  pop_step-Moves mem c waiting e made well small short = check-Moves mem c e
  pop_step-Moves mem c (copying temp) e made well small short = elim (dec_lt (length temp) width) [
    | yes more ↦
        rw (lt→ltb (length temp) width more, e)
          (λ alive. (
            omega (arith, length-append temp (mem.cells (wrap bits c.reader) (length temp) ∷ [])),
            λ there.
                omega
                  (arith, length-append temp (mem.cells (wrap bits c.reader) (length temp) ∷ [])),
          ))
    | no over ↦
        rw (le→ltb (length temp) width (omega arith))
          (recheck-Moves mem c temp e small (omega (arith, short temp e)))
  ]
  pop_step-Moves mem c aborted e made well small short = absurd (well e)

-- An aborted consumer stays so.
pub stays_aborted :
    (bits width : ℕ) {A : Type 0} (mem : Shared A) (c : Consumer A)
    → c.pc ≡ aborted
    → (pop_step bits width mem c c.pc).pc ≡ aborted
unfolding pop_step
stays_aborted bits width mem c gone = ap (λ p. (pop_step bits width mem c p).pc) gone ∙ gone

-- The sum of `f` over the first `count` numbers.
unfoldable pub sum_to : (ℕ → ℕ) → ℕ → ℕ
sum_to f zero = 0
sum_to f (suc c) = f c + sum_to f c

pub sum_to-le :
    (f g : ℕ → ℕ) (count : ℕ) → ((c : ℕ) → c < count → f c ≤ g c) → sum_to f count ≤ sum_to g count
unfolding sum_to
sum_to-le f g zero le = omega arith
sum_to-le f g (suc count) le =
    omega (arith, le count (omega arith), sum_to-le f g count (λ c lt. le c (omega arith)))

pub sum_to-lt :
    (f g : ℕ → ℕ) (count d : ℕ)
    → d < count
    → f d + 1 ≤ g d
    → ((c : ℕ) → c < count → f c ≤ g c)
    → sum_to f count + 1 ≤ sum_to g count
unfolding sum_to
sum_to-lt f g zero d lt up le = absurd (omega arith)
sum_to-lt f g (suc count) d lt up le = elim (ℕ_discrete d count) [
  | yes e ↦
      omega
        (arith, subst (λ c. f c + 1 ≤ g c) e up, sum_to-le f g count (λ c lt. le c (omega arith)))
  | no ne ↦ omega (
    arith,
    le count (omega arith),
    sum_to-lt f g count d (omega arith) up (λ c lt. le c (omega arith)),
  )
]

pub sum_to-bound :
    (f : ℕ → ℕ) (most count : ℕ)
    → ((c : ℕ) → c < count → f c ≤ most)
    → sum_to f count ≤ most * count
unfolding sum_to
sum_to-bound f most zero le = omega arith
sum_to-bound f most (suc count) le = omega (
  arith,
  le count (omega arith),
  sum_to-bound f most count (λ c lt. le c (omega arith)),
  mul_split most count 1 (suc count) (omega arith),
)
