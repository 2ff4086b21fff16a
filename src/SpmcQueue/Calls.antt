-- ===== src/SpmcQueue/Calls.antt =====
-- The turns of its own consumer that a call of `pop` takes.
use lock_free_queues.Prelude.{
  ℕ, suc, ◌+◌, ◌*◌, ◌≤◌, ◌<◌, ◌≡◌, ◌≢◌, refl, sym, subst, List, [], ◌∷◌, ◌++◌, arith, length,
  length-append, dec_lt, lt→ltb, le→ltb, ◌==◌, if◌then◌else◌, Bool-cases, inl, inr, ℕ_discrete,
  update_self, update_ne, ==_iff, ne→==,
}
use lock_free_queues.Prelude.Words.{mul_split}
use lock_free_queues.SpmcQueue.{
  Shared, PopPc, making, waiting, copying, aborted, Consumer, expected_version, wrap, check,
  recheck, pop_step,
}
use lock_free_queues.SpmcQueue.System.{System, Turn, produce, consume, turn, run, init}
use lock_free_queues.SpmcQueue.Invariant.{bound, published, PopFacts}
use lock_free_queues.SpmcQueue.Delivery.{Inv, turn-Inv, init-Inv, run-Inv, consumer}

-- The turns of consumer `c` in a schedule.
abbrev pub turns_of : ℕ → List Turn → ℕ
turns_of c [] = 0
turns_of c (produce ∷ ts) = turns_of c ts
turns_of c (consume d ∷ ts) = (if c == d then 1 else 0) + turns_of c ts

module _ (bits width : ℕ) {A : Type 0} where
  -- The calls of `pop` that have returned.
  abbrev pub returns : Consumer A → ℕ
  returns c = length c.got + c.misses

  -- The turns that a consumer has had are paid for by its returns and by the call that it is in.
  abbrev PaidAt : PopPc A → ℕ → Consumer A → Type 0
  PaidAt making k c = k ≡ 0
  PaidAt waiting k c = k ≤ 1 + (width + 2) * returns c
  PaidAt (copying temp) k c = k ≤ 2 + length temp + (width + 2) * returns c
  PaidAt aborted k c = Unit {0}

  abbrev Paid : ℕ → Consumer A → Type 0
  Paid k c = PaidAt c.pc k c

  check-Paid :
      (c : Consumer A) (v k : ℕ)
      → c.pc ≡ waiting
      → k ≤ 1 + (width + 2) * returns c
      → Paid (k + 1) (check bits width c v)
  unfolding check
  check-Paid c v k idle le = elim (dec_lt (expected_version bits c.reader) v) [
    | yes late ↦ rw (lt→ltb (expected_version bits c.reader) v late) tt
    | no fine ↦ elim (dec_lt v (expected_version bits c.reader)) [
      | yes early ↦
          rw
            (
              le→ltb (expected_version bits c.reader) v (omega arith),
              lt→ltb v (expected_version bits c.reader) early,
              idle,
            )
            (omega (
              arith,
              mul_split (width + 2) (returns c) 1 (length c.got + (c.misses + 1)) (omega arith),
            ))
      | no there ↦
          rw
            (
              le→ltb (expected_version bits c.reader) v (omega arith),
              le→ltb v (expected_version bits c.reader) (omega arith),
            )
            (omega arith)
    ]
  ]

  recheck-Paid :
      (c : Consumer A) (temp : List A) (v k : ℕ)
      → length temp ≤ width
      → k ≤ 2 + length temp + (width + 2) * returns c
      → Paid (k + 1) (recheck bits width c temp v)
  unfolding recheck
  recheck-Paid c temp v k le paid = elim (Bool-cases (v == expected_version bits c.reader)) [
    | inl same ↦ rw same (
        omega (
          arith,
          length-append c.got (temp ∷ []),
          mul_split (width + 2) (returns c) 1 (length (c.got ++ (temp ∷ [])) + c.misses)
              (omega (arith, length-append c.got (temp ∷ []))),
        ))
    | inr changed ↦ rw changed tt
  ]

  pop_step-Paid :
      (mem : Shared A) (c : Consumer A) (k : ℕ)
      → ((temp : List A) → c.pc ≡ copying temp → length temp ≤ width)
      → (pc : PopPc A) → c.pc ≡ pc
      → PaidAt pc k c
      → Paid (k + 1) (pop_step bits width mem c pc)
  unfolding pop_step
  pop_step-Paid mem c k short making e at = omega arith
  pop_step-Paid mem c k short waiting e at = check-Paid c (mem.version (wrap bits c.reader)) k e at
  pop_step-Paid mem c k short (copying temp) e at = elim (dec_lt (length temp) width) [
    | yes more ↦
        rw (lt→ltb (length temp) width more)
          (omega (arith, length-append temp (mem.cells (wrap bits c.reader) (length temp) ∷ [])))
    | no over ↦
        rw (le→ltb (length temp) width (omega arith))
          (recheck-Paid c temp (mem.version (wrap bits c.reader)) k (short temp e) at)
  ]
  pop_step-Paid mem c k short aborted e at = subst (λ pc. PaidAt pc (k + 1) c) (sym e) tt

  module _ (msg : ℕ → ℕ → A) (c : ℕ) where
    abbrev PaidIn : ℕ → System A → Type 0
    PaidIn k s = Paid k (s.consumers c)

    turn-PaidIn :
        (t : Turn) {left : ℕ} {s : System A} (k : ℕ)
        → Inv bits width msg (suc left) s
        → PaidIn k s
        → PaidIn (k + turns_of c (t ∷ [])) (turn bits width msg t s)
    unfolding turn
    turn-PaidIn produce {s = s} k inv paid =
        subst (λ j. Paid j (s.consumers c)) {x = k} (omega arith) paid
    turn-PaidIn (consume d) {s = s} k inv paid = elim (ℕ_discrete d c) [
      | yes e ↦
          subst (λ x. Paid (k + ((if c == d then 1 else 0) + 0)) x)
            (sym (
              update_self s.consumers d
                (pop_step bits width s.mem (s.consumers d) (s.consumers d).pc) e))
            (rw ((==_iff c d).1 (sym e)) (
              pop_step-Paid s.mem (s.consumers d) k
                (λ temp e.
                  (subst
                    (PopFacts bits width msg (published s.pc s.pushed) (s.consumers d).reader s.mem)
                    e (inv.popping d).facts).0)
                (s.consumers d).pc refl (rw e paid)))
      | no ne ↦
          subst (λ x. Paid (k + ((if c == d then 1 else 0) + 0)) x)
            (sym (
              update_ne s.consumers d (pop_step bits width s.mem (s.consumers d) (s.consumers d).pc)
                ne))
            (rw (ne→== c d (λ e. ne (sym e)))
              (subst (λ j. Paid j (s.consumers c)) {x = k} (omega arith) paid))
    ]

    run-PaidIn :
        (ts : List Turn) {s : System A} (k : ℕ)
        → Inv bits width msg (length ts) s
        → PaidIn k s
        → PaidIn (k + turns_of c ts) (run bits width msg ts s)
    unfolding run
    run-PaidIn [] {s} k inv paid = subst (λ j. PaidIn j s) {x = k} (omega arith) paid
    run-PaidIn (t ∷ ts) {s} k inv paid =
        subst (λ j. PaidIn j (run bits width msg ts (turn bits width msg t s))) (both t)
          (run-PaidIn ts (k + turns_of c (t ∷ [])) (turn-Inv bits width msg t inv)
            (turn-PaidIn t k inv paid))
      where
        both : (t : Turn) → k + turns_of c (t ∷ []) + turns_of c ts ≡ k + turns_of c (t ∷ ts)
        both produce = omega arith
        both (consume d) = omega arith

    PaidAt-lt :
        (x : Consumer A) (k : ℕ) (pc : PopPc A)
        → ((temp : List A) → pc ≡ copying temp → length temp ≤ width)
        → pc ≢ aborted
        → PaidAt pc k x
        → k ≤ (width + 2) * (returns x + 1)
    PaidAt-lt x k making short alive paid = omega arith
    PaidAt-lt x k waiting short alive paid =
        omega (arith, mul_split (width + 2) (returns x) 1 (returns x + 1) refl)
    PaidAt-lt x k (copying temp) short alive paid =
        omega (arith, short temp refl, mul_split (width + 2) (returns x) 1 (returns x + 1) refl)
    PaidAt-lt x k aborted short alive paid = absurd (alive refl)

    -- After any schedule of fewer than 2^62 steps from an empty queue, a consumer that has not
    -- aborted has had in all at most `width + 2` turns for each call of `pop` that has returned and
    -- for one more, whatever the producer and the other consumers did.
    pub pops_return :
        (blank : ℕ → ℕ → A) (ts : List Turn)
        → length ts < bound
        → (consumer bits width msg blank ts c).pc ≢ aborted
        → turns_of c ts ≤ (width + 2) * (returns (consumer bits width msg blank ts c) + 1)
    unfolding init
    pops_return blank ts lt alive =
        PaidAt-lt me (turns_of c ts) me.pc
          (λ temp e.
            (subst (PopFacts bits width msg (published now.pc now.pushed) me.reader now.mem) e
              ((run-Inv bits width msg ts {left = 0} fresh).popping c).facts).0)
          alive
          (subst (λ k. PaidIn k now) {y = turns_of c ts} (omega arith)
            (run-PaidIn ts 0 (init-Inv bits width msg (length ts) blank lt) refl))
      where
        now : System A
        now = run bits width msg ts (init blank)

        me : Consumer A
        me = now.consumers c

        fresh : Inv bits width msg (length ts + 0) (init blank)
        fresh = init-Inv bits width msg (length ts + 0) blank (omega arith)
