-- ===== src/SpmcQueue/Pop.antt =====
-- Each step of a consumer keeps what it has read in order and whole.
use lock_free_queues.Prelude.{
  ℕ, zero, suc, ◌+◌, ◌-◌, ◌*◌, ◌/◌, ◌%◌, ◌^◌, ◌≤◌, ◌<◌, ◌≡◌, sym, ap, ap₂, ◌∙◌, List, [], ◌∷◌, ◌++◌,
  arith, dec_lt, ℕ_discrete, lt→ltb, le→ltb, ==_iff, ne→==, length, length-append,
}
use lock_free_queues.Prelude.Words.{add64}
use lock_free_queues.Memory.Copy.{read_cells}
use lock_free_queues.Memory.Messages.{read_cells-zero, read_cells-suc, objects, objects-suc}
use lock_free_queues.SpmcQueue.{
  Shared, PushPc, PopPc, making, waiting, copying, aborted, Consumer, wrap, check, recheck,
  pop_step,
}
use lock_free_queues.SpmcQueue.Invariant.{bound, published, wrap_lem, PushInv, PopFacts, PopInv}
use lock_free_queues.SpmcQueue.Seqlock.{
  published-le, le-published, expected_lem, current_lem, overtaken,
}

module _ (bits width : ℕ) {A : Type 0} (msg : ℕ → ℕ → A) where
  module _ {n : ℕ} {mem : Shared A} where
    module _ (pc : PushPc) (inv : PushInv bits width msg n mem pc) (c : Consumer A)
        (k : PopInv bits width msg (published pc n) mem c) where
      abbrev target : ℕ
      target = 2 * (c.reader / 2 ^ bits + 1)

      in_reach : published pc n ≤ bound → c.reader ≤ bound
      in_reach le = omega (arith, k.behind)

      abort-PopInv :
          c.reader + 2 ^ bits ≤ published pc n
          → PopInv bits width msg (published pc n) mem (record c { pc = aborted })
      abort-PopInv lapped = record {
        after = k.after;
        behind = k.behind;
        in_order = k.in_order;
        facts = lapped;
      }

      check-PopInv :
          (v : ℕ)
          → published pc n ≤ bound
          → v ≡ mem.version (c.reader % 2 ^ bits)
          → PopInv bits width msg (published pc n) mem (check bits width c v)
      unfolding check
      check-PopInv v le e = elim (dec_lt target v) [
        | yes lt ↦
            rw (expected_lem bits c.reader (in_reach le), lt→ltb target v lt)
              (abort-PopInv (overtaken bits width msg pc c.reader inv (omega arith)))
        | no ge ↦ elim (dec_lt v target) [
          | yes lt ↦
              rw
                (
                  expected_lem bits c.reader (in_reach le),
                  le→ltb target v (omega arith),
                  lt→ltb v target lt,
                )
                (record {
                  after = k.after;
                  behind = k.behind;
                  in_order = k.in_order;
                  facts = k.facts;
                })
          | no eq ↦
              rw
                (
                  expected_lem bits c.reader (in_reach le),
                  le→ltb target v (omega arith),
                  le→ltb v target (omega arith),
                )
                (record {
                  after = k.after;
                  behind = k.behind;
                  in_order = k.in_order;
                  facts = (omega arith, omega arith, λ h. sym (read_cells-zero (msg c.reader) 0));
                })
        ]
      ]

      copy-PopInv :
          (temp : List A)
          → length temp < width
          → PopFacts bits width msg (published pc n) c.reader mem (copying temp)
          → PopInv bits width msg (published pc n) mem (record c {
            pc = copying (temp ++ (mem.cells (wrap bits c.reader) (length temp) ∷ []));
          })
      copy-PopInv temp lt facts = record {
        after = k.after;
        behind = k.behind;
        in_order = k.in_order;
        facts = (omega (arith, grown), facts.1, word);
      }
        where
          x : A
          x = mem.cells (wrap bits c.reader) (length temp)

          grown : length (temp ++ (x ∷ [])) ≡ suc (length temp)
          grown = omega (arith, length-append temp (x ∷ []))

          word :
              mem.version (c.reader % 2 ^ bits) ≡ target
              → temp ++ (x ∷ []) ≡ read_cells (msg c.reader) 0 (length (temp ++ (x ∷ [])))
          word at =
              ap₂ (λ front y. front ++ (y ∷ [])) (facts.2 at)
                (ap (λ j. mem.cells j (length temp)) (wrap_lem bits c.reader)
                  ∙ (current_lem bits width msg pc c.reader inv at).1 (length temp) lt
                  ∙ ap (msg c.reader) (omega arith))
              ∙ sym (
                  ap (read_cells (msg c.reader) 0) grown
                  ∙ read_cells-suc (msg c.reader) 0 (length temp))

      recheck-PopInv :
          (temp : List A) (v : ℕ)
          → published pc n ≤ bound
          → v ≡ mem.version (c.reader % 2 ^ bits)
          → width ≤ length temp
          → PopFacts bits width msg (published pc n) c.reader mem (copying temp)
          → PopInv bits width msg (published pc n) mem (recheck bits width c temp v)
      unfolding recheck
      recheck-PopInv temp v le e full facts = elim (ℕ_discrete v target) [
        | yes eq ↦
            rw (expected_lem bits c.reader (in_reach le), (==_iff v target).1 eq)
              (delivered (sym e ∙ eq))
        | no ne ↦
            rw (expected_lem bits c.reader (in_reach le), ne→== v target ne)
              (abort-PopInv (overtaken bits width msg pc c.reader inv (omega (arith, facts.1))))
      ]
        where
          one_more : add64 c.reader 1 - c.start ≡ suc (c.reader - c.start)
          one_more = omega (arith, k.after, in_reach le)

          whole :
              mem.version (c.reader % 2 ^ bits) ≡ target
              → temp ≡ read_cells (msg (c.start + (c.reader - c.start))) 0 width
          whole at =
              facts.2 at
              ∙ ap₂ (λ r w. read_cells (msg r) 0 w) (omega (arith, k.after))
                  (omega (arith, full, facts.0))

          delivered :
              mem.version (c.reader % 2 ^ bits) ≡ target
              → PopInv bits width msg
                  (published pc n)
                  mem
                  (record c { reader = add64 c.reader 1; pc = waiting; got = c.got ++ (temp ∷ []) })
          delivered at = record {
            after = omega (arith, k.after, in_reach le);
            behind = omega (arith, (current_lem bits width msg pc c.reader inv at).0, in_reach le);
            in_order =
                ap₂ (λ got obj. got ++ (obj ∷ [])) k.in_order (whole at)
                ∙ sym (
                    ap (objects width msg c.start) one_more
                    ∙ objects-suc width msg c.start (c.reader - c.start));
            facts = tt;
          }

      -- A step of `pop` that starts at `p`, where the consumer stands.
      pub pop_step-PopInv :
          (p : PopPc A)
          → n + 1 < bound
          → PopFacts bits width msg (published pc n) c.reader mem p
          → PopInv bits width msg (published pc n) mem (pop_step bits width mem c p)
      unfolding pop_step
      pop_step-PopInv making room facts = record {
        after = omega arith;
        behind = omega (arith, inv.counted, le-published pc n);
        in_order = sym (ap (objects width msg mem.writer) {y = zero} (omega arith));
        facts = tt;
      }
      pop_step-PopInv waiting room facts =
          check-PopInv (mem.version (wrap bits c.reader)) (omega (arith, published-le pc n))
            (ap mem.version (wrap_lem bits c.reader))
      pop_step-PopInv (copying temp) room facts = elim (dec_lt (length temp) width) [
        | yes lt ↦ rw (lt→ltb (length temp) width lt) (copy-PopInv temp lt facts)
        | no ge ↦ rw (le→ltb (length temp) width (omega arith)) (
            recheck-PopInv temp (mem.version (wrap bits c.reader))
              (omega (arith, published-le pc n)) (ap mem.version (wrap_lem bits c.reader))
              (omega arith) facts)
      ]
      pop_step-PopInv aborted room facts = k

-- A consumer's facts outlive the producer's steps: versions only grow.
pub PopInv-mono :
    (bits width : ℕ) {A : Type 0} (msg : ℕ → ℕ → A) {m m' : ℕ} {mem mem' : Shared A}
    {c : Consumer A}
    → m ≤ m'
    → ((j : ℕ) → mem.version j ≤ mem'.version j)
    → PopInv bits width msg m mem c
    → PopInv bits width msg m' mem' c
PopInv-mono bits width {A} msg {m = m} {m' = m'} {mem = mem} {mem' = mem'} {c = c} le grow k =
    record {
      after = k.after;
      behind = omega (arith, k.behind);
      in_order = k.in_order;
      facts = facts c.pc k.facts;
    }
  where
    facts :
        (p : PopPc A)
        → PopFacts bits width msg m c.reader mem p
        → PopFacts bits width msg m' c.reader mem' p
    facts making f = tt
    facts waiting f = tt
    facts (copying temp) f = (
      f.0,
      omega (arith, f.1, grow (c.reader % 2 ^ bits)),
      λ at. f.2 (omega (arith, f.1, grow (c.reader % 2 ^ bits))),
    )
    facts aborted f = omega arith
